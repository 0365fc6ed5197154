-- ===== src/Ingestion/Rtmp/Counted.antt =====
-- The counters of the source of ingestion/rtmp.go, and the end of each of its connections.
use streamlation.Prelude.{
  ℕ, ◌≡◌, ◌<◌, zero, suc, arith, refl, Bool, true, false, Bool-cases, none, some, leb, leb→le, ◌+◌,
  inl, inr, length, length-drop,
}
use streamlation.Prelude.Int.{pos}
use streamlation.Prelude.Loop.{Round, loop-ends, Progress, Keeps, rounds-Keeps}
use streamlation.Prelude.Text.{Bytes}
use streamlation.Prelude.Result.{Result, ok, err}
use streamlation.Net.{NetError, Conn, read_full}
use streamlation.Ingestion.{Surroundings}
use streamlation.Ingestion.Emitter.{
  Emitted, add_error, add_reconnect, IsCounted, start-IsCounted, emit_chunk-IsCounted, recount,
}
use streamlation.Ingestion.Rtmp.{
  RtmpStreamSource, RtmpError, ContextError, read_header, read_payload, Consuming, handshake,
  big_endian, failed, on_payload, on_length, on_header, on_context, round, consume_stream,
  is_silent, on_pause, pause, retry, on_failure, on_consumed, on_handshake, on_dialed, on_started,
  attempt, attempts, dial_failed,
}

-- A read of `n` bytes that succeeds takes them from the connection.
Takes : ℕ → ℕ → Result RtmpError Bytes × Conn → Type 0
Takes n before (ok b, c) = length c.input + n ≡ before
Takes n before (err e, c) = Unit

read_full-Takes :
    (wrap : NetError → RtmpError) (n : ℕ) (c : Conn) → Takes n (length c.input) (read_full wrap n c)
unfolding read_full Takes
read_full-Takes wrap n c = elim (Bool-cases (leb n (length c.input))) [
  | inl e ↦ rw e (omega (arith, length-drop n c.input, leb→le n (length c.input) e))
  | inr e ↦ rw e tt
]

module _ {W : Type 0} where
  -- What a state with an error to return holds.
  pub record IsFailed (s : Consuming W) : Type 0 where
    pub error : RtmpError
    pub failure : s.failure ≡ some error
    pub counted : IsCounted s.emitted

module _ {W : Type 0} (around : Surroundings W) (cause : ContextError)
    (source : RtmpStreamSource) where
  Owes : ℕ → Round (Consuming W) → Type 0
  Owes = Progress (λ s. IsCounted s.emitted) IsFailed (λ s. length s.conn.input)

  failed-Owes :
      (m : ℕ) (e : RtmpError) (c : Conn) (s : Consuming W)
      → IsCounted s.emitted
      → Owes m (failed e c s)
  unfolding failed Owes
  failed-Owes m e c s h = record { error = e; failure = refl; counted = h }

  on_payload-Owes :
      (n m before : ℕ) (s : Consuming W) (r : Result RtmpError Bytes × Conn)
      → IsCounted s.emitted
      → before < m
      → Takes n before r
      → Owes m (on_payload around cause source s r)
  unfolding on_payload Owes Takes
  on_payload-Owes n m before s (err e, c) h lt t = failed-Owes m e c s h
  on_payload-Owes n m before s (ok payload, c) h lt t =
      (emit_chunk-IsCounted around (pos 0) payload _ s.emitted h, omega (arith, t))

  on_length-Owes :
      (n m : ℕ) (s : Consuming W) (c : Conn)
      → IsCounted s.emitted
      → length c.input < m
      → Owes m (on_length around cause source n c s)
  unfolding on_length Owes
  on_length-Owes zero m s c h lt = (h, lt)
  on_length-Owes (suc n) m s c h lt =
      on_payload-Owes (suc n) m (length c.input) s _ h lt (read_full-Takes read_payload (suc n) c)

  on_header-Owes :
      (m : ℕ) (s : Consuming W) (r : Result RtmpError Bytes × Conn)
      → IsCounted s.emitted
      → Takes 4 m r
      → Owes m (on_header around cause source s r)
  unfolding on_header Takes
  on_header-Owes m s (err e, c) h t = failed-Owes m e c s h
  on_header-Owes m s (ok header, c) h t =
      on_length-Owes (big_endian header) m s c h (omega (arith, t))

  on_context-Owes :
      (s : Consuming W) (r : Bool × W)
      → IsCounted s.emitted
      → Owes (length s.conn.input) (on_context around cause source s r)
  unfolding on_context
  on_context-Owes s (true, w) h =
      failed-Owes (length s.conn.input) _ s.conn
        (record s { emitted = record s.emitted { world = w } }) (recount s.emitted _ _ w h)
  on_context-Owes s (false, w) h =
      on_header-Owes (length s.conn.input) (record s { emitted = record s.emitted { world = w } }) _
        (recount s.emitted _ _ w h) (read_full-Takes read_header 4 s.conn)

  round-Owes :
      (s : Consuming W)
      → IsCounted s.emitted
      → Owes (length s.conn.input) (round around cause source s)
  unfolding round
  round-Owes s h = on_context-Owes s _ h

  -- Whatever the peer sends and the context does, consumeStream returns, always with an error, and
  -- leaves the counters consistent.
  pub consume_stream-IsFailed :
      (c : Conn) (e : Emitted W)
      → IsCounted e
      → (s : Consuming W) × (consume_stream around cause source c e ≡ some s) × IsFailed s
  unfolding consume_stream Owes
  consume_stream-IsFailed c e h =
      loop-ends (λ s. IsCounted s.emitted) IsFailed (λ s. length s.conn.input)
        (round around cause source) round-Owes (suc (length c.input))
        (record { conn = c; emitted = e; failure = none }) h (omega arith)

  module _ (dial : Bytes → W → Result Bytes Conn × W) (report : RtmpError → W → W) where
    on_pause-Keeps :
        (e : Emitted W) (r : Bool × W)
        → IsCounted e
        → Keeps IsCounted (on_pause around cause source dial report e r)
    unfolding on_pause
    on_pause-Keeps e (true, w) h = (recount e _ _ _ h)
    on_pause-Keeps e (false, w) h = (recount e _ _ _ h)

    pause-Keeps :
        (e : Emitted W) → IsCounted e → Keeps IsCounted (pause around cause source dial report e)
    unfolding pause
    pause-Keeps e h = on_pause-Keeps e _ h

    retry-Keeps :
        (error : RtmpError) (e : Emitted W)
        → IsCounted e
        → Keeps IsCounted (retry around cause source dial report error e)
    unfolding retry add_error
    retry-Keeps error e h = pause-Keeps _ (recount e _ _ _ h)

    on_failure-Keeps :
        (error : RtmpError) (e : Emitted W)
        → IsCounted e
        → Keeps IsCounted (on_failure around cause source dial report (some error) e)
    unfolding on_failure
    on_failure-Keeps error e h = elim (Bool-cases (is_silent error)) [
      | inl q ↦ rw q (pause-Keeps e h)
      | inr q ↦ rw q (retry-Keeps error e h)
    ]

    on_handshake-Keeps :
        (e : Emitted W) (r : Result RtmpError (Unit {0}) × Conn)
        → IsCounted e
        → Keeps IsCounted (on_handshake around cause source dial report e r)
    unfolding on_handshake on_consumed
    on_handshake-Keeps e (err error, c) h = retry-Keeps error e h
    on_handshake-Keeps e (ok _, c) h =
        let (s, done, f) = consume_stream-IsFailed c e h in
        rw (done, f.failure) (on_failure-Keeps f.error s.emitted f.counted)

    on_dialed-Keeps :
        (e : Emitted W) (r : Result Bytes Conn × W)
        → IsCounted e
        → Keeps IsCounted (on_dialed around cause source dial report e r)
    unfolding on_dialed add_reconnect
    on_dialed-Keeps e (err error, w) h = retry-Keeps (dial_failed error) _ (recount e _ _ _ h)
    on_dialed-Keeps e (ok c, w) h = on_handshake-Keeps _ (handshake c) (recount e _ _ _ h)

    on_started-Keeps :
        (e : Emitted W) (r : Bool × W)
        → IsCounted e
        → Keeps IsCounted (on_started around cause source dial report e r)
    unfolding on_started
    on_started-Keeps e (true, w) h = (recount e _ _ _ h)
    on_started-Keeps e (false, w) h = on_dialed-Keeps e (dial source.url.host w) h

    -- After any number of the goroutine's rounds, whatever dialing, the peers, the channel and the
    -- context do, every number that was given to a chunk is counted once, as received or as
    -- dropped, and the received chunks are those in the channel, with rising numbers from 1.
    pub attempts-IsCounted :
        (n : ℕ) (w : W) → IsCounted (attempts around cause source dial report n w)
    unfolding attempts attempt
    attempts-IsCounted n w =
        rounds-Keeps IsCounted (attempt around cause source dial report)
          (λ e h. on_started-Keeps e _ h) n _ (start-IsCounted w)
