-- ===== src/Ingestion/Rtmp/Frames.antt =====
-- What the source of ingestion/rtmp.go makes of the frames that the peer sends.
use streamlation.Prelude.{
  ℕ, ◌≡◌, ◌≤◌, ◌<◌, ◌+◌, ◌^◌, zero, suc, arith, refl, sym, ap, ◌∙◌, Bool, true, false, none, some,
  List, [], ◌∷◌, ◌++◌, length, length-append, append_assoc, append-nil, All,
}
use streamlation.Prelude.Int.{pos}
use streamlation.Prelude.Loop.{again, after, loop}
use streamlation.Prelude.Text.{Bytes, text}
use streamlation.Prelude.Word.{put_uint32, uint32-put_uint32}
use streamlation.Net.{Conn, read_full, short}
use streamlation.Net.Laws.{read_full-append, read_full-short}
use streamlation.Ingestion.{MediaChunk, Surroundings}
use streamlation.Ingestion.Emitter.{Emitted, emit_chunk, on_offered}
use streamlation.Ingestion.Rtmp.{
  RtmpStreamSource, ContextError, read_header, read_payload, Consuming, big_endian, failed,
  on_payload, on_length, on_header, on_context, round, consume_stream,
}

-- A payload as the peer sends it: its length in four bytes, and the payload.
abbrev pub encode : List Bytes → Bytes
unfolding put_uint32
encode [] = []
encode (f ∷ fs) = put_uint32 (length f) ++ (f ++ encode fs)

abbrev pub non_empty : List Bytes → List Bytes
non_empty [] = []
non_empty ([] ∷ fs) = non_empty fs
non_empty ((b ∷ f) ∷ fs) = (b ∷ f) ∷ non_empty fs

-- The chunk with a number that carries a payload of the stream at `path`.
abbrev pub numbered : {W : Type 0} → Surroundings W → Bytes → ℕ → Bytes → W → MediaChunk
unfolding text
numbered around path number payload w = record {
  sequence = number;
  timestamp = record { clock = (around.now w).0; added = pos 0 };
  duration = pos 0;
  payload = payload;
  metadata = (text "path", path) ∷ [];
}

-- How the worlds, the frames and the chunks go on, from the world `w` and behind the number `last`:
-- in front of each frame the context is asked; a frame that is empty is passed over; each other one
-- becomes the chunk of the next number, with the payload, the clock's time and the path, which is
-- offered to the channel, and is among the chunks exactly if the channel's answer is that it took
-- it.
pub data Taken {W : Type 0} (around : Surroundings W) (path : Bytes)
    : W → ℕ → List Bytes → List MediaChunk → Type 0 where
  done : {w : W} {last : ℕ} → Taken around path w last [] []
  skipped :
      {w : W} {last : ℕ} {frames : List Bytes} {chunks : List MediaChunk}
      → Taken around path (around.ended w).1 last frames chunks
      → Taken around path w last ([] ∷ frames) chunks
  taken :
      {w : W} {last : ℕ} {frames : List Bytes} {chunks : List MediaChunk} (w' : W) (b : ℕ)
      (f : Bytes)
      → around.send
          (numbered around path (suc last) (b ∷ f) (around.ended w).1)
          (around.now (around.ended w).1).1
        ≡ (true, w')
      → Taken around path w' (suc last) frames chunks
      → Taken around path w last
          ((b ∷ f) ∷ frames)
          (numbered around path (suc last) (b ∷ f) (around.ended w).1 ∷ chunks)
  dropped :
      {w : W} {last : ℕ} {frames : List Bytes} {chunks : List MediaChunk} (w' : W) (b : ℕ)
      (f : Bytes)
      → around.send
          (numbered around path (suc last) (b ∷ f) (around.ended w).1)
          (around.now (around.ended w).1).1
        ≡ (false, w')
      → Taken around path w' (suc last) frames chunks
      → Taken around path w last ((b ∷ f) ∷ frames) chunks

module _ {W : Type 0} (around : Surroundings W) (cause : ContextError)
    (source : RtmpStreamSource) where
  -- A payload's chunk is emitted, if it has one.
  heard : Bytes → Emitted W → Emitted W
  unfolding text
  heard [] e = e
  heard (b ∷ f) e = emit_chunk around (pos 0) (b ∷ f) ((text "path", source.url.path) ∷ []) e

  on_context-goes_on :
      (s : Consuming W) (r : Bool × W)
      → r.0 ≡ false
      → on_context around cause source s r
        ≡ on_header around cause source
            (record s { emitted = record s.emitted { world = r.1 } })
            (read_full read_header 4 s.conn)
  unfolding on_context
  on_context-goes_on s (true, w) h = cc h
  on_context-goes_on s (false, w) h = refl

  at : Conn → Bytes → Emitted W → Consuming W
  at c input e = record { conn = record c { input = input }; emitted = e; failure = none }

  module _ (goes_on : (w : W) → (around.ended w).0 ≡ false) where
    begun : Emitted W → Emitted W
    begun e = record e { world = (around.ended e.world).1 }

    round-header :
        (c : Conn) (n : ℕ) (rest : Bytes) (e : Emitted W)
        → n < 2 ^ 32
        → round around cause source (at c (put_uint32 n ++ rest) e)
          ≡ on_length around cause source n
              (record c { input = rest })
              (at c (put_uint32 n ++ rest) (begun e))
    unfolding round at begun on_header big_endian put_uint32
    round-header c n rest e lt =
        rw
          (
            on_context-goes_on (at c (put_uint32 n ++ rest) e) (around.ended e.world)
                (goes_on e.world),
            read_full-append read_header c (put_uint32 n) rest,
            uint32-put_uint32 n lt,
          )
          refl

    round-frame :
        (c : Conn) (f rest : Bytes) (e : Emitted W)
        → length f < 2 ^ 32
        → round around cause source (at c (put_uint32 (length f) ++ (f ++ rest)) e)
          ≡ again (at c rest (heard f (begun e)))
    unfolding on_length on_payload heard at
    round-frame c [] rest e lt = round-header c 0 rest e lt
    round-frame c (b ∷ f) rest e lt =
        round-header c (length (b ∷ f)) ((b ∷ f) ++ rest) e lt
        ∙ rw (read_full-append read_payload c (b ∷ f) rest) refl

    round-tail :
        (c : Conn) (tail : Bytes) (e : Emitted W)
        → length tail < 4
        → round around cause source (at c tail e)
          ≡ failed
              (read_header (short tail c.ending))
              (record c { input = [] })
              (at c tail (begun e))
    unfolding round at begun on_header
    round-tail c tail e lt =
        rw
          (
            on_context-goes_on (at c tail e) (around.ended e.world) (goes_on e.world),
            read_full-short read_header (record c { input = tail }) 4 lt,
          )
          refl

    -- What becomes of the frames behind an emitter's state.
    Heard : Emitted W → List Bytes → Emitted W → Type 0
    Heard e frames t =
        (new : List MediaChunk) × (t.chunks ≡ e.chunks ++ new)
        × Taken around source.url.path e.world e.counters.last_sequence frames new
        × (t.counters.last_sequence ≡ e.counters.last_sequence + length (non_empty frames))

    on_offered-Heard :
        (b : ℕ) (f : Bytes) (frames : List Bytes) (e t : Emitted W) (r : Bool × W)
        → let w = (around.ended e.world).1 in
          let chunk = numbered around source.url.path (suc e.counters.last_sequence) (b ∷ f) w in
          around.send chunk (around.now w).1 ≡ r
          → Heard
              (on_offered chunk
                (record e {
                  counters = record e.counters { last_sequence = suc e.counters.last_sequence };
                  world = (around.now w).1;
                })
                r)
              frames
              t
          → Heard e ((b ∷ f) ∷ frames) t
    unfolding Heard on_offered
    on_offered-Heard b f frames e t (true, w') q (new, chunks, some_taken, last) = (
      _,
      chunks ∙ append_assoc e.chunks (_ ∷ []) new,
      taken w' b f q some_taken,
      omega (arith, last),
    )
    on_offered-Heard b f frames e t (false, w') q (new, chunks, some_taken, last) =
        (new, chunks, dropped w' b f q some_taken, omega (arith, last))

    heard-Heard :
        (f : Bytes) (fs : List Bytes) (e t : Emitted W)
        → Heard (heard f (begun e)) fs t
        → Heard e (f ∷ fs) t
    unfolding heard begun emit_chunk Heard text
    heard-Heard [] fs e t (new, chunks, h, last) = (new, chunks, skipped h, last)
    heard-Heard (b ∷ f) fs e t h = on_offered-Heard b f fs e t _ refl h

    loop-encode :
        (c : Conn) (tail : Bytes) (frames : List Bytes) (e : Emitted W) (fuel : ℕ)
        → All (λ f. length f < 2 ^ 32) frames
        → length tail < 4
        → length frames < fuel
        → (s : Consuming W) × (loop
              (round around cause source)
              fuel
              (at c (encode frames ++ tail) e)
            ≡ some s)
          × (s.failure ≡ some (read_header (short tail c.ending)))
          × Heard e frames s.emitted
    unfolding failed Heard at begun encode
    loop-encode c tail frames e zero small lt enough = absurd (omega arith)
    loop-encode c tail [] e (suc fuel) small lt enough = (
      _,
      ap (after (loop (round around cause source) fuel)) (round-tail c tail e lt),
      refl,
      ([], sym (append-nil e.chunks), done, omega arith),
    )
    loop-encode c tail (f ∷ frames) e (suc fuel) small lt enough =
        let (s, ends, failure, h) =
          loop-encode c tail frames (heard f (begun e)) fuel small.1 lt (omega arith) in
        (
          s,
          ap (λ input. loop (round around cause source) (suc fuel) (at c input e))
                (append_assoc (put_uint32 (length f)) (f ++ encode frames) tail
                  ∙ ap (λ input. put_uint32 (length f) ++ input)
                      (append_assoc f (encode frames) tail))
              ∙ ap (after (loop (round around cause source) fuel))
                  (round-frame c f (encode frames ++ tail) e small.0)
              ∙ ends,
          failure,
          heard-Heard f frames e s.emitted h,
        )

    length-encode : (frames : List Bytes) → length frames ≤ length (encode frames)
    unfolding encode
    length-encode [] = omega arith
    length-encode (f ∷ frames) =
        omega (arith, length-encode frames, length-append f (encode frames))

    -- While the context goes on, and the peer sends frames of less than 2 ^ 32 bytes and behind
    -- them at most three bytes of another one, consumeStream returns with the error that the
    -- header's read meets there. Each frame that is not empty has got the next number and is
    -- offered to the channel as the chunk with that number, its payload, the clock's time and the
    -- path, in the frames' order, and the channel holds exactly those of which it answered that it
    -- took them.
    pub consume_stream-encode :
        (c : Conn) (e : Emitted W) (frames : List Bytes) (tail : Bytes)
        → All (λ f. length f < 2 ^ 32) frames
        → length tail < 4
        → (s : Consuming W) × (new : List MediaChunk) × (consume_stream around cause source
              (record c { input = encode frames ++ tail })
              e
            ≡ some s)
          × (s.failure ≡ some (read_header (short tail c.ending)))
          × (s.emitted.chunks ≡ e.chunks ++ new)
          × Taken around source.url.path e.world e.counters.last_sequence frames new
          × (s.emitted.counters.last_sequence
              ≡ e.counters.last_sequence + length (non_empty frames))
    unfolding consume_stream at Heard
    consume_stream-encode c e frames tail small lt =
        let (s, ends, failure, (new, chunks, h, last)) =
          loop-encode c tail frames e (suc (length (encode frames ++ tail))) small lt
            (omega (arith, length-encode frames, length-append (encode frames) tail)) in
        (s, new, ends, failure, chunks, h, last)
