-- ===== src/Ingestion/File/Rounds.antt =====
-- The rounds of the loop of ingestion/file.go: each keeps the invariant and leaves fewer bytes
-- unread, or ends the loop.
use streamlation.Prelude.{
  ℕ, ◌≡◌, Bool, true, false, Bool-cases, Option, none, some, [], ◌∷◌, ◌++◌, leb, length, take, drop,
  ◌≤◌, ◌<◌, arith, refl, sym, ◌∙◌, ap, inl, inr, append-nil, All-append, length-append,
  length-take_le, take-append-drop,
}
use streamlation.Prelude.Int.{ℤ, pos, negsuc}
use streamlation.Prelude.Loop.{Round, loop-ends, Progress}
use streamlation.Prelude.Text.{Bytes}
use streamlation.Prelude.Result.{ok}
use streamlation.Ingestion.{Surroundings}
use streamlation.Ingestion.File.{
  on_pause, FileStreamSource, File, full, end_of_file, end_of, read_full, FileStream, os_error,
  record_error, chunk_of, throttle, behind_chunk, on_sent, send_chunk, on_read, on_context, round,
  opened, stream,
}
use streamlation.Ingestion.File.Cut.{IsFull, IsCut-append, All-IsCut}
use streamlation.Ingestion.File.Replay.{
  IsReplaying, IsEnded, Uninterrupted, moved, interrupted, sent-IsReplay, opened-IsReplaying,
}

module _ {W : Type 0} (around : Surroundings W) (start : ℕ) (source : FileStreamSource)
    (positive : 0 < source.chunk_size) (content : Bytes) (fault : Option Bytes) where
  -- What a round owes: the invariant and fewer unread bytes, or the end.
  Owes : ℕ → Round (FileStream W) → Type 0
  Owes =
      Progress (IsReplaying around start source content fault)
        (IsEnded around start source content fault) (λ s. length s.file.unread)

  on_pause-Owes :
      (s : FileStream W) (m : ℕ) (interval : ℕ) (r : Bool × W)
      → IsReplaying around start source content fault s
      → length s.file.unread < m
      → (Uninterrupted around → r.0 ≡ true)
      → Owes m (on_pause around start source s r)
  unfolding on_pause Owes
  on_pause-Owes s m interval (true, w) h lt always = (
    record {
      replay = moved around start source content s.file.unread s s.file w h.replay;
      full = h.full;
      next = h.next;
      same = h.same;
      silent = h.silent;
    },
    lt,
  )
  on_pause-Owes s m interval (false, w) h lt always =
      interrupted around start source positive content fault s s.file w h (λ u. cc (always u))

  throttle-Owes :
      (interval : ℤ) (s : FileStream W) (m : ℕ)
      → IsReplaying around start source content fault s
      → length s.file.unread < m
      → Owes m (throttle around start source interval s)
  unfolding throttle Owes
  throttle-Owes (negsuc n) s m h lt = (h, lt)
  throttle-Owes (pos n) s m h lt = elim (Bool-cases (leb n 0)) [
    | inl e ↦ rw e (h, lt)
    | inr e ↦ rw e (on_pause-Owes s m n (around.wait n s.world) h lt (λ u. u.waits n s.world))
  ]

  on_sent-Owes :
      (s : FileStream W) (payload : Bytes) (f : File) (r : Bool × W)
      → IsReplaying around start source content fault s
      → payload ++ f.unread ≡ s.file.unread
      → length payload ≡ source.chunk_size
      → f.fault ≡ fault
      → (Uninterrupted around → r.0 ≡ true)
      → Owes (length s.file.unread) (
          on_sent around start source
            (chunk_of around start source s.sequence payload)
            full
            (record s { file = f })
            r)
  unfolding on_sent behind_chunk Owes chunk_of
  on_sent-Owes s payload f (true, w) h split size same always =
      throttle-Owes source.emit_interval _ (length s.file.unread)
        (record {
          replay =
              sent-IsReplay around start source positive content fault s payload f.unread f w h
                split;
          full = All-append (IsFull source.chunk_size) s.chunks _ h.full (size, tt);
          next = omega (
            arith,
            h.next,
            length-append s.chunks (chunk_of around start source s.sequence payload ∷ []),
          );
          same = same;
          silent = h.silent;
        })
        (omega (arith, positive, size, ap length split, length-append payload f.unread))
  on_sent-Owes s payload f (false, w) h split size same always =
      interrupted around start source positive content fault s f w h (λ u. cc (always u))

  -- The last chunk is shorter.
  on_sent-last :
      (s : FileStream W) (payload : Bytes) (f : File) (r : Bool × W)
      → IsReplaying around start source content fault s
      → payload ≡ s.file.unread
      → 0 < length payload
      → length payload ≤ source.chunk_size
      → (Uninterrupted around → r.0 ≡ true)
      → Owes (length s.file.unread) (
          on_sent around start source
            (chunk_of around start source s.sequence payload)
            end_of_file
            (record s { file = f })
            r)
  unfolding on_sent behind_chunk Owes chunk_of
  on_sent-last s payload f (true, w) h split some_byte size always = record {
    rest = [];
    replay =
        sent-IsReplay around start source positive content fault s payload [] f w h
          (append-nil payload ∙ split);
    cut = IsCut-append source.chunk_size s.chunks _ h.full some_byte size;
    whole = λ u e. refl;
    errors = inl h.silent;
  }
  on_sent-last s payload f (false, w) h split some_byte size always =
      interrupted around start source positive content fault s f w h (λ u. cc (always u))

  short-Owes :
      (s : FileStream W) (unread : Bytes) (behind : Option Bytes)
      → IsReplaying around start source content fault s
      → unread ≡ s.file.unread
      → behind ≡ s.file.fault
      → length unread < source.chunk_size
      → Owes (length s.file.unread) (
          on_read around start source s
            (unread, end_of behind, record { unread = []; fault = s.file.fault }))
  unfolding on_read end_of send_chunk record_error Owes
  short-Owes s [] none h e same lt = record {
    rest = s.file.unread;
    replay = moved around start source content s.file.unread s _ s.world h.replay;
    cut = All-IsCut source.chunk_size s.chunks positive h.full;
    whole = λ u e0. sym e;
    errors = inl h.silent;
  }
  short-Owes s (c ∷ unread) none h e same lt =
      on_sent-last s (c ∷ unread) _ _ h e (omega arith) (omega arith) (λ u. u.sends _ s.world)
  short-Owes s unread (some f) h e same lt = record {
    rest = s.file.unread;
    replay = record {
      bytes = h.replay.bytes;
      numbers = h.replay.numbers;
      received = h.replay.received;
      last = h.replay.last;
      failed = omega (arith, h.replay.failed, length-append s.errors (os_error f ∷ []));
    };
    cut = All-IsCut source.chunk_size s.chunks positive h.full;
    whole = λ u e0. cc (h.same, same, e0);
    errors = inr (f, sym h.same ∙ sym same, ap (λ es. es ++ os_error f ∷ []) h.silent);
  }

  on_read-Owes :
      (s : FileStream W)
      → IsReplaying around start source content fault s
      → Owes
          (length s.file.unread)
          (on_read around start source s (read_full source.chunk_size s.file))
  unfolding on_read read_full send_chunk Owes
  on_read-Owes s h = elim (Bool-cases (leb source.chunk_size (length s.file.unread))) [
    | inl e ↦ rw e (
        on_sent-Owes s (take source.chunk_size s.file.unread)
          (record s.file { unread = drop source.chunk_size s.file.unread }) _ h
          (take-append-drop source.chunk_size s.file.unread)
          (length-take_le source.chunk_size s.file.unread (ground (arith, e))) h.same
          (λ u. u.sends _ s.world))
    | inr e ↦ rw e (short-Owes s s.file.unread s.file.fault h refl refl (ground (arith, e)))
  ]

  on_context-Owes :
      (s : FileStream W) (r : Bool × W)
      → IsReplaying around start source content fault s
      → (Uninterrupted around → r.0 ≡ false)
      → Owes (length s.file.unread) (on_context around start source s r)
  unfolding on_context Owes
  on_context-Owes s (true, w) h always =
      interrupted around start source positive content fault s s.file w h (λ u. cc (always u))
  on_context-Owes s (false, w) h always =
      on_read-Owes (record s { world = w })
        (record {
          replay = moved around start source content s.file.unread s s.file w h.replay;
          full = h.full;
          next = h.next;
          same = h.same;
          silent = h.silent;
        })

  round-Owes :
      (s : FileStream W)
      → IsReplaying around start source content fault s
      → Owes (length s.file.unread) (round around start source s)
  unfolding round
  round-Owes s h = on_context-Owes s (around.ended s.world) h (λ u. u.goes_on s.world)

  pub stream-IsEnded :
      (fuel : ℕ) (w : W) (unread : Bytes)
      → unread ≡ content
      → length unread < fuel
      → (final : FileStream W) × (stream around start source fuel w
            (ok (record { unread = unread; fault = fault }))
          ≡ some final)
        × IsEnded around start source content fault final
  unfolding stream opened Owes
  stream-IsEnded fuel w unread e lt =
      loop-ends (IsReplaying around start source content fault)
        (IsEnded around start source content fault) (λ s. length s.file.unread)
        (round around start source) round-Owes fuel
        (opened w (record { unread = unread; fault = fault }))
        (opened-IsReplaying around start source positive content fault w unread e) lt
