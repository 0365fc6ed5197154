-- ===== src/Ingestion/File/Replay.antt =====
-- The invariant of the loop of ingestion/file.go, and what holds when it ends.
use streamlation.Prelude.{
  ◌⊎◌, ℕ, ◌≡◌, suc, true, false, Option, none, some, [], ◌∷◌, ◌++◌, length, ◌<◌, ◌-◌, arith, refl,
  ◌∙◌, ap, inl, append-nil, append_assoc, All, length-append,
}
use streamlation.Prelude.Int.{pos}
use streamlation.Prelude.Text.{Bytes}
use streamlation.Ingestion.{MediaChunk, Surroundings}
use streamlation.Ingestion.File.{
  FileStreamSource, File, FileStream, os_error, record_chunk, chunk_of, opened,
}
use streamlation.Ingestion.File.Cut.{
  payloads, payloads-append, IsCut, IsFull, All-IsCut, IsNumbered, IsNumbered-append,
}

module _ {W : Type 0} (around : Surroundings W) where
  -- The context does not end, and every chunk is taken.
  pub record Uninterrupted : Type 0 where
    pub goes_on : (w : W) → (around.ended w).0 ≡ false
    pub sends : (c : MediaChunk) (w : W) → (around.send c w).0 ≡ true
    pub waits : (n : ℕ) (w : W) → (around.wait n w).0 ≡ true

module _ {W : Type 0} (around : Surroundings W) (start : ℕ) (source : FileStreamSource) where
  -- What a replay has sent and counted, of a file of which it has not sent the bytes `rest`.
  pub record IsReplay (content rest : Bytes) (s : FileStream W) : Type 0 where
    pub bytes : payloads s.chunks ++ rest ≡ content
    pub numbers : IsNumbered (pos source.chunk_duration) source.metadata 0 s.chunks
    pub received : s.metrics.received_chunks ≡ length s.chunks
    pub last : s.metrics.last_sequence ≡ length s.chunks - 1
    pub failed : s.metrics.error_count ≡ length s.errors

  -- The loop's invariant: so far all chunks are full and no error is reported.
  pub record IsReplaying (content : Bytes) (fault : Option Bytes) (s : FileStream W) : Type 0 where
    pub replay : IsReplay content s.file.unread s
    pub full : All (IsFull source.chunk_size) s.chunks
    pub next : s.sequence ≡ length s.chunks
    pub same : s.file.fault ≡ fault
    pub silent : s.errors ≡ []

  pub moved :
      (content rest : Bytes) (s : FileStream W) (f : File) (w : W)
      → IsReplay content rest s
      → IsReplay content rest (record s { file = f; world = w })
  moved content rest s f w r = record {
    bytes = r.bytes;
    numbers = r.numbers;
    received = r.received;
    last = r.last;
    failed = r.failed;
  }

  -- What holds at the end of the loop.
  pub record IsEnded (content : Bytes) (fault : Option Bytes) (s : FileStream W) : Type 0 where
    pub rest : Bytes
    pub replay : IsReplay content rest s
    pub cut : IsCut source.chunk_size s.chunks
    pub whole : Uninterrupted around → fault ≡ none → rest ≡ []
    pub errors : (s.errors ≡ []) ⊎ ((e : Bytes) × (fault ≡ some e) × (s.errors ≡ os_error e ∷ []))

  module _ (positive : 0 < source.chunk_size) (content : Bytes) (fault : Option Bytes) where
    -- The context ends in front of a chunk.
    pub interrupted :
        (s : FileStream W) (f : File) (w : W)
        → IsReplaying content fault s
        → (Uninterrupted around → ⊥)
        → IsEnded content fault (record s { file = f; world = w })
    interrupted s f w r never = record {
      rest = s.file.unread;
      replay = moved content s.file.unread s f w r.replay;
      cut = All-IsCut source.chunk_size s.chunks positive r.full;
      whole = λ u e. absurd (never u);
      errors = inl r.silent;
    }

    -- A chunk of the file is sent.
    pub sent-IsReplay :
        (s : FileStream W) (payload rest : Bytes) (f : File) (w : W)
        → IsReplaying content fault s
        → payload ++ rest ≡ s.file.unread
        → IsReplay content rest (record s {
          file = f;
          sequence = suc s.sequence;
          chunks = s.chunks ++ chunk_of around start source s.sequence payload ∷ [];
          metrics = record_chunk s.sequence s.metrics;
          world = w;
        })
    unfolding chunk_of record_chunk
    sent-IsReplay s payload rest f w r split = record {
      bytes =
          ap (λ p. p ++ rest)
            (payloads-append s.chunks (chunk_of around start source s.sequence payload ∷ []))
          ∙ append_assoc (payloads s.chunks) (payload ++ []) rest
          ∙ ap (λ p. payloads s.chunks ++ (p ++ rest)) (append-nil payload)
          ∙ ap (λ p. payloads s.chunks ++ p) split
          ∙ r.replay.bytes;
      numbers =
          IsNumbered-append (pos source.chunk_duration) source.metadata 0 s.chunks _
            r.replay.numbers (omega (arith, r.next)) refl refl;
      received = omega (
        arith,
        r.replay.received,
        length-append s.chunks (chunk_of around start source s.sequence payload ∷ []),
      );
      last = omega (
        arith,
        r.next,
        length-append s.chunks (chunk_of around start source s.sequence payload ∷ []),
      );
      failed = r.replay.failed;
    }

    pub opened-IsReplaying :
        (w : W) (unread : Bytes)
        → unread ≡ content
        → IsReplaying content fault (opened w (record { unread = unread; fault = fault }))
    unfolding opened
    opened-IsReplaying w unread e = record {
      replay = record { bytes = e; numbers = tt; received = refl; last = refl; failed = refl };
      full = tt;
      next = refl;
      same = refl;
      silent = refl;
    }
