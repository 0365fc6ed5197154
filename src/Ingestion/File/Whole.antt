-- ===== src/Ingestion/File/Whole.antt =====
-- What the sources that NewFileStreamSource of ingestion/file.go makes emit of a file.
use streamlation.Prelude.{
  ◌⊎◌, ℕ, ◌≡◌, none, some, List, [], ◌∷◌, ◌++◌, length, ◌<◌, ◌*◌, arith, refl, sym, ◌∙◌, ap, inl,
  inr, append-nil,
}
use mathlib.Core.Path.{subst}
use streamlation.Prelude.Int.{ℤ, pos, negsuc}
use streamlation.Prelude.Text.{Bytes}
use streamlation.Prelude.Result.{Result, ok, err}
use streamlation.Ingestion.{Surroundings}
use streamlation.Ingestion.File.{
  FileConfig, FileStreamSource, File, FileStream, FileError, path_required, os_error, stream,
  positive_or, file_source, new_file_stream_source,
}
use streamlation.Ingestion.File.Cut.{payloads}
use streamlation.Ingestion.File.Replay.{Uninterrupted}
use streamlation.Ingestion.File.Rounds.{stream-IsEnded}

positive_or-positive : (default : ℕ) (n : ℤ) → 0 < default → 0 < positive_or default n
unfolding positive_or
positive_or-positive default (pos n) h = ground arith
positive_or-positive default (negsuc n) h = h

size_of : Result FileError FileStreamSource → ℕ
size_of (ok source) = source.chunk_size
size_of (err e) = 0

file_source-positive :
    (clean : Bytes → Bytes) (cfg : FileConfig) (duration : ℤ) (source : FileStreamSource)
    → file_source clean cfg duration ≡ ok source
    → 0 < source.chunk_size
unfolding file_source size_of
file_source-positive clean cfg (negsuc n) source e = cc e
file_source-positive clean cfg (pos n) source e =
    subst (λ r. 0 < size_of r) e (positive_or-positive (64 * 1024) cfg.chunk_size (omega arith))

new_file_stream_source-positive :
    (clean : Bytes → Bytes) (cfg : FileConfig) (source : FileStreamSource)
    → new_file_stream_source clean cfg ≡ ok source
    → 0 < source.chunk_size
unfolding new_file_stream_source
new_file_stream_source-positive clean cfg source e =
    elim cfg.path
        as (λ p.
          (elim p [ [] ↦ err path_required | c ∷ path ↦ file_source clean cfg cfg.chunk_duration ])
            ≡ ok source
          → 0 < source.chunk_size) [
            | [] ↦ λ e. cc e
            | c ∷ path ↦ file_source-positive clean cfg cfg.chunk_duration source
          ]
      e

none-silent :
    {errors : List FileError}
    → ((errors ≡ []) ⊎ ((e : Bytes) × (none ≡ some e) × (errors ≡ os_error e ∷ [])))
    → errors ≡ []
none-silent (inl h) = h
none-silent (inr (e, h, _)) = cc h

module _ {W : Type 0} (around : Surroundings W) (start : ℕ) (clean : Bytes → Bytes)
    (cfg : FileConfig) (source : FileStreamSource)
    (made : new_file_stream_source clean cfg ≡ ok source) where
  -- If the context does not end, every chunk is taken and no read fails, the goroutine ends, for
  -- fuel above the file's length, with the whole file sent, byte for byte, and no error.
  pub stream-whole :
      (fuel : ℕ) (w : W) (content : Bytes)
      → Uninterrupted around
      → length content < fuel
      → (final : FileStream W) × (stream around start source fuel w
            (ok (record { unread = content; fault = none }))
          ≡ some final)
        × (payloads final.chunks ≡ content)
        × (final.errors ≡ [])
        × (final.metrics.received_chunks ≡ length final.chunks)
  stream-whole fuel w content u lt =
      let (final, done, h) =
        stream-IsEnded around start source (new_file_stream_source-positive clean cfg source made)
          content none fuel w content refl lt in
      (
        final,
        done,
        sym (append-nil (payloads final.chunks))
            ∙ ap (λ r. payloads final.chunks ++ r) (sym (h.whole u refl))
            ∙ h.replay.bytes,
        none-silent h.errors,
        h.replay.received,
      )
