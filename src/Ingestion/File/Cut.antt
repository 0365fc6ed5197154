-- ===== src/Ingestion/File/Cut.antt =====
-- How a file's bytes are cut into the chunks of ingestion/file.go.
use streamlation.Prelude.{
  ℕ, ◌≡◌, suc, List, [], ◌∷◌, ◌++◌, length, ◌≤◌, ◌<◌, ◌+◌, arith, refl, sym, ◌∙◌, ap, append_assoc,
  All,
}
use streamlation.Prelude.Int.{ℤ}
use streamlation.Prelude.Text.{Bytes}
use streamlation.Ingestion.{MediaChunk}

-- The bytes of the chunks, one behind the other.
abbrev pub payloads : List MediaChunk → Bytes
payloads [] = []
payloads (c ∷ cs) = c.payload ++ payloads cs

pub payloads-append : (xs ys : List MediaChunk) → payloads (xs ++ ys) ≡ payloads xs ++ payloads ys
payloads-append [] ys = refl
payloads-append (x ∷ xs) ys =
    ap (◌++◌ x.payload) (payloads-append xs ys)
    ∙ sym (append_assoc x.payload (payloads xs) (payloads ys))

-- Every chunk but the last one holds `size` bytes, the last one at least one and at most `size`.
abbrev pub IsCut : ℕ → List MediaChunk → Type 0
IsCut size [] = Unit
IsCut size (c ∷ []) = (0 < length c.payload) × (length c.payload ≤ size)
IsCut size (c ∷ (d ∷ cs)) = (length c.payload ≡ size) × IsCut size (d ∷ cs)

abbrev pub IsFull : ℕ → MediaChunk → Type 0
IsFull size c = length c.payload ≡ size

pub IsCut-append :
    (size : ℕ) (cs : List MediaChunk) (last : MediaChunk)
    → All (IsFull size) cs
    → 0 < length last.payload
    → length last.payload ≤ size
    → IsCut size (cs ++ last ∷ [])
IsCut-append size [] last h lo hi = (lo, hi)
IsCut-append size (c ∷ []) last h lo hi = (h.0, (lo, hi))
IsCut-append size (c ∷ (d ∷ cs)) last h lo hi = (h.0, IsCut-append size (d ∷ cs) last h.1 lo hi)

pub All-IsCut : (size : ℕ) (cs : List MediaChunk) → 0 < size → All (IsFull size) cs → IsCut size cs
All-IsCut size [] lo h = tt
All-IsCut size (c ∷ []) lo h = (omega (arith, h.0), omega (arith, h.0))
All-IsCut size (c ∷ (d ∷ cs)) lo h = (h.0, All-IsCut size (d ∷ cs) lo h.1)

-- The chunks carry the numbers from `first` on, one by one, and all of them the given duration and
-- metadata.
abbrev pub IsNumbered : ℤ → List (Bytes × Bytes) → ℕ → List MediaChunk → Type 0
IsNumbered duration metadata first [] = Unit
IsNumbered duration metadata first (c ∷ cs) =
    (c.sequence ≡ first)
    × (c.duration ≡ duration)
    × (c.metadata ≡ metadata)
    × IsNumbered duration metadata (suc first) cs

pub IsNumbered-append :
    (duration : ℤ) (metadata : List (Bytes × Bytes)) (first : ℕ) (cs : List MediaChunk)
    (last : MediaChunk)
    → IsNumbered duration metadata first cs
    → last.sequence ≡ first + length cs
    → last.duration ≡ duration
    → last.metadata ≡ metadata
    → IsNumbered duration metadata first (cs ++ last ∷ [])
IsNumbered-append duration metadata first [] last h e d m = (omega (arith, e), d, m, tt)
IsNumbered-append duration metadata first (c ∷ cs) last (n, d0, m0, h) e d m =
    (n, d0, m0, IsNumbered-append duration metadata (suc first) cs last h (omega (arith, e)) d m)
