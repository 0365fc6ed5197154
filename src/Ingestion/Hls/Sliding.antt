-- ===== src/Ingestion/Hls/Sliding.antt =====
-- The segments of a live playlist, and what ingestion/hls.go remembers of them.
use mathlib.Core.Path.{subst}
use streamlation.Prelude.{
  ℕ, ◌≡◌, ◌≤◌, ◌<◌, ◌+◌, ◌-◌, zero, suc, arith, refl, ap, ◌∙◌, true, false, Bool-cases, List, [],
  ◌∷◌, ◌++◌, leb, leb→le, ltb, inl, inr, length,
}
use streamlation.Prelude.Int.{ℤ}
use streamlation.Prelude.Text.{Bytes, equal, equal_self, equal_iff}
use streamlation.Ingestion.{MediaChunk}
use streamlation.Ingestion.Hls.{Seen, is_seen, evict, see}
use streamlation.Ingestion.Hls.Playlist.{HlsSegment}

-- The segments of a stream, from the first one on: their URIs, all different, durations and
-- contents.
pub record Segments : Type 0 where
  pub uri : ℕ → Bytes
  pub duration : ℕ → ℤ
  pub content : ℕ → Bytes
  pub different : (i j : ℕ) → uri i ≡ uri j → i ≡ j

-- The chunk of the segment `i`, numbered from 1.
pub record IsSegment (segments : Segments) (i : ℕ) (c : MediaChunk) : Type 0 where
  pub sequence : c.sequence ≡ suc i
  pub duration : c.duration ≡ segments.duration i
  pub payload : c.payload ≡ segments.content i

module _ (segments : Segments) where
  -- The chunks of all segments from `i` on, in their order.
  abbrev pub AreSegments : ℕ → List MediaChunk → Type 0
  AreSegments i [] = Unit
  AreSegments i (c ∷ cs) = IsSegment segments i c × AreSegments (suc i) cs

  pub AreSegments-append :
      (i n : ℕ) (cs : List MediaChunk) (last : MediaChunk)
      → AreSegments i cs
      → n ≡ i + length cs
      → IsSegment segments n last
      → AreSegments i (cs ++ last ∷ [])
  AreSegments-append i n [] last h e l =
      (subst (λ k. IsSegment segments k last) (omega (arith, e)) l, tt)
  AreSegments-append i n (c ∷ cs) last h e l =
      (h.0, AreSegments-append (suc i) n cs last h.1 (omega (arith, e)) l)

  -- A playlist of the `k` segments from `first` on.
  unfoldable pub playlist : ℕ → ℕ → List HlsSegment
  playlist first zero = []
  playlist first (suc k) =
      record { uri = segments.uri first; duration = segments.duration first }
      ∷ playlist (suc first) k

  -- The entries of the `k` segments from `base` on.
  unfoldable pub entries : ℕ → ℕ → Seen
  entries base zero = []
  entries base (suc k) = (segments.uri (base + k), suc (base + k)) ∷ entries base k

  pub entries-is_seen :
      (base k j : ℕ) → base ≤ j → j < base + k → is_seen (segments.uri j) (entries base k) ≡ true
  unfolding is_seen entries
  entries-is_seen base zero j le lt = absurd (omega arith)
  entries-is_seen base (suc k) j le lt = elim (Bool-cases (leb (base + k) j)) [
    | inl e ↦
        let same : j ≡ base + k = omega (arith, leb→le (base + k) j e, lt) in
        rw (same, equal_self (segments.uri (base + k))) refl
    | inr e ↦
        let ih = entries-is_seen base k j le (ground (arith, e)) in
        elim (Bool-cases (equal (segments.uri j) (segments.uri (base + k)))) [
          | inl q ↦ rw q refl
          | inr q ↦ rw q ih
        ]
  ]

  pub entries-unseen :
      (base k j : ℕ) → base + k ≤ j → is_seen (segments.uri j) (entries base k) ≡ false
  unfolding is_seen entries
  entries-unseen base zero j le = refl
  entries-unseen base (suc k) j le =
      elim (Bool-cases (equal (segments.uri j) (segments.uri (base + k)))) [
        | inl q ↦ absurd (
            omega (
              arith,
              le,
              segments.different j (base + k)
                  ((equal_iff (segments.uri j) (segments.uri (base + k))).0 q),
            ))
        | inr q ↦ rw q (entries-unseen base k j (omega arith))
      ]

  evict-entries : (base k : ℕ) → evict (suc base) (entries base (suc k)) ≡ entries (suc base) k
  unfolding evict entries
  evict-entries base zero =
      let e : leb (suc (base + 0)) (suc base) ≡ true = ground arith in rw e refl
  evict-entries base (suc k) =
      let e : leb (suc (base + suc k)) (suc base) ≡ false = ground arith in
      rw (e, evict-entries base k)
        (ap (λ i. (segments.uri i, suc i) ∷ entries (suc base) k) (omega arith))

  length-entries : (base k : ℕ) → length (entries base k) ≡ k
  unfolding entries
  length-entries base zero = refl
  length-entries base (suc k) = ap suc (length-entries base k)

  pub see-entries :
      (max base k : ℕ)
      → k < max
      → see max (segments.uri (base + k)) (entries base k) (suc (base + k)) ≡ entries base (suc k)
  unfolding see entries
  see-entries max base k lt =
      let e : ltb max (suc (length (entries base k))) ≡ false =
        ground (arith, length-entries base k) in
      rw e refl

  pub see-full :
      (base k : ℕ)
      → see k (segments.uri (base + k)) (entries base k) (suc (base + k)) ≡ entries (suc base) k
  unfolding see entries
  see-full base k =
      let e : ltb k (suc (length (entries base k))) ≡ true =
        ground (arith, length-entries base k) in
      let threshold : suc (base + k) - k ≡ suc base = omega arith in
      rw e (ap (λ t. evict t (entries base (suc k))) threshold ∙ evict-entries base k)
