-- ===== src/Ingestion/Hls/Seen.antt =====
-- The entries that ingestion/hls.go keeps of the segments it has seen.
use streamlation.Prelude.{
  ℕ, ◌≡◌, ◌≤◌, ◌<◌, ◌-◌, suc, arith, refl, false, Bool-cases, [], ◌∷◌, leb, ltb, inl, inr, length,
}
use streamlation.Prelude.Text.{Bytes, equal}
use streamlation.Ingestion.Hls.{Seen, is_seen, forget, evict, see}

-- The numbers fall from below `bound`.
abbrev pub Falls : ℕ → Seen → Type 0
Falls bound [] = Unit
Falls bound ((uri, number) ∷ seen) = (number < bound) × Falls number seen

abbrev pub Distinct : Seen → Type 0
Distinct [] = Unit
Distinct ((uri, number) ∷ seen) = (is_seen uri seen ≡ false) × Distinct seen

Falls-le : (low high : ℕ) (seen : Seen) → low ≤ high → Falls low seen → Falls high seen
Falls-le low high [] le h = tt
Falls-le low high ((uri, number) ∷ seen) le h = (omega (arith, h.0), h.1)

evict-Falls :
    (threshold bound : ℕ) (seen : Seen) → Falls bound seen → Falls bound (evict threshold seen)
unfolding evict
evict-Falls threshold bound [] h = tt
evict-Falls threshold bound ((uri, number) ∷ seen) h =
    let ih = evict-Falls threshold number seen h.1 in
    elim (Bool-cases (leb number threshold)) [
      | inl e ↦ rw e (Falls-le number bound (evict threshold seen) (omega (arith, h.0)) ih)
      | inr e ↦ rw e (h.0, ih)
    ]

-- The numbers above the threshold are few.
length-evict :
    (threshold bound : ℕ) (seen : Seen)
    → Falls bound seen
    → length (evict threshold seen) ≤ bound - suc threshold
unfolding evict
length-evict threshold bound [] h = omega arith
length-evict threshold bound ((uri, number) ∷ seen) h =
    let ih = length-evict threshold number seen h.1 in
    elim (Bool-cases (leb number threshold)) [
      | inl e ↦ rw e (omega (arith, h.0, ih))
      | inr e ↦
          rw e (let above : threshold < number = ground (arith, e) in omega (arith, h.0, ih, above))
    ]

evict-is_seen :
    (threshold : ℕ) (uri : Bytes) (seen : Seen)
    → is_seen uri seen ≡ false
    → is_seen uri (evict threshold seen) ≡ false
unfolding evict is_seen
evict-is_seen threshold uri [] h = refl
evict-is_seen threshold uri ((other, number) ∷ seen) h = elim (Bool-cases (equal uri other)) [
  | inl q ↦ absurd (cc (h, q))
  | inr q ↦ elim (Bool-cases (leb number threshold)) [
    | inl e ↦ rw e (evict-is_seen threshold uri seen (ground (arith, q, h)))
    | inr e ↦ rw (e, q) (evict-is_seen threshold uri seen (ground (arith, q, h)))
  ]
]

evict-Distinct : (threshold : ℕ) (seen : Seen) → Distinct seen → Distinct (evict threshold seen)
unfolding evict
evict-Distinct threshold [] h = tt
evict-Distinct threshold ((uri, number) ∷ seen) h =
    let ih = evict-Distinct threshold seen h.1 in
    elim (Bool-cases (leb number threshold)) [
      | inl e ↦ rw e ih
      | inr e ↦ rw e (evict-is_seen threshold uri seen h.0, ih)
    ]

forget-Falls :
    (uri : Bytes) (bound : ℕ) (seen : Seen) → Falls bound seen → Falls bound (forget uri seen)
unfolding forget
forget-Falls uri bound [] h = tt
forget-Falls uri bound ((other, number) ∷ seen) h =
    let ih = forget-Falls uri number seen h.1 in
    elim (Bool-cases (equal uri other)) [
      | inl e ↦ rw e (Falls-le number bound (forget uri seen) (omega (arith, h.0)) ih)
      | inr e ↦ rw e (h.0, ih)
    ]

length-forget : (uri : Bytes) (seen : Seen) → length (forget uri seen) ≤ length seen
unfolding forget
length-forget uri [] = omega arith
length-forget uri ((other, number) ∷ seen) =
    let ih = length-forget uri seen in
    elim (Bool-cases (equal uri other)) [
      | inl e ↦ rw e (omega (arith, ih))
      | inr e ↦ rw e (omega (arith, ih))
    ]

forget-is_seen :
    (gone uri : Bytes) (seen : Seen)
    → is_seen uri seen ≡ false
    → is_seen uri (forget gone seen) ≡ false
unfolding forget is_seen
forget-is_seen gone uri [] h = refl
forget-is_seen gone uri ((other, number) ∷ seen) h = elim (Bool-cases (equal uri other)) [
  | inl q ↦ absurd (cc (h, q))
  | inr q ↦ elim (Bool-cases (equal gone other)) [
    | inl e ↦ rw e (forget-is_seen gone uri seen (ground (arith, q, h)))
    | inr e ↦ rw (e, q) (forget-is_seen gone uri seen (ground (arith, q, h)))
  ]
]

forget-Distinct : (uri : Bytes) (seen : Seen) → Distinct seen → Distinct (forget uri seen)
unfolding forget
forget-Distinct uri [] h = tt
forget-Distinct uri ((other, number) ∷ seen) h =
    let ih = forget-Distinct uri seen h.1 in
    elim (Bool-cases (equal uri other)) [
      | inl e ↦ rw e ih
      | inr e ↦ rw e (forget-is_seen uri other seen h.0, ih)
    ]

-- At most `max` entries, of different segments, with falling numbers up to the counter.
pub record IsWindow (max counter : ℕ) (seen : Seen) : Type 0 where
  pub few : length seen ≤ max
  pub falls : Falls (suc counter) seen
  pub distinct : Distinct seen

pub forget-IsWindow :
    (uri : Bytes) (max counter : ℕ) (seen : Seen)
    → IsWindow max counter seen
    → IsWindow max counter (forget uri seen)
forget-IsWindow uri max counter seen h = record {
  few = omega (arith, h.few, length-forget uri seen);
  falls = forget-Falls uri (suc counter) seen h.falls;
  distinct = forget-Distinct uri seen h.distinct;
}

pub see-IsWindow :
    (uri : Bytes) (max counter : ℕ) (seen : Seen)
    → is_seen uri seen ≡ false
    → IsWindow max counter seen
    → IsWindow max (suc counter) (see max uri seen (suc counter))
unfolding see
see-IsWindow uri max counter seen unseen h =
    let inserted : Seen = (uri, suc counter) ∷ seen in
    let falls : Falls (suc (suc counter)) inserted = (omega arith, h.falls) in
    elim (Bool-cases (ltb max (length inserted))) [
      | inl e ↦ rw e (record {
        few = omega (arith, length-evict (suc counter - max) (suc (suc counter)) inserted falls);
        falls = evict-Falls (suc counter - max) (suc (suc counter)) inserted falls;
        distinct = evict-Distinct (suc counter - max) inserted (unseen, h.distinct);
      })
      | inr e ↦
          rw e (record { few = ground (arith, e); falls = falls; distinct = (unseen, h.distinct) })
    ]
