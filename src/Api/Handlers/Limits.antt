-- ===== src/Api/Handlers/Limits.antt =====
-- The limit of a listing in apps/api/cmd/server/session.go.
use streamlation.Prelude.{
  ℕ, ◌≡◌, ◌≢◌, ◌≤◌, ◌||◌, inl, inr, false, Option, none, some, [], ◌∷◌, arith, leb, ltb, Bool-cases,
  if◌then◌else◌, refl,
}
use streamlation.Prelude.Int.{pos, negsuc}
use streamlation.Prelude.Text.{Bytes}
use streamlation.Prelude.Decimal.{atoi, format_uint, format_uint-ne_nil, atoi-format_uint}
use streamlation.Api.Handlers.{limit_of}

abbrev pub Bounded : Option ℕ → Type 0
Bounded none = Unit
Bounded (some n) = (1 ≤ n) × (n ≤ 100)

within_bounds : (n : ℕ) → Bounded (if leb n 0 || ltb 100 n then none else some n)
within_bounds n = elim (Bool-cases (leb n 0 || ltb 100 n)) [
  | inl h ↦ rw h tt
  | inr h ↦ rw h (ground arith, ground arith)
]

-- The limit of a listing is never out of 1 to 100, whatever the parameter.
pub limit_of-Bounded : (s : Bytes) → Bounded (limit_of s)
unfolding limit_of
limit_of-Bounded [] = (omega arith, omega arith)
limit_of-Bounded (c ∷ s) =
    elim (atoi (c ∷ s))
      as (λ r. Bounded (elim r [
        | none ↦ none
        | some (negsuc n) ↦ none
        | some (pos n) ↦ if leb n 0 || ltb 100 n then none else some n
      ])) [ none ↦ tt | some (negsuc n) ↦ tt | some (pos n) ↦ within_bounds n ]

limit_of-atoi :
    (s : Bytes) (n : ℕ)
    → s ≢ []
    → atoi s ≡ some (pos n)
    → limit_of s ≡ (if leb n 0 || ltb 100 n then none else some n)
unfolding limit_of
limit_of-atoi [] n h k = absurd (h refl)
limit_of-atoi (c ∷ s) n h k = rw (limit_of, k)

-- Each limit from 1 to 100 can be asked for in decimal.
pub limit_of-format_uint : (n : ℕ) → 1 ≤ n → n ≤ 100 → limit_of (format_uint n) ≡ some n
limit_of-format_uint n h k =
    let e : (leb n 0 || ltb 100 n) ≡ false = ground arith in
    rw
      (limit_of-atoi (format_uint n) n (format_uint-ne_nil n) (atoi-format_uint n (omega arith)), e)
