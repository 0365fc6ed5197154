-- ===== src/Prelude/Loop.antt =====
-- Go's `for` loops with early returns: a round goes on or halts, and rounds are counted by fuel.
use Prim.Native.Nat.{ℕ, zero, suc, ◌<◌}
use mathlib.Core.Path.{◌≡◌, refl}
use mathlib.Core.Option.{Option, none, some}
use native.Mathlib.Omega.{arith}

pub data Round {ℓ} (S : Type ℓ) : Type ℓ where
  again : S → Round S
  halt : S → Round S

module _ {ℓ} {S : Type ℓ} where
  abbrev pub after : (S → Option S) → Round S → Option S
  after rest (again s) = rest s
  after rest (halt s) = some s

  abbrev pub behind : (S → S) → Round S → S
  behind rest (again s) = rest s
  behind rest (halt s) = s

  -- `none` when the fuel is used up.
  abbrev pub loop : (S → Round S) → ℕ → S → Option S
  loop round zero s = none
  loop round (suc n) s = after (loop round n) (round s)

  -- Where a loop is behind `n` rounds, or behind the round in which it has halted.
  abbrev pub rounds : (S → Round S) → ℕ → S → S
  rounds round zero s = s
  rounds round (suc n) s = behind (rounds round n) (round s)

module _ {ℓ κ} {S : Type ℓ} (P Q : S → Type κ) (measure : S → ℕ) where
  -- A round keeps `P` and makes the measure smaller than `m`, or it halts where `Q` holds.
  abbrev pub Progress : ℕ → Round S → Type κ
  Progress m (again s) = P s × (measure s < m)
  Progress m (halt s) = Q s

  after-ends :
      (rest : S → Option S) (n m : ℕ)
      → m < suc n
      → ((s : S) → P s → measure s < n → (t : S) × (rest s ≡ some t) × Q t)
      → (r : Round S) → Progress m r
      → (t : S) × (after rest r ≡ some t) × Q t
  after-ends rest n m h ends (again s) (p, lt) = ends s p (omega arith)
  after-ends rest n m h ends (halt s) q = (s, refl, q)

  module _ (round : S → Round S) (progress : (s : S) → P s → Progress (measure s) (round s)) where
    -- A loop whose rounds make progress ends with fuel above the measure, where `Q` holds.
    pub loop-ends :
        (n : ℕ) (s : S) → P s → measure s < n → (t : S) × (loop round n s ≡ some t) × Q t
    loop-ends zero s p h = absurd (omega arith)
    loop-ends (suc n) s p h =
        after-ends (loop round n) n (measure s) h (loop-ends n) (round s) (progress s p)

module _ {ℓ κ} {S : Type ℓ} (P : S → Type κ) where
  -- `P` holds if the loop goes on.
  abbrev pub GoesOn : Round S → Type κ
  GoesOn (again s) = P s
  GoesOn (halt s) = Unit

  -- Both outcomes of a round.
  abbrev pub Keeps : Round S → Type κ
  Keeps (again s) = P s
  Keeps (halt s) = P s

  behind-Keeps :
      (rest : S → S) → ((s : S) → P s → P (rest s)) → (r : Round S) → Keeps r → P (behind rest r)
  behind-Keeps rest h (again s) p = h s p
  behind-Keeps rest h (halt s) p = p

  pub rounds-Keeps :
      (round : S → Round S)
      → ((s : S) → P s → Keeps (round s))
      → (n : ℕ) (s : S) → P s
      → P (rounds round n s)
  rounds-Keeps round keeps zero s p = p
  rounds-Keeps round keeps (suc n) s p =
      behind-Keeps (rounds round n) (rounds-Keeps round keeps n) (round s) (keeps s p)
