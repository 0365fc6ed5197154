-- ===== src/Postgres/Connect/Usable.antt =====
-- What parseConfig of packages/go/backend/postgres/client.go accepts.
use mathlib.Core.Path.{subst}
use streamlation.Prelude.{◌≡◌, ◌≢◌, ◌⊎◌, true, ◌||◌, [], ◌∷◌, arith, Bool-cases, inl, inr}
use streamlation.Prelude.Text.{Bytes, text, equal, equal_iff}
use streamlation.Prelude.Result.{Result, ok, err}
use streamlation.Postgres.Failure.{Failure}
use streamlation.Postgres.Connect.{Url, Config, or_default, config_of}

-- The configuration has a user and a database, for a URL of PostgreSQL that asks for no encryption.
abbrev pub IsUsable : Url → Config → Type 0
IsUsable u cfg =
    (cfg.user ≢ [])
    × (cfg.database ≢ [])
    × ((u.scheme ≡ text "postgres") ⊎ (u.scheme ≡ text "postgresql"))
    × ((u.sslmode ≡ []) ⊎ (u.sslmode ≡ text "disable"))

abbrev Accepts : Url → Result Failure Config → Type 0
Accepts u (ok cfg) = IsUsable u cfg
Accepts u (err e) = Unit

or_default-ne_nil : (s default : Bytes) → default ≢ [] → or_default s default ≢ []
unfolding or_default
or_default-ne_nil [] default h = h
or_default-ne_nil (c ∷ s) default h = λ e. cc

one_of : (s t u : Bytes) → (equal s t || equal s u) ≡ true → (s ≡ t) ⊎ (s ≡ u)
one_of s t u h = elim (Bool-cases (equal s t)) [
  | inl e ↦ inl ((equal_iff s t).0 e)
  | inr e ↦ let f : equal s u ≡ true = ground (arith, h, e) in inr ((equal_iff s u).0 f)
]

config_of-Accepts : (u : Url) → Accepts u (config_of u)
unfolding config_of
config_of-Accepts u =
    elim (Bool-cases (equal u.scheme (text "postgres") || equal u.scheme (text "postgresql"))) [
      | inr h ↦ rw h tt
      | inl h ↦ rw h (elim (Bool-cases (equal u.sslmode [] || equal u.sslmode (text "disable"))) [
        | inr k ↦ rw k tt
        | inl k ↦
            let user = or_default-ne_nil u.username (text "postgres") (λ e. cc) in
            rw k (
              user,
              or_default-ne_nil _ _ user,
              one_of u.scheme (text "postgres") (text "postgresql") h,
              one_of u.sslmode [] (text "disable") k,
            )
      ])
    ]

-- A URL whose configuration is accepted has the scheme postgres or postgresql and no sslmode but
-- `disable`, and its configuration has a user and a database, given or by default.
pub config_of-IsUsable : (u : Url) (cfg : Config) → config_of u ≡ ok cfg → IsUsable u cfg
config_of-IsUsable u cfg h = subst (Accepts u) h (config_of-Accepts u)
