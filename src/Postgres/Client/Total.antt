-- ===== src/Postgres/Client/Total.antt =====
-- The client's loops over messages end on every input: each message takes five bytes at least.
use streamlation.Prelude.{
  ℕ, zero, suc, ◌+◌, ◌-◌, ◌^◌, ◌||◌, ◌≤◌, ◌<◌, ◌≢◌, [], ◌∷◌, ◌++◌, arith, leb, ltb, ◌==◌, inl, inr,
  Bool-cases, Option-cases, length, take, drop, length-drop,
}
use streamlation.Prelude.Text.{Bytes}
use streamlation.Prelude.Result
use streamlation.Prelude.Word.{uint16, uint32}
use streamlation.Prelude.Result.{Result, ok, err, Result-cases}
use streamlation.Net.{Conn, Io, continue, read_full}
use streamlation.Postgres.Failure.{Failure, net, out_of_fuel}
use streamlation.Postgres.Row.{parse_fields, parse_data_row}
use streamlation.Postgres.Client.{
  QueryResult, read_message, read_payload, after_header, on_query_message, query_loop,
  discard_until_ready, simple_query, apply_deadline, write_query, no_result,
}

-- An outcome from `n` bytes of input: no lack of fuel, and on success at least `k` bytes fewer.
abbrev Uses {ℓ} : {A : Type ℓ} → ℕ → ℕ → Result Failure A × Conn → Type 0
Uses n k (ok a, c) = length c.input + k ≤ n
Uses n k (err e, c) = e ≢ out_of_fuel

read_full-Uses : (n : ℕ) (c : Conn) → Uses (length c.input) n (read_full net n c)
unfolding read_full
read_full-Uses n c = elim (Bool-cases (leb n (length c.input))) [
  | inl h ↦ rw h (ground (arith, length-drop n c.input))
  | inr h ↦ rw h (λ e. cc)
]

Uses-continue {ℓ κ} :
    {A : Type ℓ} {B : Type κ} (n k j : ℕ) (r : Result Failure A × Conn) (f : A → Io Failure B)
    → Uses n k r
    → ((a : A) (c : Conn) → length c.input + k ≤ n → Uses n j (f a c))
    → Uses n j (continue r.0 f r.1)
Uses-continue n k j (ok a, c) f u step = step a c u
Uses-continue n k j (err e, c) f u step = u

Uses-weaken {ℓ} :
    {A : Type ℓ} (n m k j : ℕ) (r : Result Failure A × Conn)
    → Uses m k r
    → m + j ≤ n + k
    → Uses n j r
Uses-weaken n m k j (ok a, c) u h = omega arith
Uses-weaken n m k j (err e, c) u h = u

apply_deadline-Uses : (c : Conn) → Uses (length c.input) 0 (apply_deadline c)
unfolding apply_deadline
apply_deadline-Uses c = elim (Option-cases c.deadline_fault) [
  | inl h ↦ rw h (omega arith)
  | inr (e, h) ↦ rw h (λ p. cc)
]

read_payload-Uses : (typ n : ℕ) (c : Conn) → Uses (length c.input) 0 (read_payload typ n c)
unfolding read_payload
read_payload-Uses typ n c = elim (Bool-cases (ltb n 4)) [
  | inl h ↦ rw h (λ e. cc)
  | inr h ↦ rw h (
      Uses-continue (length c.input) (n - 4) 0 (read_full net (n - 4) c) _
        (read_full-Uses (n - 4) c) (λ a d u. omega arith))
]

after_header-Uses : (header : Bytes) (c : Conn) → Uses (length c.input) 0 (after_header header c)
unfolding after_header
after_header-Uses (typ ∷ x ∷ y ∷ z ∷ w ∷ []) c = read_payload-Uses typ _ c
after_header-Uses _ c = λ e. cc

pub read_message-Uses : (c : Conn) → Uses (length c.input) 5 (read_message c)
unfolding read_message
read_message-Uses c =
    Uses-continue (length c.input) 0 5 (apply_deadline c) _ (apply_deadline-Uses c) λ _ d u.
      Uses-continue (length c.input) 5 5 (read_full net 5 d) _
        (Uses-weaken (length c.input) (length d.input) 5 5 (read_full net 5 d) (read_full-Uses 5 d)
          (omega arith))
        λ header e v.
          Uses-weaken (length c.input) (length e.input) 0 5 (after_header header e)
            (after_header-Uses header e) (omega arith)

discard_until_ready-Uses :
    (fuel : ℕ) (c : Conn)
    → length c.input < fuel
    → Uses (length c.input) 0 (discard_until_ready fuel c)
unfolding discard_until_ready
discard_until_ready-Uses zero c h = absurd (omega arith)
discard_until_ready-Uses (suc fuel) c h =
    Uses-continue (length c.input) 5 0 (read_message c) _ (read_message-Uses c) λ m d u.
      elim (Bool-cases (m.0 == b'Z')) [
        | inl z ↦ rw z (omega arith)
        | inr z ↦ rw z (
            Uses-weaken (length c.input) (length d.input) 0 0 (discard_until_ready fuel d)
              (discard_until_ready-Uses fuel d (omega arith)) (omega arith))
      ]

abbrev Genuine {ℓ} : {A : Type ℓ} → Result Failure A → Type 0
Genuine (ok a) = Unit
Genuine (err e) = e ≢ out_of_fuel

Genuine-map {ℓ κ} :
    {A : Type ℓ} {B : Type κ} (r : Result Failure A) (f : A → B)
    → Genuine r
    → Genuine (Result.◌>>=◌ r (λ a. ok (f a)))
Genuine-map (ok a) f g = tt
Genuine-map (err e) f g = g

parse_fields-Genuine : (n : ℕ) (s : Bytes) → Genuine (parse_fields n s)
unfolding parse_fields
parse_fields-Genuine zero s = tt
parse_fields-Genuine (suc n) (a ∷ b ∷ c ∷ d ∷ s) =
    let len = uint32 a b c d in
    elim (Bool-cases (len == 2 ^ 32 - 1)) [
      | inl e ↦ rw e (Genuine-map (parse_fields n s) (λ v. [] ∷ v) (parse_fields-Genuine n s))
      | inr e ↦ rw e (elim (Bool-cases (leb (2 ^ 31) len || ltb (length s) len)) [
        | inl o ↦ rw o (λ p. cc)
        | inr o ↦ rw o (
            Genuine-map (parse_fields n (drop len s)) (λ v. take len s ∷ v)
              (parse_fields-Genuine n (drop len s)))
      ])
    ]
parse_fields-Genuine (suc n) _ = λ e. cc

parse_data_row-Genuine : (s : Bytes) → Genuine (parse_data_row s)
unfolding parse_data_row
parse_data_row-Genuine (a ∷ b ∷ s) = parse_fields-Genuine (uint16 a b) s
parse_data_row-Genuine _ = λ e. cc

lift-continue {ℓ κ} :
    {A : Type ℓ} {B : Type κ} (r : Result Failure A) (f : A → Io Failure B) (c : Conn)
    → Genuine r
    → ((a : A) → Uses (length c.input) 0 (f a c))
    → Uses (length c.input) 0 (continue r f c)
lift-continue (ok a) f c g h = h a
lift-continue (err e) f c g h = g

on_query_message-Uses :
    (next : QueryResult → Io Failure QueryResult) (discard : Io Failure (Unit {0}))
    (res : QueryResult) (m : ℕ × Bytes) (c : Conn)
    → ((r : QueryResult) → Uses (length c.input) 0 (next r c))
    → Uses (length c.input) 0 (discard c)
    → Uses (length c.input) 0 (on_query_message next discard res m c)
unfolding on_query_message
on_query_message-Uses next discard res (typ, payload) c hn hd = elim (Bool-cases (typ == b'T')) [
  | inl t ↦ rw t (hn _)
  | inr t ↦ rw t (elim (Bool-cases (typ == b'D')) [
    | inl d ↦ rw d (
        lift-continue (parse_data_row payload)
          (λ row. next (record res { rows = res.rows ++ row ∷ [] })) c
          (parse_data_row-Genuine payload) (λ row. hn _))
    | inr d ↦ rw d (elim (Bool-cases (typ == b'C')) [
      | inl t ↦ rw t (hn _)
      | inr t ↦ rw t (elim (Bool-cases (typ == b'E')) [
        | inl e ↦ rw e (Uses-continue (length c.input) 0 0 (discard c) _ hd (λ _ d' u. λ p. cc))
        | inr e ↦
            rw e (elim (Bool-cases (typ == b'Z')) [
              | inl z ↦ rw z (omega arith)
              | inr z ↦ rw z (hn res)
            ])
      ])
    ])
  ])
]

query_loop-Uses :
    (fuel : ℕ) (res : QueryResult) (c : Conn)
    → length c.input < fuel
    → Uses (length c.input) 0 (query_loop fuel res c)
unfolding query_loop
query_loop-Uses zero res c h = absurd (omega arith)
query_loop-Uses (suc fuel) res c h =
    Uses-continue (length c.input) 5 0 (read_message c) _ (read_message-Uses c) λ m d u.
      Uses-weaken (length c.input) (length d.input) 0 0
        (on_query_message (query_loop fuel) (discard_until_ready fuel) res m d)
        (on_query_message-Uses (query_loop fuel) (discard_until_ready fuel) res m d
          (λ r. query_loop-Uses fuel r d (omega arith))
          (discard_until_ready-Uses fuel d (omega arith)))
        (omega arith)

write_query-Uses : (query : Bytes) (c : Conn) → Uses (length c.input) 0 (write_query query c)
unfolding write_query
write_query-Uses query c = elim (Option-cases c.send_fault) [
  | inl h ↦ rw h (omega arith)
  | inr (e, h) ↦ rw h (λ p. cc)
]

simple_query-Uses : (query : Bytes) (c : Conn) → Uses (length c.input) 0 (simple_query query c)
unfolding simple_query
simple_query-Uses query c =
    Uses-continue (length c.input) 0 0 (apply_deadline c) _ (apply_deadline-Uses c) λ _ d u.
      Uses-weaken (length c.input) (length d.input) 0 0 _
        (Uses-continue (length d.input) 0 0 (write_query query d) _ (write_query-Uses query d)
          λ _ e v.
            Uses-weaken (length d.input) (length e.input) 0 0 _
              (query_loop-Uses (suc (length e.input)) no_result e (omega arith)) (omega arith))
        (omega arith)

Uses-genuine {ℓ} :
    {A : Type ℓ} (n k : ℕ) (r : Result Failure A × Conn) → Uses n k r → r.0 ≢ err out_of_fuel
Uses-genuine n k (ok a, c) u = λ e. cc
Uses-genuine n k (err x, c) u = λ e. ground arith

-- On every input that ends, whatever the server sends and wherever the connection breaks, the loops
-- of simpleQuery end: with a result, or with an error of the program. A server that stays silent on
-- a connection without a deadline is not such an input.
pub simple_query_total : (query : Bytes) (c : Conn) → (simple_query query c).0 ≢ err out_of_fuel
simple_query_total query c =
    Uses-genuine (length c.input) 0 (simple_query query c) (simple_query-Uses query c)
