-- ===== src/Postgres/Query/Total.antt =====
-- The loop of prepareQuery reads a byte at least in each round, so its fuel is enough.
use streamlation.Prelude.{
  ℕ, zero, suc, ◌≤◌, ◌≢◌, Bool, true, false, Option, none, some, List, [], ◌∷◌, ◌++◌, arith, ◌==◌,
  inl, inr, Bool-cases, length, get_elem?,
}
use streamlation.Prelude.Int.{ℤ, pos, negsuc}
use streamlation.Prelude.Text.{Bytes, strip_prefix}
use streamlation.Prelude.Decimal.{atoi, is_digit}
use streamlation.Prelude.Result.{Result, ok, err}
use streamlation.Postgres.Failure.{Failure, out_of_fuel}
use streamlation.Postgres.Param.{Param, bool, encode_param}
use streamlation.Postgres.Query.{
  span, end_tag, read_dollar_tag, cons_before, cut, read_quoted, parameter, substitute, placeholder,
  dollar_quoted, dollar, prepare_step, prepare_loop, prepare_query, is_dollar_tag_char,
}

span-le : (test : ℕ → Bool) (s : Bytes) → length (span test s).1 ≤ length s
unfolding span
span-le test [] = omega arith
span-le test (c ∷ s) = ground (arith, span-le test s)

read_quoted-le : (closing : Bool) (s : Bytes) → length (read_quoted closing s).1 ≤ length s
unfolding read_quoted
read_quoted-le closing [] = omega arith
read_quoted-le false (c ∷ s) = ground (arith, read_quoted-le (c == b'\'') s)
read_quoted-le true (c ∷ s) = ground (arith, read_quoted-le false s)

abbrev RestLe : Bytes → Option (Bytes × Bytes) → Type 0
RestLe s none = Unit
RestLe s (some (piece, rest)) = length rest ≤ length s

end_tag-RestLe : (name s : Bytes) → RestLe s (end_tag name s)
unfolding end_tag
end_tag-RestLe name [] = tt
end_tag-RestLe name (c ∷ s) = ground arith

abbrev Le : Bytes → Option Bytes → Type 0
Le s none = Unit
Le s (some rest) = length rest ≤ length s

strip_prefix-Le : (p s : Bytes) → Le s (strip_prefix p s)
unfolding strip_prefix
strip_prefix-Le [] s = omega arith
strip_prefix-Le (c ∷ p) [] = tt
strip_prefix-Le (c ∷ p) (d ∷ s) = elim (Bool-cases (c == d)) [
  | inl e ↦ rw e (widen (strip_prefix p s) (strip_prefix-Le p s))
  | inr e ↦ rw e tt
]
  where
    widen : (o : Option Bytes) → Le s o → Le (d ∷ s) o
    widen none h = tt
    widen (some rest) h = omega arith

RestLe-weaken :
    (s t : Bytes) (o : Option (Bytes × Bytes)) → RestLe s o → length s ≤ length t → RestLe t o
RestLe-weaken s t none h k = tt
RestLe-weaken s t (some (piece, rest)) h k = omega arith

cons_before-RestLe :
    (s : Bytes) (c : ℕ) (o : Option (Bytes × Bytes)) → RestLe s o → RestLe (c ∷ s) (cons_before c o)
unfolding cons_before
cons_before-RestLe s c none h = tt
cons_before-RestLe s c (some (before, after)) h = omega arith

cut-RestLe : (tag s : Bytes) → RestLe s (cut tag s)
unfolding cut
cut-RestLe tag [] = from (strip_prefix tag []) (strip_prefix-Le tag [])
  where
    from :
        (o : Option Bytes)
        → Le [] o
        → RestLe [] (elim o [ some rest ↦ some ([], rest) | none ↦ none ])
    from none h = tt
    from (some rest) h = h
cut-RestLe tag (c ∷ s) =
    from (strip_prefix tag (c ∷ s)) (strip_prefix-Le tag (c ∷ s)) (cut-RestLe tag s)
  where
    from :
        (o : Option Bytes)
        → Le (c ∷ s) o
        → RestLe s (cut tag s)
        → RestLe (c ∷ s) (elim o [ some rest ↦ some ([], rest) | none ↦ cons_before c (cut tag s) ])
    from none h ih = cons_before-RestLe s c (cut tag s) ih
    from (some rest) h ih = h

-- A round leaves no more than `s`, and no error that it returns is the model's own.
abbrev pub Shrinks : Bytes → Result Failure (Bytes × Bytes) → Type 0
Shrinks s (ok (written, rest)) = length rest ≤ length s
Shrinks s (err e) = e ≢ out_of_fuel

abbrev Genuine : Result Failure Bytes → Type 0
Genuine (ok b) = Unit
Genuine (err e) = e ≢ out_of_fuel

encode_param-Genuine : (a : Param) → Genuine (encode_param a)
unfolding encode_param
encode_param-Genuine (bool true) = tt
encode_param-Genuine (bool false) = tt
encode_param-Genuine a = ground arith

parameter-Genuine : (args : List Param) (o : Option Param) → Genuine (parameter args o)
unfolding parameter
parameter-Genuine args none = λ e. cc
parameter-Genuine args (some a) = encode_param-Genuine a

substitute-Genuine : (args : List Param) (digits : Bytes) → Genuine (substitute args digits)
unfolding substitute
substitute-Genuine args digits = from (atoi digits)
  where
    from :
        (o : Option ℤ)
        → Genuine (elim o [
          | none ↦ err Failure.invalid_placeholder
          | some (negsuc n) ↦ err Failure.missing_parameter
          | some (pos zero) ↦ err Failure.missing_parameter
          | some (pos (suc k)) ↦ parameter args (get_elem? args k)
        ])
    from none = λ e. cc
    from (some (negsuc n)) = λ e. cc
    from (some (pos zero)) = λ e. cc
    from (some (pos (suc k))) = parameter-Genuine args (get_elem? args k)

placeholder-Shrinks :
    (args : List Param) (s run rest : Bytes)
    → length rest ≤ length s
    → Shrinks s (placeholder args s (run, rest))
unfolding placeholder
placeholder-Shrinks args s [] rest h = omega arith
placeholder-Shrinks args s (d ∷ digits) rest h =
    ground (arith, substitute-Genuine args (d ∷ digits))

dollar_quoted-le :
    (tag : Bytes) (o : Option (Bytes × Bytes)) (body : Bytes)
    → RestLe body o
    → length (dollar_quoted tag o body).1 ≤ length body
unfolding dollar_quoted
dollar_quoted-le tag none body h = omega arith
dollar_quoted-le tag (some (inner, rest)) body h = h

dollar-Shrinks :
    (args : List Param) (s : Bytes) (o : Option (Bytes × Bytes))
    → RestLe s o
    → Shrinks s (dollar args s o)
unfolding dollar
dollar-Shrinks args s none h =
    placeholder-Shrinks args s (span is_digit s).0 (span is_digit s).1 (span-le is_digit s)
dollar-Shrinks args s (some (tag, body)) h =
    omega (arith, dollar_quoted-le tag (cut tag body) body (cut-RestLe tag body))

read_dollar_tag-RestLe : (s : Bytes) → RestLe s (read_dollar_tag s)
unfolding read_dollar_tag
read_dollar_tag-RestLe s =
    RestLe-weaken (span is_dollar_tag_char s).1 s _
      (end_tag-RestLe (span is_dollar_tag_char s).0 (span is_dollar_tag_char s).1)
      (span-le is_dollar_tag_char s)

pub prepare_step-Shrinks :
    (args : List Param) (ch : ℕ) (s : Bytes) → Shrinks s (prepare_step args ch s)
unfolding prepare_step
prepare_step-Shrinks args ch s = elim (Bool-cases (ch == b'\'')) [
  | inl e ↦ rw e (read_quoted-le false s)
  | inr e ↦ rw e (elim (Bool-cases (ch == b'$')) [
    | inl d ↦ rw d (dollar-Shrinks args s (read_dollar_tag s) (read_dollar_tag-RestLe s))
    | inr d ↦ rw d (omega arith)
  ])
]

prepare_loop-Genuine :
    (fuel : ℕ) (args : List Param) (s b : Bytes)
    → length s ≤ fuel
    → Genuine (prepare_loop fuel args s b)
unfolding prepare_loop
prepare_loop-Genuine fuel args [] b h = tt
prepare_loop-Genuine zero args (ch ∷ s) b h = absurd (omega arith)
prepare_loop-Genuine (suc fuel) args (ch ∷ s) b h =
    from (prepare_step args ch s) (prepare_step-Shrinks args ch s) (prepare_loop-Genuine fuel args)
  where
    from :
        (r : Result Failure (Bytes × Bytes))
        → Shrinks s r
        → ((t c : Bytes) → length t ≤ fuel → Genuine (prepare_loop fuel args t c))
        → Genuine (elim r [
          | err e ↦ err e
          | ok (written, rest) ↦ prepare_loop fuel args rest (b ++ written)
        ])
    from (err e) shrinks ih = shrinks
    from (ok (written, rest)) shrinks ih = ih rest (b ++ written) (omega arith)

-- For every query and every list of parameters the loop of prepareQuery ends by itself: the result
-- is a text or one of the errors that the source returns, and never the model's lack of fuel.
pub prepare_query_total :
    (query : Bytes) (args : List Param) → prepare_query query args ≢ err out_of_fuel
unfolding prepare_query
prepare_query_total query [] = λ e. cc
prepare_query_total query (a ∷ args) =
    from _ (prepare_loop-Genuine (length query) (a ∷ args) query [] (omega arith))
  where
    from : (r : Result Failure Bytes) → Genuine r → r ≢ err out_of_fuel
    from (ok b) g = λ e. cc
    from (err x) g = λ e. ground arith
