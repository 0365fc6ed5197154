-- ===== src/Postgres/Query.antt =====
-- prepareQuery and readDollarTag of packages/go/backend/postgres/client.go. The source keeps an
-- index into the query; here it is the text that the index has not passed yet.
pub mod Total
pub mod Template
pub mod Prepared
pub mod Safety
use streamlation.Prelude.{
  ℕ, zero, suc, Bool, true, false, ◌&&◌, ◌||◌, Option, none, some, List, [], ◌∷◌, ◌++◌, leb, ◌==◌,
  if◌then◌else◌, length, get_elem?,
}
use streamlation.Prelude.Int.{pos, negsuc}
use streamlation.Prelude.Text.{Bytes, strip_prefix}
use streamlation.Prelude.Decimal.{atoi, is_digit}
use streamlation.Prelude.Result.{Result, ok, err, ◌>>=◌}
use streamlation.Postgres.Failure.{Failure, invalid_placeholder, missing_parameter, out_of_fuel}
use streamlation.Postgres.Param.{Param, encode_param}

unfoldable pub is_dollar_tag_char : ℕ → Bool
is_dollar_tag_char ch =
    if leb b'0' ch && leb ch b'9'
    then true
    else if leb b'a' ch && leb ch b'z'
    then true
    else if leb b'A' ch && leb ch b'Z'
    then true
    else ch == b'_'

-- `for j < len(query) && test(query[j]) { j++ }`: what is passed over, and what is left.
unfoldable pub span : (ℕ → Bool) → Bytes → Bytes × Bytes
span test [] = ([], [])
span test (c ∷ s) = let (run, rest) = span test s in if test c then (c ∷ run, rest) else ([], c ∷ s)

-- `query[j] != '$'` behind the tag's characters.
end_tag : Bytes → Bytes → Option (Bytes × Bytes)
end_tag name [] = none
end_tag name (c ∷ s) = if c == b'$' then some (b'$' ∷ (name ++ b'$' ∷ []), s) else none

-- `readDollarTag` at a '$', which `s` follows: the whole tag, and the text behind it.
unfoldable pub read_dollar_tag : Bytes → Option (Bytes × Bytes)
unfolding span end_tag is_dollar_tag_char
read_dollar_tag s = let (name, rest) = span is_dollar_tag_char s in end_tag name rest

cons_before : ℕ → Option (Bytes × Bytes) → Option (Bytes × Bytes)
cons_before c none = none
cons_before c (some (before, after)) = some (c ∷ before, after)

-- `strings.Index`, as the text before the first occurrence and the text behind it.
unfoldable pub cut : Bytes → Bytes → Option (Bytes × Bytes)
unfolding cons_before strip_prefix
cut tag [] = elim (strip_prefix tag []) [ some rest ↦ some ([], rest) | none ↦ none ]
cut tag (c ∷ s) = elim (strip_prefix tag (c ∷ s)) [
  | some rest ↦ some ([], rest)
  | none ↦ cons_before c (cut tag s)
]

-- The inner loop at a single quote: what it copies, and what is left. The flag says that the byte
-- just passed was a quote, so that only another quote goes on with the literal.
unfoldable pub read_quoted : Bool → Bytes → Bytes × Bytes
read_quoted closing [] = ([], [])
read_quoted false (c ∷ s) = let (body, rest) = read_quoted (c == b'\'') s in (c ∷ body, rest)
read_quoted true (c ∷ s) =
    let (body, rest) = read_quoted false s in if c == b'\'' then (c ∷ body, rest) else ([], c ∷ s)

-- `args[idx-1]`, where `idx` has been read.
unfoldable pub parameter : List Param → Option Param → Result Failure Bytes
parameter args none = err missing_parameter
parameter args (some a) = encode_param a

-- `strconv.Atoi` of the digits, its error, and the test `idx <= 0 || idx > len(args)`.
substitute : List Param → Bytes → Result Failure Bytes
unfolding parameter encode_param
substitute args digits = elim (atoi digits) [
  | none ↦ err invalid_placeholder
  | some (negsuc n) ↦ err missing_parameter
  | some (pos zero) ↦ err missing_parameter
  | some (pos (suc k)) ↦ parameter args (get_elem? args k)
]

placeholder : List Param → Bytes → Bytes × Bytes → Result Failure (Bytes × Bytes)
placeholder args s ([], rest) = ok (b'$' ∷ [], s)
placeholder args s (d ∷ digits, rest) = do
  encoded ← substitute args (d ∷ digits)
  ok (encoded, rest)

dollar_quoted : Bytes → Option (Bytes × Bytes) → Bytes → Bytes × Bytes
dollar_quoted tag none body = (tag ++ body, [])
dollar_quoted tag (some (inner, rest)) body = (tag ++ (inner ++ tag), rest)

dollar : List Param → Bytes → Option (Bytes × Bytes) → Result Failure (Bytes × Bytes)
dollar args s none = placeholder args s (span is_digit s)
dollar args s (some (tag, body)) = ok (dollar_quoted tag (cut tag body) body)

-- One round of the outer loop, at byte `ch`, which `s` follows: what is written, and what is left.
unfoldable pub prepare_step : List Param → ℕ → Bytes → Result Failure (Bytes × Bytes)
unfolding dollar dollar_quoted placeholder substitute
prepare_step args ch s =
    let (body, rest) = read_quoted false s in
    if ch == b'\''
    then ok (ch ∷ body, rest)
    else if ch == b'$'
    then dollar args s (read_dollar_tag s)
    else ok (ch ∷ [], s)

-- The outer loop, with the builder's text so far.
unfoldable pub prepare_loop : ℕ → List Param → Bytes → Bytes → Result Failure Bytes
prepare_loop fuel args [] b = ok b
prepare_loop zero args (ch ∷ s) b = err out_of_fuel
prepare_loop (suc fuel) args (ch ∷ s) b = elim (prepare_step args ch s) [
  | err e ↦ err e
  | ok (written, rest) ↦ prepare_loop fuel args rest (b ++ written)
]

-- Each round reads a byte at least, so there are at most as many rounds as bytes.
unfoldable pub prepare_query : Bytes → List Param → Result Failure Bytes
unfolding prepare_loop prepare_step
prepare_query query [] = ok query
prepare_query query (a ∷ args) = prepare_loop (length query) (a ∷ args) query []
