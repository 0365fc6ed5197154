-- ===== src/Postgres/Row/RoundTrip.antt =====
-- The parsers of Row against writers of the same payloads, written from the protocol's description.
use streamlation.Prelude.{
  if◌then◌else◌, Bool-cases, inl, inr, ℕ, zero, suc, ◌-◌, ◌^◌, ◌≤◌, ◌<◌, ◌≡◌, ◌≢◌, refl, ap, ◌∙◌,
  false, ◌||◌, Option, none, some, List, [], ◌∷◌, ◌++◌, map, arith, ltb, leb, ◌==◌, length,
  length-append, take-length_append, drop-length_append, append_assoc, All,
}
use streamlation.Prelude.Text.{Bytes, Lacks}
use streamlation.Prelude.Word.{put_uint16, put_uint32, uint16-put_uint16, uint32-put_uint32, uint32}
use streamlation.Prelude.Result.{ok, ◌>>=◌}
use streamlation.Postgres.Failure.{ServerError}
use streamlation.Postgres.Row.{
  parse_fields, parse_data_row, read_cstring, set_field, parse_error_fields, parse_error_response,
}

-- A column of a row: NULL, or a value behind its length.
unfoldable pub column : Option Bytes → Bytes
column none = put_uint32 (2 ^ 32 - 1)
column (some v) = put_uint32 (length v) ++ v

unfoldable pub columns : List (Option Bytes) → Bytes
unfolding column
columns [] = []
columns (f ∷ fs) = column f ++ columns fs

unfoldable pub data_row : List (Option Bytes) → Bytes
unfolding columns put_uint16 put_uint32
data_row fs = put_uint16 (length fs) ++ columns fs

abbrev pub value_of : Option Bytes → Bytes
value_of none = []
value_of (some v) = v

abbrev pub Fits : Option Bytes → Type 0
Fits none = Unit
Fits (some v) = length v < 2 ^ 31

in_reach :
    (v rest : Bytes)
    → length v < 2 ^ 31
    → (leb (2 ^ 31) (length v) || ltb (length (v ++ rest)) (length v)) ≡ false
in_reach v rest h = ground (arith, length-append v rest)

not_null : (n : ℕ) → n < 2 ^ 31 → (n == 2 ^ 32 - 1) ≡ false
not_null n h = ground arith

parse_fields-some :
    (n : ℕ) (v rest : Bytes)
    → length v < 2 ^ 31
    → parse_fields (suc n) (put_uint32 (length v) ++ (v ++ rest))
      ≡ (parse_fields n rest >>= λ values. ok (v ∷ values))
unfolding parse_fields put_uint32
parse_fields-some n v rest h = rw (
  uint32-put_uint32 (length v) (omega arith),
  not_null (length v) h,
  in_reach v rest h,
  take-length_append v rest,
  drop-length_append v rest,
)

parse_fields-none :
    (n : ℕ) (rest : Bytes)
    → parse_fields (suc n) (put_uint32 (2 ^ 32 - 1) ++ rest)
      ≡ (parse_fields n rest >>= λ values. ok ([] ∷ values))
unfolding parse_fields put_uint32 uint32
parse_fields-none n rest = refl

parse_fields-columns :
    (fs : List (Option Bytes)) (trailing : Bytes)
    → All Fits fs
    → parse_fields (length fs) (columns fs ++ trailing) ≡ ok (map value_of fs)
unfolding columns
parse_fields-columns [] trailing h = unfold parse_fields in refl
parse_fields-columns (none ∷ fs) trailing h =
    ap (parse_fields (suc (length fs)))
      (append_assoc (put_uint32 (2 ^ 32 - 1)) (columns fs) trailing)
    ∙ parse_fields-none (length fs) (columns fs ++ trailing)
    ∙ rw (parse_fields-columns fs trailing h.1)
parse_fields-columns (some v ∷ fs) trailing h =
    ap (parse_fields (suc (length fs))) (
      append_assoc (put_uint32 (length v) ++ v) (columns fs) trailing
      ∙ append_assoc (put_uint32 (length v)) v (columns fs ++ trailing))
    ∙ parse_fields-some (length fs) v (columns fs ++ trailing) h.0
    ∙ rw (parse_fields-columns fs trailing h.1)

-- parseDataRow reads back every row that the protocol can carry: fewer than 2^16 columns, each NULL
-- or shorter than 2^31 bytes. NULL comes back as the empty text, and what follows the last column
-- is passed over.
pub parse_data_row-data_row :
    (fs : List (Option Bytes)) (trailing : Bytes)
    → length fs < 2 ^ 16
    → All Fits fs
    → parse_data_row (data_row fs ++ trailing) ≡ ok (map value_of fs)
unfolding parse_data_row data_row
parse_data_row-data_row fs trailing n h =
    rw (uint16-put_uint16 (length fs) n) (parse_fields-columns fs trailing h)

-- A field of an error response.
abbrev pub Field : Type 0
Field = ℕ × Bytes

unfoldable pub error_fields : List Field → Bytes
error_fields [] = 0 ∷ []
error_fields ((field, value) ∷ fs) = field ∷ (value ++ 0 ∷ error_fields fs)

unfoldable pub apply_fields : List Field → ServerError → ServerError
apply_fields [] e = e
apply_fields ((field, value) ∷ fs) e = apply_fields fs (set_field e field value)

-- The value of the last field of a type, or `default` if there is none.
abbrev pub last_value : ℕ → Bytes → List Field → Bytes
last_value type default [] = default
last_value type default ((field, value) ∷ fs) =
    last_value type (if field == type then value else default) fs

set_field-if :
    (e : ServerError) (field : ℕ) (value : Bytes)
    → set_field e field value ≡ record {
      severity = if field == b'S' then value else e.severity;
      code = if field == b'C' then value else e.code;
      message = if field == b'M' then value else e.message;
    }
unfolding set_field
set_field-if e field value = elim (Bool-cases (field == b'S')) [
  | inl s ↦
      let not_c : (field == b'C') ≡ false = ground (arith, s) in
      let not_m : (field == b'M') ≡ false = ground (arith, s) in rw (s, not_c, not_m) refl
  | inr s ↦ elim (Bool-cases (field == b'C')) [
    | inl c ↦ let not_m : (field == b'M') ≡ false = ground (arith, c) in rw (s, c, not_m) refl
    | inr c ↦ elim (Bool-cases (field == b'M')) [
      | inl m ↦ rw (s, c, m) refl
      | inr m ↦ rw (s, c, m) refl
    ]
  ]
]

-- What the fields make of an error: the last severity S, code C and message M.
pub apply_fields-last_value :
    (fs : List Field) (e : ServerError)
    → apply_fields fs e ≡ record {
      severity = last_value b'S' e.severity fs;
      code = last_value b'C' e.code fs;
      message = last_value b'M' e.message fs;
    }
unfolding apply_fields
apply_fields-last_value [] e = refl
apply_fields-last_value ((field, value) ∷ fs) e =
    ap (apply_fields fs) (set_field-if e field value) ∙ apply_fields-last_value fs _

abbrev pub IsField : Field → Type 0
IsField (field, value) = (field ≢ 0) × Lacks 0 value

pub read_cstring-append : (v rest : Bytes) → Lacks 0 v → read_cstring (v ++ 0 ∷ rest) ≡ (v, rest)
unfolding read_cstring
read_cstring-append [] rest h = refl
read_cstring-append (c ∷ v) rest h =
    let e : (c == 0) ≡ false = ground (arith, h.0) in rw (e, read_cstring-append v rest h.1)

parse_error_fields-error_fields :
    (fs : List Field) (fuel : ℕ) (e : ServerError)
    → All IsField fs
    → length (error_fields fs) ≤ fuel
    → parse_error_fields fuel (error_fields fs) e ≡ apply_fields fs e
unfolding error_fields apply_fields parse_error_fields
parse_error_fields-error_fields fs zero e h n = absurd (empty fs n)
  where
    empty : (fs : List Field) → length (error_fields fs) ≤ 0 → ⊥
    empty [] n = omega arith
    empty ((field, value) ∷ fs) n = omega arith
parse_error_fields-error_fields [] (suc fuel) e h n = refl
parse_error_fields-error_fields ((field, value) ∷ fs) (suc fuel) e h n =
    step
    ∙ parse_error_fields-error_fields fs fuel (set_field e field value) h.1
        (omega (arith, length-append value (0 ∷ error_fields fs)))
  where
    step :
        parse_error_fields (suc fuel) (field ∷ (value ++ 0 ∷ error_fields fs)) e
        ≡ parse_error_fields fuel (error_fields fs) (set_field e field value)
    step =
        let nonzero : (field == 0) ≡ false = ground (arith, h.0.0) in
        rw (nonzero, read_cstring-append value (error_fields fs) h.0.1, parse_error_fields)

-- parseErrorResponse reads every field that the server wrote, in the server's order: a later field
-- of a type takes the place of an earlier one, and types other than S, C and M are passed over. No
-- type is zero, and no value holds a zero byte.
pub parse_error_response-error_fields :
    (fs : List Field)
    → All IsField fs
    → parse_error_response (error_fields fs)
      ≡ apply_fields fs (record { severity = []; code = []; message = [] })
unfolding parse_error_response
parse_error_response-error_fields fs h =
    parse_error_fields-error_fields fs (length (error_fields fs)) _ h (omega arith)
