-- ===== src/Postgres/Row.antt =====
-- The payloads that the server sends, as packages/go/backend/postgres/client.go reads them:
-- parseRowDescription, parseDataRow, parseCommandComplete, parseErrorResponse,
-- handleAuthentication.
pub mod RoundTrip
use streamlation.Prelude.{
  ℕ, zero, suc, ◌+◌, ◌-◌, ◌^◌, Bool, true, false, ◌||◌, List, [], ◌∷◌, ◌++◌, ltb, leb, ◌==◌,
  if◌then◌else◌, length, take, drop,
}
use streamlation.Prelude.Text.{Bytes}
use streamlation.Prelude.Word.{uint16, uint32}
use streamlation.Prelude.Result.{Result, ok, err, ◌>>=◌}
use streamlation.Postgres.Failure.{
  Failure, ServerError, invalid_authentication, unsupported_authentication, invalid_data_row,
  malformed_data_row, malformed_data_row_length,
}

unfoldable pub parse_row_description : Bytes → ℕ
parse_row_description (a ∷ b ∷ s) = uint16 a b
parse_row_description s = 0

-- The rounds of the loop that are left, and the payload from `idx` on. An int32 below 0 is a
-- pattern of 2^31 or more, and -1 is the last one.
unfoldable pub parse_fields : ℕ → Bytes → Result Failure (List Bytes)
parse_fields zero s = ok []
parse_fields (suc n) (a ∷ b ∷ c ∷ d ∷ s) =
    let len = uint32 a b c d in
    let null_rest = parse_fields n s in
    let rest = parse_fields n (drop len s) in
    if len == 2 ^ 32 - 1
    then (null_rest >>= λ values. ok ([] ∷ values))
    else if leb (2 ^ 31) len || ltb (length s) len
    then err malformed_data_row_length
    else rest >>= λ values. ok (take len s ∷ values)
parse_fields (suc n) s = err malformed_data_row

unfoldable pub parse_data_row : Bytes → Result Failure (List Bytes)
unfolding parse_fields
parse_data_row (a ∷ b ∷ s) = parse_fields (uint16 a b) s
parse_data_row s = err invalid_data_row

before_zeros : ℕ → Bytes → Bytes
before_zeros c [] = if c == 0 then [] else c ∷ []
before_zeros c (d ∷ rest) = c ∷ d ∷ rest

-- `strings.TrimRight(s, "\x00")`
unfoldable pub trim_zeros : Bytes → Bytes
unfolding before_zeros
trim_zeros [] = []
trim_zeros (c ∷ s) = before_zeros c (trim_zeros s)

unfoldable pub parse_command_complete : Bytes → Bytes
unfolding trim_zeros
parse_command_complete s = trim_zeros s

-- The bytes before the first 0, or all of them, and those behind it.
unfoldable pub read_cstring : Bytes → Bytes × Bytes
read_cstring [] = ([], [])
read_cstring (c ∷ s) =
    let (value, rest) = read_cstring s in if c == 0 then ([], s) else (c ∷ value, rest)

-- The switch on the field's type.
unfoldable pub set_field : ServerError → ℕ → Bytes → ServerError
set_field e field value =
    if field == b'S'
    then record e { severity = value }
    else if field == b'C'
    then record e { code = value }
    else if field == b'M'
    then record e { message = value }
    else e

-- The loop over the fields, from `idx` on.
unfoldable pub parse_error_fields : ℕ → Bytes → ServerError → ServerError
parse_error_fields fuel [] e = e
parse_error_fields zero (field ∷ s) e = e
parse_error_fields (suc fuel) (field ∷ s) e =
    let (value, rest) = read_cstring s in
    let later = parse_error_fields fuel rest (set_field e field value) in
    if field == 0 then e else later

unfoldable pub parse_error_response : Bytes → ServerError
unfolding parse_error_fields set_field read_cstring
parse_error_response payload =
    parse_error_fields (length payload) payload (record { severity = []; code = []; message = [] })

unfoldable pub handle_authentication : Bytes → Result Failure (Unit {0})
handle_authentication (a ∷ b ∷ c ∷ d ∷ s) =
    let auth_type = uint32 a b c d in
    if auth_type == 0 then ok tt else err (unsupported_authentication auth_type)
handle_authentication s = err invalid_authentication
