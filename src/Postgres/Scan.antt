-- ===== src/Postgres/Scan.antt =====
-- Reading a row into variables: assignValues, parseBoolLiteral and simpleRows of
-- packages/go/backend/postgres/client.go.
use streamlation.Prelude.{
  ℕ, ◌+◌, ◌-◌, ◌%◌, ◌^◌, Bool, true, false, ◌||◌, Option, none, some, List, [], ◌∷◌, ltb, leb, ◌==◌,
  if◌then◌else◌, length, get_elem?,
}
use streamlation.Prelude.Int.{ℤ, pos, negsuc, signed}
use streamlation.Prelude.Text.{Bytes, text, equal, trim_space, to_lower}
use streamlation.Prelude.Decimal.{atoi}
use streamlation.Prelude.Result.{Result, ok, err, ◌>>=◌}
use streamlation.Postgres.Failure.{
  Failure, column_count_mismatch, invalid_integer, unsupported_destination, scan_out_of_sequence,
}

-- The pointer types that the switch of `assignValues` names.
pub data Dest : Type 0 where
  string bool int32 int other : Dest

pub data Value : Type 0 where
  string : Bytes → Value
  bool : Bool → Value
  int32 : ℤ → Value
  int : ℤ → Value

unfoldable pub parse_bool_literal : Bytes → Bool
parse_bool_literal value =
    let word = to_lower (trim_space value) in
    equal word (text "t")
    || equal word (text "true")
    || equal word (text "1")
    || equal word (text "y")
    || equal word (text "yes")

-- The conversion `int32(n)`.
unfoldable pub wrap_int32 : ℤ → ℤ
wrap_int32 (pos n) = signed (2 ^ 31) (n % 2 ^ 32)
wrap_int32 (negsuc n) = signed (2 ^ 31) (2 ^ 32 - 1 - n % 2 ^ 32)

as_int32 : Option ℤ → Result Failure Value
as_int32 none = err invalid_integer
as_int32 (some n) = ok (Value.int32 (wrap_int32 n))

as_int : Option ℤ → Result Failure Value
as_int none = err invalid_integer
as_int (some n) = ok (Value.int n)

-- The switch on the destination's type.
unfoldable pub assign_value : Bytes → Dest → Result Failure Value
unfolding wrap_int32 as_int32 as_int
assign_value value Dest.string = ok (Value.string value)
assign_value value Dest.bool = ok (Value.bool (parse_bool_literal value))
assign_value value Dest.int32 = as_int32 (atoi value)
assign_value value Dest.int = as_int (atoi value)
assign_value value Dest.other = err unsupported_destination

-- The loop over destinations, after the lengths have been compared.
unfoldable pub assign_each : List Bytes → List Dest → Result Failure (List Value)
unfolding assign_value
assign_each (v ∷ values) (d ∷ dest) = do
  x ← assign_value v d
  xs ← assign_each values dest
  ok (x ∷ xs)
assign_each values dest = ok []

unfoldable pub assign_values : List Bytes → List Dest → Result Failure (List Value)
unfolding assign_each
assign_values values dest =
    let assigned = assign_each values dest in
    if length values == length dest then assigned else err column_count_mismatch

-- `simpleRows`
pub record Rows : Type 0 where
  pub rows : List (List Bytes)
  pub idx : ℕ
  pub error : Option Failure

unfoldable pub next : Rows → Bool × Rows
next r = if leb (length r.rows) r.idx then (false, r) else (true, record r { idx = r.idx + 1 })

-- A row out of range does not occur: the index has been tested.
row_or_empty : Option (List Bytes) → List Bytes
row_or_empty none = []
row_or_empty (some r) = r

unfoldable pub note_error : Rows → Result Failure (List Value) → Result Failure (List Value) × Rows
note_error r (ok values) = (ok values, r)
note_error r (err e) = (err e, record r { error = some e })

unfoldable pub scan : List Dest → Rows → Result Failure (List Value) × Rows
unfolding row_or_empty note_error
scan dest r =
    if r.idx == 0 || ltb (length r.rows) r.idx
    then (err scan_out_of_sequence, r)
    else note_error r (assign_values (row_or_empty (get_elem? r.rows (r.idx - 1))) dest)
