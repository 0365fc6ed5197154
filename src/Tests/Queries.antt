-- ===== src/Tests/Queries.antt =====
-- Witnesses of the theorems on queries of packages/go/backend/postgres.
use streamlation.Prelude.{◌≡◌, ◌≢◌, refl, arith, some, none, List, [], ◌∷◌, ◌++◌, map, All}
use streamlation.Prelude.Text.{Bytes, text, lacks, lacks→Lacks}
use streamlation.Prelude.Decimal.{atoi, format_uint}
use streamlation.Prelude.Result.{ok, err}
use streamlation.Postgres.Failure.{out_of_fuel}
use streamlation.Postgres.Param.{Param, str, quote_literal, double_quotes}
use streamlation.Postgres.Query.{prepare_query, read_dollar_tag, read_quoted}
use streamlation.Postgres.Query.Template.{Piece, plain, quoted, arg, render}
use streamlation.Postgres.Query.Total.{prepare_query_total}
use streamlation.Postgres.Row.{parse_data_row}
use streamlation.Postgres.Row.RoundTrip.{
  IsField, data_row, value_of, parse_data_row-data_row, Field,
}

-- WHERE id = $1 AND kind = 'it''s', as pieces.
abbrev pieces : List Piece
pieces = plain (b'=' ∷ []) ∷ arg 0 ∷ plain (b' ' ∷ []) ∷ quoted (b'i' ∷ b'\'' ∷ b's' ∷ []) ∷ []

abbrev params : Param
params = str (b'a' ∷ b'\'' ∷ [])

abbrev filled_text : Bytes
filled_text =
    text "="
    ++ (quote_literal (b'a' ∷ b'\'' ∷ []) ++ (text " " ++ quote_literal (b'i' ∷ b'\'' ∷ b's' ∷ [])))

filled : prepare_query (render pieces) (params ∷ []) ≡ ok filled_text
unfolding render prepare_query read_dollar_tag read_quoted quote_literal double_quotes text atoi
    format_uint
filled = refl

prepare_query_total_example :
    prepare_query (b'$' ∷ b'1' ∷ b'$' ∷ []) (params ∷ []) ≢ err out_of_fuel
prepare_query_total_example = prepare_query_total (b'$' ∷ b'1' ∷ b'$' ∷ []) (params ∷ [])

parse_data_row-data_row_example :
    parse_data_row (data_row (some (b'x' ∷ []) ∷ none ∷ []) ++ (7 ∷ []))
    ≡ ok (map value_of (some (b'x' ∷ []) ∷ none ∷ []))
parse_data_row-data_row_example =
    parse_data_row-data_row (some (b'x' ∷ []) ∷ none ∷ []) (7 ∷ []) (omega arith)
      (omega arith, (tt, tt))

abbrev fields : List Field
fields = (b'S', b'E' ∷ []) ∷ (b'C', b'2' ∷ b'3' ∷ []) ∷ (b'X', b'y' ∷ []) ∷ []

fields-IsField : All IsField fields
unfolding lacks
fields-IsField = (
  (λ e. omega (arith, e), lacks→Lacks 0 (b'E' ∷ []) refl),
  (
    (λ e. omega (arith, e), lacks→Lacks 0 (b'2' ∷ b'3' ∷ []) refl),
    ((λ e. omega (arith, e), lacks→Lacks 0 (b'y' ∷ []) refl), tt),
  ),
)
