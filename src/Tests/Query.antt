-- ===== src/Tests/Query.antt =====
-- Tests and witnesses for packages/go/backend/postgres: the inputs of client_test.go among them.
use streamlation.Prelude.{◌≡◌, refl, [], ◌∷◌}
use streamlation.Prelude.Text.{text}
use streamlation.Prelude.Result.{ok, err}
use streamlation.Postgres.Failure.{missing_parameter}
use streamlation.Postgres.Param.{str, quote_literal, double_quotes}
use streamlation.Postgres.Query.{prepare_query, read_dollar_tag, cut, read_quoted}
use streamlation.Prelude.Decimal.{atoi}

simple_substitution :
    prepare_query (text "SELECT $1") (str (text "value") ∷ []) ≡ ok (text "SELECT 'value'")
unfolding prepare_query read_dollar_tag read_quoted quote_literal double_quotes text atoi
simple_substitution = refl

quoted_literal :
    prepare_query (text "SELECT '$1', $1") (str (text "value") ∷ [])
    ≡ ok (text "SELECT '$1', 'value'")
unfolding prepare_query read_dollar_tag read_quoted quote_literal double_quotes text atoi
quoted_literal = refl

dollar_quoted_literal :
    prepare_query (text "SELECT $$literal $2$$, $1") (str (text "value") ∷ [])
    ≡ ok (text "SELECT $$literal $2$$, 'value'")
unfolding prepare_query read_dollar_tag read_quoted cut quote_literal double_quotes text atoi
dollar_quoted_literal = refl

missing : prepare_query (text "SELECT $2") (str (text "value") ∷ []) ≡ err missing_parameter
unfolding prepare_query read_dollar_tag read_quoted cut quote_literal double_quotes text atoi
missing = refl
