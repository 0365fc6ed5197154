-- ===== src/Postgres/Param.antt =====
-- encodeParam of packages/go/backend/postgres/client.go, and SQL text as a server's lexer reads it.
pub mod Lexer
pub mod Literal
use streamlation.Prelude.{ℕ, Bool, true, false, String, List, [], ◌∷◌, ◌++◌, ◌==◌, if◌then◌else◌}
use streamlation.Prelude.Int.{ℤ}
use streamlation.Prelude.Text.{Bytes, text}
use streamlation.Prelude.Decimal.{itoa}
use streamlation.Prelude.Result.{Result, ok, err}
use streamlation.Postgres.Failure.{Failure, unsupported_parameter}

-- The dynamic types that the switch of `encodeParam` names; `other` is any type else.
pub data Param : Type 0 where
  str : Bytes → Param
  bytes : Bytes → Param
  bool : Bool → Param
  int int32 int64 : ℤ → Param
  other : Param

-- `strings.ReplaceAll(v, "'", "''")`
unfoldable pub double_quotes : Bytes → Bytes
double_quotes [] = []
double_quotes (c ∷ s) =
    let rest = double_quotes s in if c == b'\'' then b'\'' ∷ b'\'' ∷ rest else c ∷ rest

unfoldable pub quote_literal : Bytes → Bytes
quote_literal v = b'\'' ∷ (double_quotes v ++ b'\'' ∷ [])

unfoldable pub encode_param : Param → Result Failure Bytes
encode_param (str v) = ok (quote_literal v)
encode_param (bytes v) = ok (quote_literal v)
encode_param (bool true) = ok (text "TRUE")
encode_param (bool false) = ok (text "FALSE")
encode_param (int n) = ok (itoa n)
encode_param (int32 n) = ok (itoa n)
encode_param (int64 n) = ok (itoa n)
encode_param other = err unsupported_parameter
