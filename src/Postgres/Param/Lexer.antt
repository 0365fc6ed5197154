-- ===== src/Postgres/Param/Lexer.antt =====
-- A reference reading of SQL text, written from PostgreSQL's lexical rules for standard-conforming
-- strings and not from the client: single-quoted literals, in which '' stands for a quote, and all
-- other bytes one by one. It stands for PostgreSQL's own on texts without a zero byte that have
-- outside their literals no comment, no double quote, no dollar sign, and no letter, digit or &
-- right in front of a literal. The statements of store.go are such texts: behind `VALUES (`, `, `
-- and `= ` stand a literal, TRUE, FALSE or a number.
use streamlation.Prelude.{ℕ, List, [], ◌∷◌, ◌++◌, ◌==◌, if◌then◌else◌}
use streamlation.Prelude.Text.{Bytes}

pub data Token : Type 0 where
  byte : ℕ → Token
  literal : Bytes → Token
  -- The text ends inside a literal.
  unterminated : Token

-- Outside a literal; inside one, with its value so far; behind a quote inside one.
pub data Mode : Type 0 where
  outside : Mode
  inside : Bytes → Mode
  closing : Bytes → Mode

unfoldable pub lex : Mode → Bytes → List Token
lex outside [] = []
lex (inside v) [] = unterminated ∷ []
lex (closing v) [] = literal v ∷ []
lex outside (c ∷ s) =
    let open_literal = lex (inside []) s in
    let next = lex outside s in if c == b'\'' then open_literal else byte c ∷ next
lex (inside v) (c ∷ s) =
    let close_literal = lex (closing v) s in
    let next = lex (inside (v ++ c ∷ [])) s in if c == b'\'' then close_literal else next
lex (closing v) (c ∷ s) =
    let again = lex (inside (v ++ b'\'' ∷ [])) s in
    let next = lex outside s in if c == b'\'' then again else literal v ∷ byte c ∷ next
