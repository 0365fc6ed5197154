-- ===== src/Postgres/Query/Safety.antt =====
-- No parameter leaves its literal: the lexer of Param/Lexer reads the prepared query as the tokens
-- of the template, with each string parameter as the value of one literal.
use streamlation.Prelude.{
  suc, ◌≡◌, refl, sym, ap, ◌∙◌, true, false, Option, none, some, List, [], ◌∷◌, ◌++◌, map, arith,
  get_elem?,
}
use streamlation.Prelude.Int.{ℤ, pos, negsuc}
use streamlation.Prelude.Text.{Bytes, text, Lacks}
use streamlation.Prelude.Decimal.{itoa, is_digit, format_uint, format_uint-AllDigits, AllDigits}
use streamlation.Prelude.Result.{ok, ◌>>=◌, >>=-ok}
use streamlation.Postgres.Param.{
  Param, str, bytes, bool, int, int32, int64, other, encode_param, quote_literal,
}
use streamlation.Postgres.Param.Lexer.{Token, byte, literal, outside, lex}
use streamlation.Postgres.Param.Literal.{NoQuoteFirst, lex-quote_literal, lex-plain}
use streamlation.Postgres.Query.{parameter, prepare_query}
use streamlation.Postgres.Query.Template.{
  Piece, plain, quoted, arg, render, instantiate, Ends, WellFormed,
}
use streamlation.Postgres.Query.Prepared.{prepare_query-render}

-- The tokens of a parameter: one literal for a text, the bytes of a number or a truth value.
unfoldable pub param_tokens : Param → List Token
param_tokens (str v) = literal v ∷ []
param_tokens (bytes v) = literal v ∷ []
param_tokens (bool true) = map byte (text "TRUE")
param_tokens (bool false) = map byte (text "FALSE")
param_tokens (int n) = map byte (itoa n)
param_tokens (int32 n) = map byte (itoa n)
param_tokens (int64 n) = map byte (itoa n)
param_tokens other = []

abbrev arg_tokens : Option Param → List Token
arg_tokens none = []
arg_tokens (some a) = param_tokens a

unfoldable pub tokens : List Param → List Piece → List Token
unfolding param_tokens
tokens args [] = []
tokens args (plain t ∷ ps) = map byte t ++ tokens args ps
tokens args (quoted v ∷ ps) = literal v ∷ tokens args ps
tokens args (arg k ∷ ps) = arg_tokens (get_elem? args k) ++ tokens args ps

digits_lack_quotes : (s : Bytes) → AllDigits s → Lacks b'\'' s
unfolding is_digit
digits_lack_quotes [] h = tt
digits_lack_quotes (c ∷ s) h = (ground arith, digits_lack_quotes s h.1)

itoa-Lacks : (n : ℤ) → Lacks b'\'' (itoa n)
unfolding itoa
itoa-Lacks (pos n) = digits_lack_quotes (format_uint n) (format_uint-AllDigits n)
itoa-Lacks (negsuc n) =
    (omega arith, digits_lack_quotes (format_uint (suc n)) (format_uint-AllDigits (suc n)))

lex-encode_param :
    (a : Param) (w rest : Bytes)
    → encode_param a ≡ ok w
    → NoQuoteFirst rest
    → lex outside (w ++ rest) ≡ param_tokens a ++ lex outside rest
unfolding encode_param param_tokens
lex-encode_param (str v) w rest e h =
    let p : quote_literal v ≡ w = ground arith in rw (← p) (lex-quote_literal v rest h)
lex-encode_param (bytes v) w rest e h =
    let p : quote_literal v ≡ w = ground arith in rw (← p) (lex-quote_literal v rest h)
lex-encode_param (bool true) w rest e h =
    let p : text "TRUE" ≡ w = ground arith in
    rw (← p) (lex-plain (text "TRUE") rest (unfold text in omega arith))
lex-encode_param (bool false) w rest e h =
    let p : text "FALSE" ≡ w = ground arith in
    rw (← p) (lex-plain (text "FALSE") rest (unfold text in omega arith))
lex-encode_param (int n) w rest e h =
    let p : itoa n ≡ w = ground arith in rw (← p) (lex-plain (itoa n) rest (itoa-Lacks n))
lex-encode_param (int32 n) w rest e h =
    let p : itoa n ≡ w = ground arith in rw (← p) (lex-plain (itoa n) rest (itoa-Lacks n))
lex-encode_param (int64 n) w rest e h =
    let p : itoa n ≡ w = ground arith in rw (← p) (lex-plain (itoa n) rest (itoa-Lacks n))
lex-encode_param other w rest e h = cc

lex-parameter :
    (args : List Param) (o : Option Param) (w rest : Bytes)
    → parameter args o ≡ ok w
    → NoQuoteFirst rest
    → lex outside (w ++ rest) ≡ arg_tokens o ++ lex outside rest
unfolding parameter
lex-parameter args none w rest e h = cc
lex-parameter args (some a) w rest e h = lex-encode_param a w rest e h

instantiate-NoQuoteFirst :
    (args : List Param) (ps : List Piece) (out : Bytes)
    → Ends ps
    → WellFormed ps
    → instantiate args ps ≡ ok out
    → NoQuoteFirst out
unfolding instantiate
instantiate-NoQuoteFirst args [] out e w h = let p : [] ≡ out = ground arith in rw (← p) tt
instantiate-NoQuoteFirst args (plain [] ∷ ps) out e w h = absurd e
instantiate-NoQuoteFirst args (plain (c ∷ t) ∷ ps) out e w h =
    let (rest, _, last) = >>=-ok (instantiate args ps) (λ rest. ok ((c ∷ t) ++ rest)) h in
    let p : c ∷ (t ++ rest) ≡ out = ground arith in rw (← p) w.0.0
instantiate-NoQuoteFirst args (quoted v ∷ ps) out e w h = absurd e
instantiate-NoQuoteFirst args (arg k ∷ ps) out e w h = absurd e

lex-instantiate :
    (args : List Param) (ps : List Piece) (out : Bytes)
    → WellFormed ps
    → instantiate args ps ≡ ok out
    → lex outside out ≡ tokens args ps
unfolding tokens instantiate
lex-instantiate args [] out w h = let p : [] ≡ out = ground arith in rw (← p) (unfold lex in refl)
lex-instantiate args (plain t ∷ ps) out w h =
    let (rest, i, last) = >>=-ok (instantiate args ps) (λ rest. ok (t ++ rest)) h in
    let p : t ++ rest ≡ out = ground arith in
    rw (← p) (lex-plain t rest w.0 ∙ ap (◌++◌ (map byte t)) (lex-instantiate args ps rest w.2 i))
lex-instantiate args (quoted v ∷ ps) out w h =
    let (rest, i, last) = >>=-ok (instantiate args ps) (λ rest. ok (quote_literal v ++ rest)) h in
    let p : quote_literal v ++ rest ≡ out = ground arith in
    rw (← p) (
      lex-quote_literal v rest (instantiate-NoQuoteFirst args ps rest w.0 w.1 i)
      ∙ ap (◌∷◌ (literal v)) (lex-instantiate args ps rest w.1 i))
lex-instantiate args (arg k ∷ ps) out w h =
    let (piece, f, later) =
      >>=-ok (parameter args (get_elem? args k))
        (λ piece. instantiate args ps >>= λ rest. ok (piece ++ rest)) h in
    let (rest, i, last) = >>=-ok (instantiate args ps) (λ rest. ok (piece ++ rest)) later in
    let p : piece ++ rest ≡ out = ground arith in
    rw (← p) (
      lex-parameter args (get_elem? args k) piece rest f
        (instantiate-NoQuoteFirst args ps rest w.1 w.2 i)
      ∙ ap (◌++◌ (arg_tokens (get_elem? args k))) (lex-instantiate args ps rest w.2 i))

-- Whatever bytes the parameters hold, quotes among them, and for one parameter at least: if
-- prepareQuery accepts a query that is written from well-formed pieces, the lexer of Param/Lexer,
-- which knows literals and single bytes only, reads the result as the tokens of the pieces, in which
-- each text parameter is exactly one literal with the parameter as its value.
pub lex-prepare_query :
    (ps : List Piece) (a : Param) (args : List Param) (out : Bytes)
    → WellFormed ps
    → prepare_query (render ps) (a ∷ args) ≡ ok out
    → lex outside out ≡ tokens (a ∷ args) ps
lex-prepare_query ps a args out w h =
    lex-instantiate (a ∷ args) ps out w (sym (prepare_query-render ps a args w) ∙ h)
