-- ===== src/Postgres/Param/Literal.antt =====
-- An encoded string is one literal to the lexer, whatever bytes it holds.
use streamlation.Prelude.{
  [], ◌∷◌, ◌++◌, ◌≡◌, ◌≢◌, refl, ◌∙◌, map, append_assoc, append-nil, arith, ◌==◌, Bool-cases,
  ==_iff, inl, inr,
}
use streamlation.Prelude.Text.{Bytes, Lacks}
use streamlation.Postgres.Param.Lexer.{byte, literal, outside, inside, closing, lex}
use streamlation.Postgres.Param.{double_quotes, quote_literal}

-- What follows a literal does not go on with a quote.
abbrev pub NoQuoteFirst : Bytes → Type 0
NoQuoteFirst [] = Unit
NoQuoteFirst (c ∷ s) = c ≢ b'\''

lex-double_quotes :
    (v acc rest : Bytes) → lex (inside acc) (double_quotes v ++ rest) ≡ lex (inside (acc ++ v)) rest
unfolding lex double_quotes
lex-double_quotes [] acc rest = rw append-nil
lex-double_quotes (c ∷ v) acc rest = elim (Bool-cases (c == b'\'')) [
  | inl q ↦
      rw (q, (==_iff c b'\'').0 q) (lex-double_quotes v (acc ++ b'\'' ∷ []) rest ∙ rw append_assoc)
  | inr p ↦ rw (p, p) (lex-double_quotes v (acc ++ c ∷ []) rest ∙ rw append_assoc)
]

lex-closing :
    (v rest : Bytes) → NoQuoteFirst rest → lex (closing v) rest ≡ literal v ∷ lex outside rest
unfolding lex
lex-closing v [] h = refl
lex-closing v (c ∷ s) h = ground arith

pub lex-quote_literal :
    (v rest : Bytes)
    → NoQuoteFirst rest
    → lex outside (quote_literal v ++ rest) ≡ literal v ∷ lex outside rest
unfolding quote_literal
lex-quote_literal v rest h =
    rw append_assoc (unfold lex in lex-double_quotes v [] (b'\'' ∷ rest) ∙ lex-closing v rest h)

-- Text with no quote is read byte by byte.
pub lex-plain :
    (t rest : Bytes) → Lacks b'\'' t → lex outside (t ++ rest) ≡ map byte t ++ lex outside rest
unfolding lex
lex-plain [] rest h = refl
lex-plain (c ∷ t) rest h = ground (arith, lex-plain t rest h.1)
