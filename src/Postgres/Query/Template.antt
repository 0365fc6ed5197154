-- ===== src/Postgres/Query/Template.antt =====
-- What prepareQuery does to a query that is written from pieces: plain SQL, quoted literals and
-- numbered placeholders.
use streamlation.Prelude.{
  ℕ, suc, ◌≤◌, ◌≡◌, ◌≢◌, refl, ◌∙◌, Bool, true, false, none, List, [], ◌∷◌, ◌++◌, arith, get_elem?,
  All,
}
use streamlation.Prelude.Text.{Bytes, Lacks}
use streamlation.Prelude.Decimal.{
  is_digit, format_uint, format_uint-AllDigits, format_uint-ne_nil, atoi-format_uint, max_int64,
  AllDigits,
}
use streamlation.Prelude.Result.{Result, ok, ◌>>=◌}
use streamlation.Postgres.Failure.{Failure}
use streamlation.Postgres.Param.{Param, quote_literal}
use streamlation.Postgres.Query.{
  span, read_dollar_tag, parameter, substitute, placeholder, prepare_step, is_dollar_tag_char,
}

pub data Piece : Type 0 where
  plain : Bytes → Piece
  -- A literal with this value.
  quoted : Bytes → Piece
  -- The placeholder of parameter `k`, counted from 0: `$(k+1)`.
  arg : ℕ → Piece

unfoldable pub render_piece : Piece → Bytes
render_piece (plain t) = t
render_piece (quoted v) = quote_literal v
render_piece (arg k) = b'$' ∷ format_uint (suc k)

unfoldable pub render : List Piece → Bytes
unfolding render_piece
render [] = []
render (p ∷ ps) = render_piece p ++ render ps

-- What a piece stands for under the parameters.
unfoldable pub fill : List Param → Piece → Result Failure Bytes
unfolding parameter
fill args (plain t) = ok t
fill args (quoted v) = ok (quote_literal v)
fill args (arg k) = parameter args (get_elem? args k)

unfoldable pub instantiate : List Param → List Piece → Result Failure Bytes
unfolding fill
instantiate args [] = ok []
instantiate args (p ∷ ps) = do piece ← fill args p; rest ← instantiate args ps; ok (piece ++ rest)

-- What follows a literal or a placeholder: nothing, or plain text whose first byte does not go on
-- with it.
abbrev pub Ends : List Piece → Type 0
Ends [] = Unit
Ends (plain [] ∷ ps) = ⊥
Ends (plain (c ∷ t) ∷ ps) = is_dollar_tag_char c ≡ false
Ends (quoted v ∷ ps) = ⊥
Ends (arg k ∷ ps) = ⊥

abbrev pub WellFormed : List Piece → Type 0
WellFormed [] = Unit
WellFormed (plain t ∷ ps) = Lacks b'\'' t × Lacks b'$' t × WellFormed ps
WellFormed (quoted v ∷ ps) = Ends ps × WellFormed ps
WellFormed (arg k ∷ ps) = (suc k ≤ max_int64) × Ends ps × WellFormed ps

-- The first byte of a text stops both kinds of runs.
abbrev pub Stops : Bytes → Type 0
Stops [] = Unit
Stops (c ∷ s) = (is_dollar_tag_char c ≡ false) × (c ≢ b'$') × (c ≢ b'\'')

pub render-Stops : (ps : List Piece) → Ends ps → WellFormed ps → Stops (render ps)
unfolding render
render-Stops [] e w = tt
render-Stops (plain [] ∷ ps) e w = absurd e
render-Stops (plain (c ∷ t) ∷ ps) e w = (e, w.1.0, w.0.0)
render-Stops (quoted v ∷ ps) e w = absurd e
render-Stops (arg k ∷ ps) e w = absurd e

digit_is_tag_char : (c : ℕ) → is_digit c ≡ true → is_dollar_tag_char c ≡ true
unfolding is_digit is_dollar_tag_char
digit_is_tag_char c h = ground arith

not_tag_char_not_digit : (c : ℕ) → is_dollar_tag_char c ≡ false → is_digit c ≡ false
unfolding is_digit is_dollar_tag_char
not_tag_char_not_digit c h = ground arith

abbrev Fails : (ℕ → Bool) → Bytes → Type 0
Fails test [] = Unit
Fails test (c ∷ s) = test c ≡ false

span-run :
    (test : ℕ → Bool) (run rest : Bytes)
    → All (λ c. test c ≡ true) run
    → Fails test rest
    → span test (run ++ rest) ≡ (run, rest)
unfolding span
span-run test [] [] h f = refl
span-run test [] (c ∷ rest) h f = rw f
span-run test (c ∷ run) rest h f = rw (h.0, span-run test run rest h.1 f)

All-digit_is_tag_char : (s : Bytes) → AllDigits s → All (λ c. is_dollar_tag_char c ≡ true) s
All-digit_is_tag_char [] h = tt
All-digit_is_tag_char (c ∷ s) h = (digit_is_tag_char c h.0, All-digit_is_tag_char s h.1)

read_dollar_tag-digits :
    (digits rest : Bytes) → AllDigits digits → Stops rest → read_dollar_tag (digits ++ rest) ≡ none
unfolding read_dollar_tag
read_dollar_tag-digits digits [] h f =
    rw (span-run is_dollar_tag_char digits [] (All-digit_is_tag_char digits h) tt)
read_dollar_tag-digits digits (c ∷ rest) h f =
    rw (span-run is_dollar_tag_char digits (c ∷ rest) (All-digit_is_tag_char digits h) f.0)
      (ground arith)

Stops-not_digit : (rest : Bytes) → Stops rest → Fails is_digit rest
Stops-not_digit [] f = tt
Stops-not_digit (c ∷ rest) f = not_tag_char_not_digit c f.0

placeholder_run :
    (args : List Param) (s run rest : Bytes)
    → run ≢ []
    → placeholder args s (run, rest) ≡ (substitute args run >>= λ w. ok (w, rest))
unfolding placeholder
placeholder_run args s [] rest h = absurd (h refl)
placeholder_run args s (d ∷ run) rest h = refl

substitute-format_uint :
    (args : List Param) (k : ℕ)
    → suc k ≤ max_int64
    → substitute args (format_uint (suc k)) ≡ parameter args (get_elem? args k)
unfolding substitute
substitute-format_uint args k h = rw (atoi-format_uint (suc k) h, substitute)

pub prepare_step-arg :
    (args : List Param) (k : ℕ) (rest : Bytes)
    → suc k ≤ max_int64
    → Stops rest
    → prepare_step args b'$' (format_uint (suc k) ++ rest)
      ≡ (parameter args (get_elem? args k) >>= λ w. ok (w, rest))
unfolding prepare_step
prepare_step-arg args k rest h f =
    rw (read_dollar_tag-digits (format_uint (suc k)) rest (format_uint-AllDigits (suc k)) f) (
      rw
        (span-run is_digit (format_uint (suc k)) rest (format_uint-AllDigits (suc k))
          (Stops-not_digit rest f))
        (placeholder_run args _ (format_uint (suc k)) rest (format_uint-ne_nil (suc k))
          ∙ rw (substitute-format_uint args k h)))
