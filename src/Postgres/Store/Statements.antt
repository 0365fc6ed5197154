-- ===== src/Postgres/Store/Statements.antt =====
-- The statements that the store sends, as the lexer of Param/Lexer reads them, for every session
-- and id.
use streamlation.Prelude.{
  ℕ, ◌≡◌, refl, ◌∙◌, Bool, true, false, List, [], ◌∷◌, ◌++◌, map, arith, append-nil,
}
use streamlation.Prelude.Int.{ℤ}
use streamlation.Prelude.Text.{Bytes, text, Lacks, lacks, lacks→Lacks}
use streamlation.Prelude.Decimal.{itoa, format_uint}
use streamlation.Prelude.Result.{ok, IsOk, ok_value}
use streamlation.Session.{TranslationSession}
use streamlation.Postgres.Param.{Param, str, int, encode_param}
use streamlation.Postgres.Param.Lexer.{Token, byte, literal, outside, lex}
use streamlation.Postgres.Query.{prepare_query, is_dollar_tag_char}
use streamlation.Postgres.Query.Template.{Piece, plain, arg, render, instantiate, WellFormed}
use streamlation.Postgres.Query.Prepared.{prepare_query-render}
use streamlation.Postgres.Query.Safety.{tokens, lex-prepare_query}
use streamlation.Postgres.Store.{
  insert_session_sql, get_session_sql, list_sessions_sql, delete_session_sql, insert_args,
}

abbrev pub insert_head : Bytes
insert_head =
    text
      "INSERT INTO translation_sessions (\n        id,\n        source_type,\n        source_uri,\n        target_language,\n        enable_dubbing,\n        latency_tolerance_ms,\n        model_profile\n) VALUES ("

abbrev pub comma : Bytes
comma = text ", "

abbrev pub insert_template : List Piece
insert_template =
    plain insert_head
    ∷ arg 0
    ∷ plain comma
    ∷ arg 1
    ∷ plain comma
    ∷ arg 2
    ∷ plain comma
    ∷ arg 3
    ∷ plain comma
    ∷ arg 4
    ∷ plain comma
    ∷ arg 5
    ∷ plain comma
    ∷ arg 6
    ∷ plain (text ")")
    ∷ []

pub insert_template-render : render insert_template ≡ insert_session_sql
unfolding render text format_uint
insert_template-render = refl

pub insert_template-WellFormed : WellFormed insert_template
unfolding text is_dollar_tag_char lacks
insert_template-WellFormed =
    let q : (b : ℕ) → lacks b insert_head ≡ true → Lacks b insert_head =
      λ b. lacks→Lacks b insert_head in
    (q b'\'' refl, q b'$' refl, ground arith)

abbrev bool_word : Bool → Bytes
bool_word true = text "TRUE"
bool_word false = text "FALSE"

-- Groups of tokens with a comma between any two, and `rest` behind.
abbrev separated : List (List Token) → List Token → List Token
separated [] rest = rest
separated (x ∷ []) rest = x ++ rest
separated (x ∷ y ∷ xs) rest = x ++ (map byte comma ++ separated (y ∷ xs) rest)

abbrev pub one : Bytes → List Token
one v = literal v ∷ []

-- The tokens of the INSERT for a session.
unfoldable pub insert_tokens : TranslationSession → List Token
insert_tokens s =
    map byte insert_head
    ++ separated
        (one s.id
          ∷ one s.source.type
          ∷ one s.source.uri
          ∷ one s.target_language
          ∷ map byte (bool_word s.options.enable_dubbing)
          ∷ map byte (itoa s.options.latency_tolerance_ms)
          ∷ one s.options.model_profile
          ∷ [])
        (map byte (text ")"))

insert_tokens-tokens :
    (s : TranslationSession) → tokens (insert_args s) insert_template ≡ insert_tokens s
unfolding tokens insert_tokens insert_args text
insert_tokens-tokens s = from s.options.enable_dubbing refl
  where
    from :
        (b : Bool)
        → s.options.enable_dubbing ≡ b
        → tokens (insert_args s) insert_template ≡ insert_tokens s
    from true e = rw e
    from false e = rw e

-- A query of the store: its template is filled, sent, and read back as its tokens.
statement :
    (sql : Bytes) (ps : List Piece) (a : Param) (args : List Param) (ts : List Token)
    → render ps ≡ sql
    → WellFormed ps
    → IsOk (instantiate (a ∷ args) ps)
    → tokens (a ∷ args) ps ≡ ts
    → (out : Bytes) × (prepare_query sql (a ∷ args) ≡ ok out) × (lex outside out ≡ ts)
statement sql ps a args ts e w h t =
    let (out, i) = ok_value (instantiate (a ∷ args) ps) h in
    let p : prepare_query (render ps) (a ∷ args) ≡ ok out = prepare_query-render ps a args w ∙ i in
    (out, rw (← e) p, lex-prepare_query ps a args out w p ∙ t)

insert_args-IsOk : (s : TranslationSession) → IsOk (instantiate (insert_args s) insert_template)
unfolding instantiate insert_args encode_param
insert_args-IsOk s = from s.options.enable_dubbing refl
  where
    from :
        (b : Bool)
        → s.options.enable_dubbing ≡ b
        → IsOk (instantiate (insert_args s) insert_template)
    from true e = rw e tt
    from false e = rw e tt

-- For every session, whatever bytes its fields hold, the INSERT with the session's fields is
-- prepared, and the lexer reads it as the INSERT into seven columns with exactly the fields as its
-- values: each text field is one literal.
pub insert_statement :
    (s : TranslationSession)
    → (out : Bytes) × (prepare_query insert_session_sql (insert_args s) ≡ ok out)
      × (lex outside out ≡ insert_tokens s)
unfolding insert_args
insert_statement s =
    statement insert_session_sql insert_template _ _ (insert_tokens s) insert_template-render
      insert_template-WellFormed (insert_args-IsOk s) (insert_tokens-tokens s)

abbrev pub select_head : Bytes
select_head =
    text
      "SELECT id, source_type, source_uri, target_language, enable_dubbing, latency_tolerance_ms, model_profile FROM translation_sessions WHERE id = "

abbrev pub list_head : Bytes
list_head =
    text
      "SELECT id, source_type, source_uri, target_language, enable_dubbing, latency_tolerance_ms, model_profile FROM translation_sessions ORDER BY created_at DESC LIMIT "

abbrev pub delete_head : Bytes
delete_head = text "DELETE FROM translation_sessions WHERE id = "

-- A statement with one parameter at its end.
abbrev tail_template : Bytes → List Piece
tail_template head = plain head ∷ arg 0 ∷ []

tail_template-WellFormed :
    (head : Bytes)
    → lacks b'\'' head ≡ true
    → lacks b'$' head ≡ true
    → WellFormed (tail_template head)
tail_template-WellFormed head q d =
    (lacks→Lacks b'\'' head q, lacks→Lacks b'$' head d, ground arith)

-- The three statements that take one parameter are read by the lexer as their fixed text and the
-- parameter: for every id one literal with the id as its value, and for every limit its number.
pub one_parameter_statements :
    (id : Bytes) (limit : ℤ)
    → ((out : Bytes) × (prepare_query get_session_sql (str id ∷ []) ≡ ok out)
        × (lex outside out ≡ map byte select_head ++ one id))
      × ((out : Bytes) × (prepare_query delete_session_sql (str id ∷ []) ≡ ok out)
          × (lex outside out ≡ map byte delete_head ++ one id))
      × ((out : Bytes) × (prepare_query list_sessions_sql (int limit ∷ []) ≡ ok out)
          × (lex outside out ≡ map byte list_head ++ map byte (itoa limit)))
unfolding render text format_uint lacks instantiate encode_param tokens
one_parameter_statements id limit = (
  statement get_session_sql (tail_template select_head) (str id) [] _ refl
      (tail_template-WellFormed select_head refl refl) tt refl,
  statement delete_session_sql (tail_template delete_head) (str id) [] _ refl
      (tail_template-WellFormed delete_head refl refl) tt refl,
  statement list_sessions_sql (tail_template list_head) (int limit) [] _ refl
      (tail_template-WellFormed list_head refl refl) tt (rw append-nil),
)
