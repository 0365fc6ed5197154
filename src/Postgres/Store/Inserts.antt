-- ===== src/Postgres/Store/Inserts.antt =====
-- The statement that Create of packages/go/backend/postgres/store.go sends.
use streamlation.Prelude.{
  ℕ, ◌≡◌, ◌≢◌, ◌∙◌, refl, ap, sym, arith, true, false, Bool-cases, inl, inr, Option, none, some,
  List, zero, suc, [], ◌∷◌, ◌++◌, All, All-append, get_elem?, if◌then◌else◌, ◌==◌,
}
use streamlation.Prelude.Int.{ℤ, pos, negsuc}
use streamlation.Prelude.Text.{Bytes, text, equal, Lacks, lacks, lacks→Lacks}
use streamlation.Prelude.Decimal.{itoa, is_digit, format_uint, format_uint-AllDigits, AllDigits}
use streamlation.Prelude.Result.{Result, ok, err, ◌>>=◌, >>=-ok}
use streamlation.Net.{Conn, continue, pure}
use streamlation.Session.{TranslationSession}
use streamlation.Postgres.Failure.{Failure, server, session_exists}
use streamlation.Postgres.Param.{
  Param, str, bytes, bool, int, int32, int64, other, encode_param, quote_literal, double_quotes,
}
use streamlation.Postgres.Param.Lexer.{outside, lex}
use streamlation.Postgres.Query.{parameter, prepare_query}
use streamlation.Postgres.Query.Template.{Piece, plain, quoted, arg, fill, instantiate}
use streamlation.Postgres.Query.Prepared.{prepare_query-render}
use streamlation.Postgres.Client.{QueryResult, simple_query, exec}
use streamlation.Postgres.Store.{
  client_executor, create, create_error, map_err, insert_session_sql, insert_args,
}
use streamlation.Postgres.Store.Statements.{
  insert_head, comma, insert_template, insert_template-render, insert_template-WellFormed,
  insert_statement, insert_tokens,
}

-- A session whose texts hold no zero byte, which would end the query where PostgreSQL reads it.
pub record HasNoZero (s : TranslationSession) : Type 0 where
  pub id : Lacks 0 s.id
  pub type : Lacks 0 s.source.type
  pub uri : Lacks 0 s.source.uri
  pub target_language : Lacks 0 s.target_language
  pub model_profile : Lacks 0 s.options.model_profile

-- What `Create` returns for the outcome of its statement.
abbrev pub create_result : {A : Type 0} → Result Failure A → Result Failure (Unit {0})
create_result (ok a) = ok tt
create_result (err (server e)) =
    err (if equal e.code (text "23505") then session_exists else server e)
create_result (err e) = err e

create_result-continue :
    (r : Result Failure QueryResult × Conn)
    → let t = continue r.0 (λ res. pure tt) r.1 in
      ◌≡◌ {A = Result Failure (Unit {0}) × Conn}
        (map_err create_error t.0, t.1)
        (create_result r.0, r.1)
unfolding map_err create_error
create_result-continue (ok a, c) = refl
create_result-continue (err (server e), c) = refl
create_result-continue (err e, c) = refl

create-simple_query :
    (s : TranslationSession) (out : Bytes) (c : Conn)
    → prepare_query insert_session_sql (insert_args s) ≡ ok out
    → create client_executor s c ≡ (create_result (simple_query out c).0, (simple_query out c).1)
unfolding create exec
create-simple_query s out c h = rw h (create_result-continue (simple_query out c))

double_quotes-Lacks : (v : Bytes) → Lacks 0 v → Lacks 0 (double_quotes v)
unfolding double_quotes
double_quotes-Lacks [] h = tt
double_quotes-Lacks (c ∷ v) h = elim (Bool-cases (c == b'\'')) [
  | inl e ↦ rw e ((λ z. omega (arith, z)), ((λ z. omega (arith, z)), double_quotes-Lacks v h.1))
  | inr e ↦ rw e (h.0, double_quotes-Lacks v h.1)
]

quote_literal-Lacks : (v : Bytes) → Lacks 0 v → Lacks 0 (quote_literal v)
unfolding quote_literal
quote_literal-Lacks v h = (
  (λ z. omega (arith, z)),
  All-append (λ c. c ≢ 0) (double_quotes v) (b'\'' ∷ []) (double_quotes-Lacks v h)
      ((λ z. omega (arith, z)), tt),
)

digits-Lacks : (s : Bytes) → AllDigits s → Lacks 0 s
unfolding is_digit
digits-Lacks [] h = tt
digits-Lacks (c ∷ s) h = (ground arith, digits-Lacks s h.1)

itoa-Lacks : (n : ℤ) → Lacks 0 (itoa n)
unfolding itoa
itoa-Lacks (pos n) = digits-Lacks (format_uint n) (format_uint-AllDigits n)
itoa-Lacks (negsuc n) =
    ((λ z. omega (arith, z)), digits-Lacks (format_uint (suc n)) (format_uint-AllDigits (suc n)))

abbrev ParamLacks : Param → Type 0
ParamLacks (str v) = Lacks 0 v
ParamLacks (bytes v) = Lacks 0 v
ParamLacks _ = Unit

abbrev FoundLacks : Option Param → Type 0
FoundLacks none = Unit
FoundLacks (some a) = ParamLacks a

get_elem?-FoundLacks :
    (args : List Param) (k : ℕ) → All ParamLacks args → FoundLacks (get_elem? args k)
get_elem?-FoundLacks [] k h = tt
get_elem?-FoundLacks (a ∷ args) zero h = h.0
get_elem?-FoundLacks (a ∷ args) (suc k) h = get_elem?-FoundLacks args k h.1

encode_param-Lacks : (a : Param) (w : Bytes) → ParamLacks a → encode_param a ≡ ok w → Lacks 0 w
unfolding encode_param text
encode_param-Lacks (str v) w h e =
    let p : quote_literal v ≡ w = ground arith in rw (← p) (quote_literal-Lacks v h)
encode_param-Lacks (bytes v) w h e =
    let p : quote_literal v ≡ w = ground arith in rw (← p) (quote_literal-Lacks v h)
encode_param-Lacks (bool true) w h e =
    let p : text "TRUE" ≡ w = ground arith in
    rw (← p) (lacks→Lacks 0 (text "TRUE") (unfold lacks in refl))
encode_param-Lacks (bool false) w h e =
    let p : text "FALSE" ≡ w = ground arith in
    rw (← p) (lacks→Lacks 0 (text "FALSE") (unfold lacks in refl))
encode_param-Lacks (int n) w h e = let p : itoa n ≡ w = ground arith in rw (← p) (itoa-Lacks n)
encode_param-Lacks (int32 n) w h e = let p : itoa n ≡ w = ground arith in rw (← p) (itoa-Lacks n)
encode_param-Lacks (int64 n) w h e = let p : itoa n ≡ w = ground arith in rw (← p) (itoa-Lacks n)
encode_param-Lacks other w h e = cc

parameter-Lacks :
    (args : List Param) (o : Option Param) (w : Bytes)
    → FoundLacks o
    → parameter args o ≡ ok w
    → Lacks 0 w
unfolding parameter
parameter-Lacks args none w h e = cc
parameter-Lacks args (some a) w h e = encode_param-Lacks a w h e

abbrev PieceLacks : Piece → Type 0
PieceLacks (plain t) = Lacks 0 t
PieceLacks (quoted v) = Lacks 0 v
PieceLacks (arg k) = Unit

fill-Lacks :
    (args : List Param) (p : Piece) (w : Bytes)
    → All ParamLacks args
    → PieceLacks p
    → fill args p ≡ ok w
    → Lacks 0 w
unfolding fill
fill-Lacks args (plain t) w h l e = let p : t ≡ w = ground arith in rw (← p) l
fill-Lacks args (quoted v) w h l e =
    let p : quote_literal v ≡ w = ground arith in rw (← p) (quote_literal-Lacks v l)
fill-Lacks args (arg k) w h l e =
    parameter-Lacks args (get_elem? args k) w (get_elem?-FoundLacks args k h) e

instantiate-Lacks :
    (args : List Param) (ps : List Piece) (out : Bytes)
    → All ParamLacks args
    → All PieceLacks ps
    → instantiate args ps ≡ ok out
    → Lacks 0 out
unfolding instantiate
instantiate-Lacks args [] out h l e = let p : [] ≡ out = ground arith in rw (← p) tt
instantiate-Lacks args (q ∷ ps) out h l e =
    let (w, f, later) =
      >>=-ok (fill args q) (λ piece. instantiate args ps >>= λ rest. ok (piece ++ rest)) e in
    let (rest, i, last) = >>=-ok (instantiate args ps) (λ rest. ok (w ++ rest)) later in
    let p : w ++ rest ≡ out = ground arith in
    rw (← p) (
      All-append (λ c. c ≢ 0) w rest (fill-Lacks args q w h l.0 f)
        (instantiate-Lacks args ps rest h l.1 i))

insert_template-PieceLacks : All PieceLacks insert_template
unfolding text lacks
insert_template-PieceLacks =
    let no_zero : (t : Bytes) → lacks 0 t ≡ true → Lacks 0 t = lacks→Lacks 0 in
    let between = no_zero comma refl in
    (
      no_zero insert_head refl,
      (
        tt,
        (
          between,
          (
            tt,
            (
              between,
              (
                tt,
                (
                  between,
                  (
                    tt,
                    (
                      between,
                      (tt, (between, (tt, (between, (tt, (no_zero (text ")") refl, tt)))))),
                    ),
                  ),
                ),
              ),
            ),
          ),
        ),
      ),
    )

-- For every session whose texts hold no zero byte, there is one statement, without a zero byte,
-- that `Create` runs on every connection with simpleQuery, returning ErrSessionExists for an error
-- of code 23505, and the lexer of Param/Lexer reads that statement as the INSERT into seven columns
-- with exactly the session's fields as its values: each text field is one literal.
pub create-insert_tokens :
    (s : TranslationSession)
    → HasNoZero s
    → (out : Bytes) × ((c : Conn)
        → create client_executor s c
          ≡ (create_result (simple_query out c).0, (simple_query out c).1))
      × Lacks 0 out
      × (lex outside out ≡ insert_tokens s)
unfolding insert_args
create-insert_tokens s h =
    let (out, prepared, read) = insert_statement s in
    let filled : instantiate (insert_args s) insert_template ≡ ok out =
      sym (prepare_query-render insert_template _ _ insert_template-WellFormed)
      ∙ ap (λ q. prepare_query q (insert_args s)) insert_template-render
      ∙ prepared in
    (
      out,
      λ c. create-simple_query s out c prepared,
      instantiate-Lacks (insert_args s) insert_template out
          (h.id, (h.type, (h.uri, (h.target_language, (tt, (tt, (h.model_profile, tt)))))))
          insert_template-PieceLacks filled,
      read,
    )
