-- ===== src/Postgres/Store.antt =====
-- packages/go/backend/postgres/store.go: the session store, over an executor of SQL.
pub mod Cursor
pub mod Statements
pub mod Wire
pub mod Requests
pub mod Inserts
use streamlation.Prelude.{
  ℕ, zero, suc, Bool, true, false, Option, none, some, List, [], ◌∷◌, if◌then◌else◌, length,
}
use streamlation.Prelude.Int.{ℤ, pos, negsuc}
use streamlation.Prelude.Text.{Bytes, text, equal}
use streamlation.Prelude.Result.{Result, ok, err, ◌>>=◌}
use streamlation.Net.{Conn}
use streamlation.Session.{TranslationSession}
use streamlation.Postgres.Failure.{
  Failure, server, no_rows, session_exists, session_not_found, column_count_mismatch, out_of_fuel,
}
use streamlation.Postgres.Param.{Param, str, bool, int}
use streamlation.Postgres.Client
use streamlation.Postgres.Scan.{Dest, Value, Rows, assign_values, next, scan}

-- The interface `executor` over a state `S`. A `row` is its values or its error, and `rows` are the
-- values that a `simpleRows` starts from.
pub record Executor (S : Type 0) : Type 0 where
  pub exec : Bytes → List Param → S → Result Failure (Unit {0}) × S
  pub query_row : Bytes → List Param → S → Result Failure (List Bytes) × S
  pub query : Bytes → List Param → S → Result Failure (List (List Bytes)) × S

abbrev pub client_executor : Executor Conn
client_executor = record { exec = Client.exec; query_row = Client.query_row; query = Client.query }

abbrev pub insert_session_sql : Bytes
insert_session_sql =
    text
      "INSERT INTO translation_sessions (\n        id,\n        source_type,\n        source_uri,\n        target_language,\n        enable_dubbing,\n        latency_tolerance_ms,\n        model_profile\n) VALUES ($1, $2, $3, $4, $5, $6, $7)"

abbrev pub get_session_sql : Bytes
get_session_sql =
    text
      "SELECT id, source_type, source_uri, target_language, enable_dubbing, latency_tolerance_ms, model_profile FROM translation_sessions WHERE id = $1"

abbrev pub delete_session_sql : Bytes
delete_session_sql = text "DELETE FROM translation_sessions WHERE id = $1"

abbrev pub list_sessions_sql : Bytes
list_sessions_sql =
    text
      "SELECT id, source_type, source_uri, target_language, enable_dubbing, latency_tolerance_ms, model_profile FROM translation_sessions ORDER BY created_at DESC LIMIT $1"

abbrev pub schema_sql : Bytes
schema_sql =
    text
      "CREATE TABLE IF NOT EXISTS translation_sessions (\nid TEXT PRIMARY KEY,\nsource_type TEXT NOT NULL,\nsource_uri TEXT NOT NULL,\ntarget_language TEXT NOT NULL,\nenable_dubbing BOOLEAN NOT NULL,\nlatency_tolerance_ms INTEGER NOT NULL,\nmodel_profile TEXT NOT NULL,\ncreated_at TIMESTAMPTZ NOT NULL DEFAULT NOW()\n)"

-- The arguments of `Create`, in the order of the statement's placeholders.
unfoldable pub insert_args : TranslationSession → List Param
insert_args s =
    str s.id
    ∷ str s.source.type
    ∷ str s.source.uri
    ∷ str s.target_language
    ∷ bool s.options.enable_dubbing
    ∷ int s.options.latency_tolerance_ms
    ∷ str s.options.model_profile
    ∷ []

-- `errors.As(err, &pgErr) && pgErr.Code == "23505"`
unfoldable pub create_error : Failure → Failure
create_error (server e) = if equal e.code (text "23505") then session_exists else server e
create_error e = e

-- `errors.Is(err, sql.ErrNoRows)`
unfoldable pub get_error : Failure → Failure
get_error no_rows = session_not_found
get_error e = e

abbrev pub session_dest : List Dest
session_dest =
    Dest.string ∷ Dest.string ∷ Dest.string ∷ Dest.string ∷ Dest.bool ∷ Dest.int32 ∷ Dest.string
    ∷ []

-- The variables of `scanSession` as a session: the last clause is not reached.
unfoldable pub session_of : List Value → Result Failure TranslationSession
session_of
      (Value.string id
        ∷ Value.string source_type
        ∷ Value.string source_uri
        ∷ Value.string target_language
        ∷ Value.bool enable_dubbing
        ∷ Value.int32 latency
        ∷ Value.string model_profile
        ∷ []) =
    ok (record {
      id = id;
      source = record { type = source_type; uri = source_uri };
      target_language = target_language;
      options = record {
        enable_dubbing = enable_dubbing;
        latency_tolerance_ms = latency;
        model_profile = model_profile;
      };
    })
session_of values = err column_count_mismatch

-- `scanSession` on the values of a row.
unfoldable pub scan_session : List Bytes → Result Failure TranslationSession
unfolding session_of assign_values
scan_session values = do assigned ← assign_values values session_dest; session_of assigned

map_err {ℓ} : {A : Type ℓ} → (Failure → Failure) → Result Failure A → Result Failure A
map_err f (ok a) = ok a
map_err f (err e) = err (f e)

-- The loop of `List`; each round moves the cursor by one row.
unfoldable pub list_loop : ℕ → Rows → Result Failure (List TranslationSession)
list_loop zero r = err out_of_fuel
list_loop (suc fuel) r =
    let (more, at_row) = next r in
    let (values, after) = scan session_dest at_row in
    let rest = list_loop fuel after in
    let found = (values >>= session_of) in
    if more
    then (found >>= λ s. rest >>= λ sessions. ok (s ∷ sessions))
    else elim at_row.error [ some e ↦ err e | none ↦ ok [] ]

unfoldable pub read_all :
    Result Failure (List (List Bytes)) → Result Failure (List TranslationSession)
read_all (err e) = err e
read_all (ok rows) = list_loop (suc (length rows)) (record { rows = rows; idx = 0; error = none })

-- `if limit <= 0 { limit = 50 }`
unfoldable pub effective_limit : ℤ → ℤ
effective_limit (pos zero) = pos 50
effective_limit (pos (suc n)) = pos (suc n)
effective_limit (negsuc n) = pos 50

module _ {S : Type 0} (client : Executor S) where
  open client use {exec, query_row, query}

  unfoldable pub create : TranslationSession → S → Result Failure (Unit {0}) × S
  unfolding map_err create_error insert_args
  create session c =
      let (r, c') = exec insert_session_sql (insert_args session) c in (map_err create_error r, c')

  unfoldable pub get : Bytes → S → Result Failure TranslationSession × S
  unfolding map_err get_error scan_session
  get id c =
      let (r, c') = query_row get_session_sql (str id ∷ []) c in
      (map_err get_error (r >>= scan_session), c')

  unfoldable pub delete : Bytes → S → Result Failure (Unit {0}) × S
  delete id = exec delete_session_sql (str id ∷ [])

  unfoldable pub list : ℤ → S → Result Failure (List TranslationSession) × S
  unfolding read_all list_loop effective_limit
  list limit c =
      let (r, c') = query list_sessions_sql (int (effective_limit limit) ∷ []) c in (read_all r, c')

  unfoldable pub ensure_session_schema : S → Result Failure (Unit {0}) × S
  ensure_session_schema = exec schema_sql []
