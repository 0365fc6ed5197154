-- ===== src/Postgres/Client.antt =====
-- The client of packages/go/backend/postgres/client.go: startup, the framing of messages, and
-- simple queries. Its mutex makes each of these run alone, so each is one action on the connection.
-- The context's deadline reaches the connection through `set_deadline` only.
pub mod Sync
pub mod Answers
pub mod Total
pub mod Frames
use streamlation.Prelude.{
  ℕ, zero, suc, ◌+◌, ◌-◌, Bool, true, false, List, [], ◌∷◌, ◌++◌, ltb, ◌==◌, if◌then◌else◌, length,
}
use streamlation.Prelude.Text.{Bytes, text}
use streamlation.Prelude.Word.{put_uint32, uint32}
use streamlation.Prelude.Result.{Result, ok, err}
use streamlation.Net.{
  NetError, Conn, Io, pure, fail, lift, ◌>>=◌, ◌>>◌, read_full, write, set_deadline,
}
use streamlation.Postgres.Failure.{
  Failure, net, server, invalid_message_length, no_rows, out_of_fuel,
}
use streamlation.Postgres.Param.{Param}
use streamlation.Postgres.Query.{prepare_query}
use streamlation.Postgres.Row.{
  parse_row_description, parse_data_row, parse_command_complete, parse_error_response,
  handle_authentication,
}

unfoldable pub cstring : Bytes → Bytes
cstring value = value ++ 0 ∷ []

unfoldable pub startup_payload : Bytes → Bytes → Bytes
unfolding cstring
startup_payload user database =
    cstring (text "user")
    ++ (cstring user ++ (cstring (text "database") ++ (cstring database ++ 0 ∷ [])))

abbrev pub protocol_version : ℕ
protocol_version = 196608

-- The header and the payload go out in one flush.
unfoldable pub write_startup : Bytes → Bytes → Io Failure (Unit {0})
unfolding startup_payload write
write_startup user database =
    let payload = startup_payload user database in
    write net (put_uint32 (length payload + 4 + 4) ++ (put_uint32 protocol_version ++ payload))

-- The deadline of the context, or none: then a read for which the server sends nothing blocks for
-- ever, where the input of the model always ends in an error.
unfoldable pub apply_deadline : Io Failure (Unit {0})
unfolding set_deadline
apply_deadline = set_deadline net

read_payload : ℕ → ℕ → Io Failure (ℕ × Bytes)
read_payload typ length =
    if ltb length 4
    then fail invalid_message_length
    else do payload ← read_full net (length - 4); pure (typ, payload)

-- A header has five bytes: the last clause is not reached.
after_header : Bytes → Io Failure (ℕ × Bytes)
after_header (typ ∷ a ∷ b ∷ c ∷ d ∷ []) = read_payload typ (uint32 a b c d)
after_header _ = fail invalid_message_length

unfoldable pub read_message : Io Failure (ℕ × Bytes)
unfolding apply_deadline after_header read_payload read_full
read_message = do apply_deadline; header ← read_full net 5; after_header header

-- The switch of `startup`; `next` goes on with the loop.
unfoldable pub on_startup_message : Io Failure (Unit {0}) → ℕ × Bytes → Io Failure (Unit {0})
on_startup_message next (typ, payload) =
    if typ == b'R'
    then (lift (handle_authentication payload) >> next)
    else if typ == b'E'
    then fail (server (parse_error_response payload))
    else if typ == b'Z'
    then pure tt
    else next

unfoldable pub startup_loop : ℕ → Io Failure (Unit {0})
startup_loop zero = fail out_of_fuel
startup_loop (suc fuel) = read_message >>= on_startup_message (startup_loop fuel)

-- Each message takes a byte at least from the input, so there are fewer rounds than bytes and one.
unfoldable pub startup : Bytes → Bytes → Io Failure (Unit {0})
unfolding write_startup startup_loop on_startup_message read_message
startup user database = do write_startup user database; λ c. startup_loop (suc (length c.input)) c

unfoldable pub query_message : Bytes → Bytes
query_message query = let body = query ++ 0 ∷ [] in b'Q' ∷ (put_uint32 (length body + 4) ++ body)

unfoldable pub write_query : Bytes → Io Failure (Unit {0})
unfolding query_message write
write_query query = write net (query_message query)

pub record QueryResult : Type 0 where
  pub column_count : ℕ
  pub rows : List (List Bytes)
  pub command_tag : Bytes

unfoldable pub discard_until_ready : ℕ → Io Failure (Unit {0})
discard_until_ready zero = fail out_of_fuel
discard_until_ready (suc fuel) =
    let next = discard_until_ready fuel in
    read_message >>= λ m. if m.0 == b'Z' then pure tt else next

-- The switch of `simpleQuery`; `next` goes on with the loop.
unfoldable pub on_query_message :
    (QueryResult → Io Failure QueryResult)
    → Io Failure (Unit {0})
    → QueryResult
    → ℕ × Bytes
    → Io Failure QueryResult
on_query_message next discard res (typ, payload) =
    if typ == b'T'
    then next (record res { column_count = parse_row_description payload })
    else if typ == b'D'
    then (lift (parse_data_row payload) >>= λ row.
        next (record res { rows = res.rows ++ row ∷ [] }))
    else if typ == b'C'
    then next (record res { command_tag = parse_command_complete payload })
    else if typ == b'E'
    then (discard >> fail (server (parse_error_response payload)))
    else if typ == b'Z'
    then pure res
    else next res

unfoldable pub query_loop : ℕ → QueryResult → Io Failure QueryResult
query_loop zero res = fail out_of_fuel
query_loop (suc fuel) res =
    read_message >>= on_query_message (query_loop fuel) (discard_until_ready fuel) res

abbrev pub no_result : QueryResult
no_result = record { column_count = 0; rows = []; command_tag = [] }

unfoldable pub simple_query : Bytes → Io Failure QueryResult
unfolding apply_deadline write_query query_loop on_query_message discard_until_ready read_message
simple_query query = do
  apply_deadline
  write_query query
  λ c. query_loop (suc (length c.input)) no_result c

unfoldable pub exec : Bytes → List Param → Io Failure (Unit {0})
unfolding simple_query
exec query args = do
  prepared ← lift (prepare_query query args)
  res ← simple_query prepared
  pure tt

first_row : List (List Bytes) → Result Failure (List Bytes)
first_row [] = err no_rows
first_row (r ∷ rows) = ok r

-- The `simpleRow`: its values, or the error that its Scan returns.
unfoldable pub query_row : Bytes → List Param → Io Failure (List Bytes)
unfolding simple_query first_row
query_row query args = do
  prepared ← lift (prepare_query query args)
  res ← simple_query prepared
  lift (first_row res.rows)

-- The rows of the `simpleRows`, whose index starts at 0.
unfoldable pub query : Bytes → List Param → Io Failure (List (List Bytes))
unfolding simple_query
query q args = do prepared ← lift (prepare_query q args); res ← simple_query prepared; pure res.rows
