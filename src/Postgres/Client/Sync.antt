-- ===== src/Postgres/Client/Sync.antt =====
-- After a simple query the connection stands right behind the server's ReadyForQuery, with the
-- result or the server's error: no message of one answer is left for the next query.
use streamlation.Prelude.{
  ℕ, suc, ◌+◌, ◌^◌, ◌≤◌, ◌<◌, ◌≡◌, ◌≢◌, ◌∙◌, false, none, List, [], ◌∷◌, ◌++◌, arith, ◌==◌,
  if◌then◌else◌, length, length-append, append_assoc, All,
}
use streamlation.Prelude.Text.{Bytes}
use streamlation.Prelude.Result.{Result, ok, err, Result-cases, >>=-ok}
use streamlation.Prelude.Result
use streamlation.Net.{Conn, Io}
use streamlation.Postgres.Failure.{Failure, server}
use streamlation.Postgres.Row.{
  parse_row_description, parse_data_row, parse_command_complete, parse_error_response,
}
use streamlation.Postgres.Client.{QueryResult, on_query_message, query_loop, discard_until_ready}
use streamlation.Postgres.Client.Frames.{Message, frame, Fits, read_message-frame}

unfoldable pub stream : List Message → Bytes
stream [] = []
stream (m ∷ ms) = frame m ++ stream ms

-- What one message of an answer adds to the result, by its type: a row description, a row, a
-- command tag, or nothing.
unfoldable pub absorb : QueryResult → Message → Result Failure QueryResult
absorb res (typ, payload) =
    if typ == b'T'
    then ok (record res { column_count = parse_row_description payload })
    else if typ == b'D'
    then Result.◌>>=◌ (parse_data_row payload)
        (λ row. ok (record res { rows = res.rows ++ row ∷ [] }))
    else if typ == b'C'
    then ok (record res { command_tag = parse_command_complete payload })
    else ok res

unfoldable pub absorb_all : QueryResult → List Message → Result Failure QueryResult
unfolding absorb
absorb_all res [] = ok res
absorb_all res (m ∷ ms) = Result.◌>>=◌ (absorb res m) (λ res'. absorb_all res' ms)

-- A message in the middle of an answer.
abbrev pub IsBody : Message → Type 0
IsBody m = (m.0 ≢ b'E') × (m.0 ≢ b'Z') × Fits m

on_query_message-body :
    (next : QueryResult → Io Failure QueryResult) (discard : Io Failure (Unit {0}))
    (res res' : QueryResult) (m : Message) (c : Conn)
    → m.0 ≢ b'E'
    → m.0 ≢ b'Z'
    → absorb res m ≡ ok res'
    → on_query_message next discard res m c ≡ next res' c
unfolding on_query_message absorb
on_query_message-body next discard res res' (typ, payload) c e z h = ground arith

query_loop-body :
    (fuel : ℕ) (res res' : QueryResult) (m : Message) (c : Conn) (rest : Bytes)
    → c.deadline_fault ≡ none
    → IsBody m
    → absorb res m ≡ ok res'
    → query_loop (suc fuel) res (record c { input = frame m ++ rest })
      ≡ query_loop fuel res' (record c { input = rest })
unfolding query_loop
query_loop-body fuel res res' m c rest h (e, z, fits) a = rw (read_message-frame c m rest h fits) (
    on_query_message-body (query_loop fuel) (discard_until_ready fuel) res res' m
      (record c { input = rest }) e z a)

-- The messages of an answer before its end.
pub query_loop-stream :
    (ms : List Message) (fuel : ℕ) (res res' : QueryResult) (c : Conn) (rest : Bytes)
    → c.deadline_fault ≡ none
    → All IsBody ms
    → absorb_all res ms ≡ ok res'
    → query_loop (length ms + fuel) res (record c { input = stream ms ++ rest })
      ≡ query_loop fuel res' (record c { input = rest })
unfolding absorb_all stream
query_loop-stream [] fuel res res' c rest h b a =
    let e : res ≡ res' = ground arith in let f : 0 + fuel ≡ fuel = omega arith in rw (f, e)
query_loop-stream (m ∷ ms) fuel res res' c rest h b a =
    let (res₁, first, later) = >>=-ok (absorb res m) (λ r. absorb_all r ms) a in
    let f : suc (length ms) + fuel ≡ suc (length ms + fuel) = omega arith in
    rw (f, append_assoc (frame m) (stream ms) rest)
      (query_loop-body (length ms + fuel) res res₁ m c (stream ms ++ rest) h b.0 first
        ∙ query_loop-stream ms fuel res₁ res' c rest h b.1 later)

pub query_loop-ready :
    (fuel : ℕ) (res : QueryResult) (status : Bytes) (c : Conn) (rest : Bytes)
    → c.deadline_fault ≡ none
    → length status + 4 < 2 ^ 32
    → query_loop (suc fuel) res (record c { input = frame (b'Z', status) ++ rest })
      ≡ (ok res, record c { input = rest })
unfolding query_loop on_query_message
query_loop-ready fuel res status c rest h fits =
    rw (read_message-frame c (b'Z', status) rest h fits)

discard_until_ready-stream :
    (ms : List Message) (fuel : ℕ) (status : Bytes) (c : Conn) (rest : Bytes)
    → c.deadline_fault ≡ none
    → All (λ m. (m.0 ≢ b'Z') × Fits m) ms
    → length status + 4 < 2 ^ 32
    → discard_until_ready
        (suc (length ms + fuel))
        (record c { input = stream ms ++ (frame (b'Z', status) ++ rest) })
      ≡ (ok tt, record c { input = rest })
unfolding discard_until_ready stream
discard_until_ready-stream [] fuel status c rest h b fits =
    rw (read_message-frame c (b'Z', status) rest h fits)
discard_until_ready-stream (m ∷ ms) fuel status c rest h b fits =
    let f : suc (length ms) + fuel ≡ suc (length ms + fuel) = omega arith in
    let g : (m.0 == b'Z') ≡ false = ground (arith, b.0.0) in
    rw
      (
        f,
        append_assoc (frame m) (stream ms) (frame (b'Z', status) ++ rest),
        read_message-frame c m (stream ms ++ (frame (b'Z', status) ++ rest)) h b.0.1,
        g,
      )
      (discard_until_ready-stream ms fuel status c rest h b.1 fits)

pub query_loop-error :
    (ms : List Message) (fuel : ℕ) (res : QueryResult) (payload status : Bytes) (c : Conn)
    (rest : Bytes)
    → c.deadline_fault ≡ none
    → length payload + 4 < 2 ^ 32
    → All (λ m. (m.0 ≢ b'Z') × Fits m) ms
    → length status + 4 < 2 ^ 32
    → query_loop (suc (suc (length ms + fuel))) res (record c {
      input = frame (b'E', payload) ++ (stream ms ++ (frame (b'Z', status) ++ rest));
    })
      ≡ (err (server (parse_error_response payload)), record c { input = rest })
unfolding query_loop on_query_message
query_loop-error ms fuel res payload status c rest h fits b fits' =
    rw (read_message-frame c (b'E', payload) (stream ms ++ (frame (b'Z', status) ++ rest)) h fits)
      (rw (discard_until_ready-stream ms fuel status c rest h b fits'))

pub length-stream_le : (ms : List Message) → length ms ≤ length (stream ms)
unfolding stream frame
length-stream_le [] = omega arith
length-stream_le (m ∷ ms) = omega (arith, length-stream_le ms, length-append (frame m) (stream ms))
