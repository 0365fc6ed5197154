-- ===== src/Postgres/Client/Answers.antt =====
-- simpleQuery on whole answers of the server: one that ends well, one with an error, and one with a
-- row that the client cannot read.
use streamlation.Prelude.{
  ℕ, suc, ◌+◌, ◌-◌, ◌^◌, ◌<◌, ◌≡◌, ◌≢◌, ◌∙◌, none, List, ◌++◌, arith, length, length-append, All,
}
use streamlation.Prelude.Text.{Bytes}
use streamlation.Prelude.Result.{ok, err}
use streamlation.Net.{Conn}
use streamlation.Net.Laws.{set_deadline-none, write-none}
use streamlation.Postgres.Failure.{Failure, net, server}
use streamlation.Postgres.Row.{parse_data_row, parse_error_response}
use streamlation.Postgres.Client.{
  QueryResult, on_query_message, query_loop, simple_query, no_result, query_message,
}
use streamlation.Postgres.Client.Frames.{Message, frame, Fits, read_message-frame}
use streamlation.Postgres.Client.Sync.{
  stream, absorb_all, IsBody, query_loop-stream, query_loop-ready, query_loop-error,
  length-stream_le,
}

-- The connection behind a query, with this input left.
abbrev pub after_query : Conn → Bytes → Bytes → Conn
after_query c query rest = record c { input = rest; output = c.output ++ query_message query }

simple_query-loop :
    (c : Conn) (query input : Bytes)
    → c.deadline_fault ≡ none
    → c.send_fault ≡ none
    → simple_query query (record c { input = input })
      ≡ query_loop (suc (length input)) no_result (after_query c query input)
unfolding simple_query
simple_query-loop c query input h s = rw (
  set_deadline-none net (record c { input = input }) h,
  write-none net (query_message query) (record c { input = input }) s,
)

-- Over a connection that can be written to and whose deadline can be set, with messages that their
-- lengths can count: when the server answers with any row descriptions, readable rows, command tags
-- and messages that the client passes over, and then ReadyForQuery, simpleQuery returns what they
-- add up to, in order, and the connection is left right behind the answer, with the framed query
-- written.
pub simple_query-ready :
    (c : Conn) (query : Bytes) (ms : List Message) (status rest : Bytes) (res : QueryResult)
    → c.deadline_fault ≡ none
    → c.send_fault ≡ none
    → All IsBody ms
    → length status + 4 < 2 ^ 32
    → absorb_all no_result ms ≡ ok res
    → simple_query query (record c { input = stream ms ++ (frame (b'Z', status) ++ rest) })
      ≡ (ok res, after_query c query rest)
simple_query-ready c query ms status rest res h s b fits a =
    let input = stream ms ++ (frame (b'Z', status) ++ rest) in
    let e : suc (length input) ≡ length ms + suc (length input - length ms) =
      omega
        (arith, length-stream_le ms, length-append (stream ms) (frame (b'Z', status) ++ rest)) in
    simple_query-loop c query input h s
    ∙ rw e (
        query_loop-stream ms (suc (length input - length ms)) no_result res
          (after_query c query input) (frame (b'Z', status) ++ rest) h b a
        ∙ query_loop-ready (length input - length ms) res status (after_query c query input) rest h
            fits)

-- Over a connection that can be written to and whose deadline can be set, with messages that their
-- lengths can count: when the server reports an error in an answer and sends anything else before
-- ReadyForQuery, simpleQuery returns the server's error, and the connection is left right behind
-- the answer: it can be used for the next query.
pub simple_query-error :
    (c : Conn) (query : Bytes) (before : List Message) (payload : Bytes) (behind : List Message)
    (status rest : Bytes) (res : QueryResult)
    → c.deadline_fault ≡ none
    → c.send_fault ≡ none
    → All IsBody before
    → absorb_all no_result before ≡ ok res
    → length payload + 4 < 2 ^ 32
    → All (λ m. (m.0 ≢ b'Z') × Fits m) behind
    → length status + 4 < 2 ^ 32
    → simple_query query (record c {
      input =
          stream before
          ++ (frame (b'E', payload) ++ (stream behind ++ (frame (b'Z', status) ++ rest)));
    })
      ≡ (err (server (parse_error_response payload)), after_query c query rest)
simple_query-error c query before payload behind status rest res h s b a fits bs fits' =
    let answer = frame (b'E', payload) ++ (stream behind ++ (frame (b'Z', status) ++ rest)) in
    let input = stream before ++ answer in
    let spare = length input - length before - length behind - 1 in
    let e : suc (length input) ≡ length before + suc (suc (length behind + spare)) =
      unfold frame in
      omega (
        arith,
        length-stream_le before,
        length-stream_le behind,
        length-append (stream before) answer,
        length-append (frame (b'E', payload)) (stream behind ++ (frame (b'Z', status) ++ rest)),
        length-append (stream behind) (frame (b'Z', status) ++ rest),
      ) in
    simple_query-loop c query input h s
    ∙ rw e (
        query_loop-stream before (suc (suc (length behind + spare))) no_result res
          (after_query c query input) answer h b a
        ∙ query_loop-error behind spare res payload status (after_query c query input) rest h fits
            bs fits')

query_loop-unreadable :
    (fuel : ℕ) (res : QueryResult) (payload : Bytes) (c : Conn) (rest : Bytes) {e : Failure}
    → c.deadline_fault ≡ none
    → length payload + 4 < 2 ^ 32
    → parse_data_row payload ≡ err e
    → query_loop (suc fuel) res (record c { input = frame (b'D', payload) ++ rest })
      ≡ (err e, record c { input = rest })
unfolding query_loop on_query_message
query_loop-unreadable fuel res payload c rest h fits p =
    rw (read_message-frame c (b'D', payload) rest h fits) (rw p)

-- Over a connection that can be written to and whose deadline can be set, with messages that their
-- lengths can count: when a row of an answer cannot be read, simpleQuery returns that error and
-- leaves the rest of the answer on the connection: the next query on it reads the messages of this
-- one.
pub simple_query-unreadable :
    (c : Conn) (query : Bytes) (before : List Message) (payload rest : Bytes) (res : QueryResult)
    {e : Failure}
    → c.deadline_fault ≡ none
    → c.send_fault ≡ none
    → All IsBody before
    → absorb_all no_result before ≡ ok res
    → length payload + 4 < 2 ^ 32
    → parse_data_row payload ≡ err e
    → simple_query query (record c { input = stream before ++ (frame (b'D', payload) ++ rest) })
      ≡ (err e, after_query c query rest)
simple_query-unreadable c query before payload rest res h s b a fits p =
    let input = stream before ++ (frame (b'D', payload) ++ rest) in
    let f : suc (length input) ≡ length before + suc (length input - length before) = omega (
      arith,
      length-stream_le before,
      length-append (stream before) (frame (b'D', payload) ++ rest),
    ) in
    simple_query-loop c query input h s
    ∙ rw f (
        query_loop-stream before (suc (length input - length before)) no_result res
          (after_query c query input) (frame (b'D', payload) ++ rest) h b a
        ∙ query_loop-unreadable (length input - length before) res payload
            (after_query c query input) rest h fits p)
