-- ===== src/Tests/Answers.antt =====
-- Witnesses of the theorems on the client and the store of packages/go/backend/postgres.
use streamlation.Prelude.{◌≡◌, ◌<◌, ◌+◌, ◌^◌, refl, arith, List, [], ◌∷◌, ◌++◌, length, All}
use streamlation.Prelude.Text.{Bytes, text}
use streamlation.Prelude.Word.{uint16, uint32}
use streamlation.Prelude.Result.{ok, err}
use streamlation.Postgres.Failure.{server, malformed_data_row}
use streamlation.Postgres.Row.{parse_data_row, parse_error_response}
use streamlation.Postgres.Client.{startup_payload, QueryResult, no_result, simple_query}
use streamlation.Postgres.Client.Frames.{frame, Message}
use streamlation.Postgres.Client.Sync.{stream, absorb_all, IsBody}
use streamlation.Postgres.Client.Answers.{
  after_query, simple_query-ready, simple_query-error, simple_query-unreadable,
}
use streamlation.Tests.Data.{idle}

abbrev query : Bytes
query = b'Q' ∷ b'?' ∷ []

short_packet : length (startup_payload (b'u' ∷ []) (b'd' ∷ [])) + 8 < 2 ^ 32
unfolding startup_payload text
short_packet = omega arith

-- A row of one column with the byte 7, and a notice.
abbrev body : List Message
body = (b'D', 0 ∷ 1 ∷ 0 ∷ 0 ∷ 0 ∷ 1 ∷ 7 ∷ []) ∷ (b'N', []) ∷ []

abbrev absorbed : QueryResult
absorbed = record no_result { rows = ((7 ∷ []) ∷ []) ∷ [] }

body-absorbed : absorb_all no_result body ≡ ok absorbed
unfolding absorb_all parse_data_row uint16 uint32
body-absorbed = refl

body-IsBody : All IsBody body
body-IsBody = (
  (λ e. omega (arith, e), λ e. omega (arith, e), omega arith),
  ((λ e. omega (arith, e), λ e. omega (arith, e), omega arith), tt),
)

simple_query-ready_example :
    simple_query query
      (record idle { input = stream body ++ (frame (b'Z', b'I' ∷ []) ++ (9 ∷ [])) })
    ≡ (ok absorbed, after_query idle query (9 ∷ []))
simple_query-ready_example =
    simple_query-ready idle query body (b'I' ∷ []) (9 ∷ []) absorbed refl refl body-IsBody
      (omega arith) body-absorbed

simple_query-error_example :
    simple_query query (record idle {
      input =
          stream body
          ++ (frame (b'E', 0 ∷ []) ++ (stream ((b'N', []) ∷ []) ++ (frame (b'Z', []) ++ (9 ∷ []))));
    })
    ≡ (err (server (parse_error_response (0 ∷ []))), after_query idle query (9 ∷ []))
simple_query-error_example =
    simple_query-error idle query body (0 ∷ []) ((b'N', []) ∷ []) [] (9 ∷ []) absorbed refl refl
      body-IsBody body-absorbed (omega arith) ((λ e. omega (arith, e), omega arith), tt)
      (omega arith)

unreadable : parse_data_row (0 ∷ 1 ∷ []) ≡ err malformed_data_row
unfolding parse_data_row uint16
unreadable = refl

simple_query-unreadable_example :
    simple_query query
      (record idle { input = stream body ++ (frame (b'D', 0 ∷ 1 ∷ []) ++ frame (b'Z', [])) })
    ≡ (err malformed_data_row, after_query idle query (frame (b'Z', [])))
simple_query-unreadable_example =
    simple_query-unreadable idle query body (0 ∷ 1 ∷ []) (frame (b'Z', [])) absorbed refl refl
      body-IsBody body-absorbed (omega arith) unreadable
