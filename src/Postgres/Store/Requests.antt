-- ===== src/Postgres/Store/Requests.antt =====
-- The store's requests from end to end: the statement on the wire, the server's answer, the result,
-- and the connection afterwards.
use streamlation.Prelude.{◌≡◌, refl, none, List, [], ◌∷◌, ◌++◌, map, if◌then◌else◌, All}
use streamlation.Prelude.Int.{ℤ}
use streamlation.Prelude.Text.{Bytes, text, equal}
use streamlation.Prelude.Result.{Result, ok, err}
use streamlation.Net.{Conn}
use streamlation.Session.{TranslationSession}
use streamlation.Postgres.Failure.{Failure, ServerError, server, session_exists, session_not_found}
use streamlation.Postgres.Row.{parse_error_response}
use streamlation.Postgres.Row.RoundTrip.{value_of}
use streamlation.Postgres.Row.RoundTrip
use streamlation.Postgres.Client.{simple_query, exec, query_row, query, no_result}
use streamlation.Postgres.Client.Frames.{frame}
use streamlation.Postgres.Client.Sync.{stream, absorb_all}
use streamlation.Postgres.Client.Answers.{after_query, simple_query-error}
use streamlation.Postgres.Store.{client_executor, create, get, list, effective_limit}
use streamlation.Postgres.Store.Cursor.{read_all-scan_all}
use streamlation.Postgres.Store.Statements.{insert_statement, one_parameter_statements}
use streamlation.Postgres.Store.Wire.{
  answer, row_of, IsStorable, Countable, scan_session-row_of, scan_all-row_of, simple_query-answer,
}

-- What `Get` returns for the rows of these sessions: the first, or that there is none.
abbrev pub first_session : List TranslationSession → Result Failure TranslationSession
first_session [] = err session_not_found
first_session (s ∷ ss) = ok s

-- Over a connection that can be written to and whose deadline can be set: when the server answers
-- the SELECT of `Get` with the rows of some sessions, `Get` returns the first session, field for
-- field, or ErrSessionNotFound when there is none; and the connection is left right behind the
-- answer. The sessions have a latency from 0 on that an INTEGER holds, and every part of the answer
-- is one that the length of a message can count.
pub get-answer :
    (c : Conn) (id description tag status rest : Bytes) (ss : List TranslationSession)
    → c.deadline_fault ≡ none
    → c.send_fault ≡ none
    → Countable description
    → Countable tag
    → Countable status
    → All IsStorable ss
    → get client_executor id
        (record c { input = stream (answer description ss tag) ++ (frame (b'Z', status) ++ rest) })
      ≡ (first_session ss, after_query c (one_parameter_statements id (ℤ.pos 0)).0.0 rest)
unfolding get query_row
get-answer c id description tag status rest [] h s d t z st =
    let (out, prepared, _) = (one_parameter_statements id (ℤ.pos 0)).0 in
    rw (prepared, simple_query-answer c out description tag status rest [] h s d t z st)
get-answer c id description tag status rest (x ∷ ss) h s d t z st =
    let (out, prepared, _) = (one_parameter_statements id (ℤ.pos 0)).0 in
    rw (
      prepared,
      simple_query-answer c out description tag status rest (x ∷ ss) h s d t z st,
      scan_session-row_of x st.0.latency,
    )

-- When the server answers the SELECT of `List` with the rows of some sessions, `List` returns those
-- sessions, field for field and in the server's order, and the connection is left right behind the
-- answer. The conditions are those of `get-answer`.
pub list-answer :
    (c : Conn) (limit : ℤ) (description tag status rest : Bytes) (ss : List TranslationSession)
    → c.deadline_fault ≡ none
    → c.send_fault ≡ none
    → Countable description
    → Countable tag
    → Countable status
    → All IsStorable ss
    → list client_executor limit
        (record c { input = stream (answer description ss tag) ++ (frame (b'Z', status) ++ rest) })
      ≡ (ok ss, after_query c (one_parameter_statements [] (effective_limit limit)).2.0 rest)
unfolding list query
list-answer c limit description tag status rest ss h s d t z st =
    let (out, prepared, _) = (one_parameter_statements [] (effective_limit limit)).2 in
    rw (
      prepared,
      simple_query-answer c out description tag status rest ss h s d t z st,
      read_all-scan_all (map (λ s. map value_of (row_of s)) ss),
      scan_all-row_of ss st,
    )

-- What `Create` returns when the server reports `e`.
abbrev pub create_failure : ServerError → Failure
create_failure e = if equal e.code (text "23505") then session_exists else server e

-- Over a connection that can be written to and whose deadline can be set, when the server refuses
-- the INSERT of `Create` with fields that the length of a message can count, `Create` returns
-- ErrSessionExists exactly if the value of the last field of type C is 23505, and else an error
-- with the values of the last fields of the types S, C and M; and the connection is left right
-- behind the answer, ready for the next statement.
pub create-refused :
    (c : Conn) (session : TranslationSession) (fields : List RoundTrip.Field) (status rest : Bytes)
    → c.deadline_fault ≡ none
    → c.send_fault ≡ none
    → All RoundTrip.IsField fields
    → Countable (RoundTrip.error_fields fields)
    → Countable status
    → create client_executor session (record c {
      input = frame (b'E', RoundTrip.error_fields fields) ++ (frame (b'Z', status) ++ rest);
    })
      ≡ (
        err (
            create_failure (record {
              severity = RoundTrip.last_value b'S' [] fields;
              code = RoundTrip.last_value b'C' [] fields;
              message = RoundTrip.last_value b'M' [] fields;
            })),
        after_query c (insert_statement session).0 rest,
      )
unfolding create exec
create-refused c session fields status rest h s fs p z =
    let (out, prepared, _) = insert_statement session in
    let refused : simple_query out (record c {
      input = frame (b'E', RoundTrip.error_fields fields) ++ (frame (b'Z', status) ++ rest);
    })
        ≡ (
          err (server (parse_error_response (RoundTrip.error_fields fields))),
          after_query c out rest,
        ) =
      unfold stream absorb_all in
      simple_query-error c out [] (RoundTrip.error_fields fields) [] status rest no_result h s tt
        refl p tt z in
    rw (
      prepared,
      refused,
      RoundTrip.parse_error_response-error_fields fields fs,
      RoundTrip.apply_fields-last_value fields (record { severity = []; code = []; message = [] }),
    )
