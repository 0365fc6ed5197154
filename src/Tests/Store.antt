-- ===== src/Tests/Store.antt =====
-- Witnesses of the theorems on the store of packages/go/backend/postgres.
use streamlation.Prelude.{◌≡◌, refl, arith, List, [], ◌∷◌, ◌++◌, All}
use streamlation.Prelude.Int.{pos}
use streamlation.Prelude.Text.{Bytes, Lacks, text, lacks, lacks→Lacks}
use streamlation.Prelude.Decimal.{format_uint}
use streamlation.Prelude.Word.{put_uint16, put_uint32}
use streamlation.Prelude.Result.{ok, err}
use streamlation.Postgres.Param.Lexer.{lex, outside}
use streamlation.Postgres.Row.RoundTrip.{
  data_row, columns, column, Field, IsField, error_fields, last_value,
}
use streamlation.Postgres.Client.Frames.{frame}
use streamlation.Postgres.Client.Sync.{stream}
use streamlation.Postgres.Client.Answers.{after_query}
use streamlation.Postgres.Store.{client_executor, create, get, list, effective_limit}
use streamlation.Postgres.Store.Statements.{
  insert_statement, one_parameter_statements, insert_tokens,
}
use streamlation.Postgres.Store.Inserts.{HasNoZero, create_result, create-insert_tokens}
use streamlation.Postgres.Client.{simple_query}
use streamlation.Net.{Conn}
use streamlation.Postgres.Store.Wire.{row_of, IsStorable, answer}
use streamlation.Postgres.Store.Requests.{get-answer, list-answer, create-refused, create_failure}
use streamlation.Tests.Data.{idle, demo}

demo-HasNoZero : HasNoZero demo
unfolding lacks
demo-HasNoZero = record {
  id = lacks→Lacks 0 demo.id refl;
  type = lacks→Lacks 0 demo.source.type refl;
  uri = lacks→Lacks 0 demo.source.uri refl;
  target_language = lacks→Lacks 0 demo.target_language refl;
  model_profile = lacks→Lacks 0 demo.options.model_profile refl;
}

create-insert_tokens_example :
    (out : Bytes) × ((c : Conn)
      → create client_executor demo c
        ≡ (create_result (simple_query out c).0, (simple_query out c).1))
    × Lacks 0 out
    × (lex outside out ≡ insert_tokens demo)
create-insert_tokens_example = create-insert_tokens demo demo-HasNoZero

demo-IsStorable : IsStorable demo
unfolding row_of data_row columns column put_uint16 put_uint32 format_uint text
demo-IsStorable = record {
  latency = omega arith;
  columns = (
    omega arith,
    (omega arith, (omega arith, (omega arith, (omega arith, (omega arith, (omega arith, (tt))))))),
  );
  size = omega arith;
}

get-answer_example :
    get client_executor demo.id (record idle {
      input =
          stream (answer (0 ∷ 7 ∷ []) (demo ∷ []) (text "SELECT 1"))
          ++ (frame (b'Z', b'I' ∷ []) ++ (9 ∷ []));
    })
    ≡ (ok demo, after_query idle (one_parameter_statements demo.id (pos 0)).0.0 (9 ∷ []))
unfolding text
get-answer_example =
    get-answer idle demo.id (0 ∷ 7 ∷ []) (text "SELECT 1") (b'I' ∷ []) (9 ∷ []) (demo ∷ []) refl
      refl (omega arith) (omega arith) (omega arith) (demo-IsStorable, tt)

list-answer_example :
    list client_executor (pos 0) (record idle {
      input =
          stream (answer (0 ∷ 7 ∷ []) (demo ∷ []) (text "SELECT 1"))
          ++ (frame (b'Z', b'I' ∷ []) ++ (9 ∷ []));
    })
    ≡ (
      ok (demo ∷ []),
      after_query idle (one_parameter_statements [] (effective_limit (pos 0))).2.0 (9 ∷ []),
    )
unfolding text
list-answer_example =
    list-answer idle (pos 0) (0 ∷ 7 ∷ []) (text "SELECT 1") (b'I' ∷ []) (9 ∷ []) (demo ∷ []) refl
      refl (omega arith) (omega arith) (omega arith) (demo-IsStorable, tt)

abbrev duplicate : List Field
duplicate = (b'C', b'2' ∷ b'3' ∷ b'5' ∷ b'0' ∷ b'5' ∷ []) ∷ []

duplicate-IsField : All IsField duplicate
unfolding lacks
duplicate-IsField =
    ((λ e. omega (arith, e), lacks→Lacks 0 (b'2' ∷ b'3' ∷ b'5' ∷ b'0' ∷ b'5' ∷ []) refl), tt)

create-refused_example :
    create client_executor demo (record idle {
      input = frame (b'E', error_fields duplicate) ++ (frame (b'Z', b'I' ∷ []) ++ (9 ∷ []));
    })
    ≡ (
      err (
          create_failure (record {
            severity = last_value b'S' [] duplicate;
            code = last_value b'C' [] duplicate;
            message = last_value b'M' [] duplicate;
          })),
      after_query idle (insert_statement demo).0 (9 ∷ []),
    )
unfolding error_fields
create-refused_example =
    create-refused idle demo duplicate (b'I' ∷ []) (9 ∷ []) refl refl duplicate-IsField
      (omega arith) (omega arith)
