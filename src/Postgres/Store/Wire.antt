-- ===== src/Postgres/Store/Wire.antt =====
-- The store over the client and the wire: what `Get` and `List` make of a server's answers.
use streamlation.Prelude.{
  ℕ, ◌+◌, ◌%◌, ◌^◌, ◌<◌, ◌≡◌, refl, sym, ap, ◌∙◌, Bool, true, false, Option, none, some, List, [],
  ◌∷◌, ◌++◌, map, arith, ltb, length, All, append-nil, append_assoc,
}
use streamlation.Prelude.Int.{ℤ, pos}
use streamlation.Prelude.Text.{Bytes, text, equal, trim_space, to_lower}
use streamlation.Prelude.Decimal.{format_uint, atoi-format_uint}
use streamlation.Prelude.Result.{ok}
use streamlation.Net.{Conn}
use streamlation.Session.{TranslationSession}
use streamlation.Postgres.Row.{parse_data_row, parse_row_description, parse_command_complete}
use streamlation.Postgres.Row.RoundTrip
use streamlation.Postgres.Row.RoundTrip.{data_row, value_of, parse_data_row-data_row}
use streamlation.Postgres.Client.{QueryResult, simple_query, no_result}
use streamlation.Postgres.Client.Frames.{Message, frame}
use streamlation.Postgres.Client.Sync.{stream, absorb, absorb_all, IsBody}
use streamlation.Postgres.Client.Answers.{after_query, simple_query-ready}
use streamlation.Postgres.Scan.{Dest, Value, assign_value, parse_bool_literal, wrap_int32}
use streamlation.Postgres.Store.{scan_session}
use streamlation.Postgres.Store.Cursor.{scan_all}

-- PostgreSQL's text form of a truth value.
abbrev bool_text : Bool → Bytes
bool_text true = text "t"
bool_text false = text "f"

abbrev int_text : ℤ → Bytes
int_text (pos n) = format_uint n
int_text n = []

-- The row of a session, as the server sends its columns.
unfoldable pub row_of : TranslationSession → List (Option Bytes)
row_of s =
    some s.id
    ∷ some s.source.type
    ∷ some s.source.uri
    ∷ some s.target_language
    ∷ some (bool_text s.options.enable_dubbing)
    ∷ some (int_text s.options.latency_tolerance_ms)
    ∷ some s.options.model_profile
    ∷ []

-- A latency that an INTEGER column holds, and not below 0.
abbrev pub LatencyFits : ℤ → Type 0
LatencyFits (pos n) = n < 2 ^ 31
LatencyFits n = ⊥

-- The session's row can be carried by one message.
pub record IsStorable (s : TranslationSession) : Type 0 where
  pub latency : LatencyFits s.options.latency_tolerance_ms
  pub columns : All RoundTrip.Fits (row_of s)
  pub size : length (data_row (row_of s)) + 4 < 2 ^ 32

read_bool : (b : Bool) → parse_bool_literal (bool_text b) ≡ b
unfolding parse_bool_literal trim_space to_lower equal text
read_bool true = refl
read_bool false = refl

wrap_int32-pos : (n : ℕ) → n < 2 ^ 31 → wrap_int32 (pos n) ≡ pos n
unfolding wrap_int32
wrap_int32-pos n h =
    let e : n % 2 ^ 32 ≡ n = omega arith in
    let f : ltb n (2 ^ 31) ≡ true = ground arith in rw (e, f)

read_latency : (z : ℤ) → LatencyFits z → assign_value (int_text z) Dest.int32 ≡ ok (Value.int32 z)
unfolding assign_value
read_latency (pos n) h = rw (atoi-format_uint n (omega arith), wrap_int32-pos n h)
read_latency (ℤ.negsuc n) h = absurd h

-- A session's row is read back as the session, for every session whose latency an INTEGER column
-- holds and is not below 0.
pub scan_session-row_of :
    (s : TranslationSession)
    → LatencyFits s.options.latency_tolerance_ms
    → scan_session (map value_of (row_of s)) ≡ ok s
unfolding scan_session row_of
scan_session-row_of s h =
    rw (read_bool s.options.enable_dubbing, read_latency s.options.latency_tolerance_ms h)

pub scan_all-row_of :
    (ss : List TranslationSession)
    → All IsStorable ss
    → scan_all (map (λ s. map value_of (row_of s)) ss) ≡ ok ss
unfolding scan_all
scan_all-row_of [] h = refl
scan_all-row_of (s ∷ ss) h = rw (scan_session-row_of s h.0.latency, scan_all-row_of ss h.1)

-- The server's answer to a SELECT: a row description, a row for each session, and the command's
-- tag.
unfoldable pub answer : Bytes → List TranslationSession → Bytes → List Message
answer description ss tag =
    (b'T', description) ∷ (map (λ s. (b'D', data_row (row_of s))) ss ++ (b'C', tag) ∷ [])

-- The parts of an answer that the length of a message can count.
abbrev pub Countable : Bytes → Type 0
Countable payload = length payload + 4 < 2 ^ 32

rows-IsBody :
    (ss : List TranslationSession) (tag : Bytes)
    → All IsStorable ss
    → Countable tag
    → All IsBody (map (λ s. (b'D', data_row (row_of s))) ss ++ (b'C', tag) ∷ [])
rows-IsBody [] tag h t = (((omega arith), (omega arith), t), tt)
rows-IsBody (s ∷ ss) tag h t = (((omega arith), (omega arith), h.0.size), rows-IsBody ss tag h.1 t)

absorb_row :
    (s : TranslationSession) (res : QueryResult)
    → IsStorable s
    → absorb res (b'D', data_row (row_of s))
      ≡ ok (record res { rows = res.rows ++ map value_of (row_of s) ∷ [] })
unfolding absorb
absorb_row s res h =
    let e : parse_data_row (data_row (row_of s)) ≡ ok (map value_of (row_of s)) =
      ap parse_data_row (sym (append-nil (data_row (row_of s))))
      ∙ parse_data_row-data_row (row_of s) [] (unfold row_of in omega arith) h.columns in
    rw e

absorb_all-rows :
    (ss : List TranslationSession) (tag : Bytes) (res : QueryResult)
    → All IsStorable ss
    → absorb_all res (map (λ s. (b'D', data_row (row_of s))) ss ++ (b'C', tag) ∷ [])
      ≡ ok (record res {
        rows = res.rows ++ map (λ s. map value_of (row_of s)) ss;
        command_tag = parse_command_complete tag;
      })
unfolding absorb_all
absorb_all-rows [] tag res h = rw append-nil
absorb_all-rows (s ∷ ss) tag res h = rw (absorb_row s res h.0) (
    absorb_all-rows ss tag _ h.1
    ∙ rw (
        append_assoc res.rows (map value_of (row_of s) ∷ [])
          (map (λ s. map value_of (row_of s)) ss)))

answer-result :
    (description tag : Bytes) (ss : List TranslationSession)
    → All IsStorable ss
    → absorb_all no_result (answer description ss tag)
      ≡ ok (record {
        column_count = parse_row_description description;
        rows = map (λ s. map value_of (row_of s)) ss;
        command_tag = parse_command_complete tag;
      })
unfolding answer absorb_all
answer-result description tag ss h = absorb_all-rows ss tag _ h

-- The client's query, where the server answers with the rows of `ss`.
pub simple_query-answer :
    (c : Conn) (q description tag status rest : Bytes) (ss : List TranslationSession)
    → c.deadline_fault ≡ none
    → c.send_fault ≡ none
    → Countable description
    → Countable tag
    → Countable status
    → All IsStorable ss
    → simple_query q
        (record c { input = stream (answer description ss tag) ++ (frame (b'Z', status) ++ rest) })
      ≡ (
        ok (record {
          column_count = parse_row_description description;
          rows = map (λ s. map value_of (row_of s)) ss;
          command_tag = parse_command_complete tag;
        }),
        after_query c q rest,
      )
simple_query-answer c q description tag status rest ss h s d t z st =
    simple_query-ready c q (answer description ss tag) status rest _ h s
      (unfold answer in ((omega arith, omega arith, d), rows-IsBody ss tag st t)) z
      (answer-result description tag ss st)
