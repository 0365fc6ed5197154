-- ===== src/Output.antt =====
-- packages/go/backend/output/stub_generator.go: the subtitles of a session's translations.
pub mod Timestamps
use streamlation.Prelude.{
  ℕ, suc, ◌/◌, ◌%◌, Bool, true, false, List, [], ◌∷◌, ◌++◌, ltb, if◌then◌else◌,
}
use streamlation.Prelude.Text.{Bytes, text}
use streamlation.Prelude.Decimal.{format_uint}

-- The fields of a translation that the generator reads. Times are in nanoseconds, from 0 to 2 ^ 17
-- minutes, within which the source's conversions by way of float64 come to the same integers.
pub record Translation : Type 0 where
  pub start_time : ℕ
  pub end_time : ℕ
  pub translated_text : Bytes

-- `%02d` and `%03d`
unfoldable pub two_digits : ℕ → Bytes
two_digits n = if ltb n 10 then b'0' ∷ format_uint n else format_uint n

unfoldable pub three_digits : ℕ → Bytes
unfolding two_digits
three_digits n = if ltb n 100 then b'0' ∷ two_digits n else format_uint n

-- formatSRTTime and formatVTTTime differ in the byte before the milliseconds. The float64 quotients
-- of d.Hours(), d.Minutes() and d.Seconds(), cut to an int, are these quotients below 2 ^ 17
-- minutes.
unfoldable pub format_time : ℕ → ℕ → Bytes
unfolding two_digits three_digits
format_time point d =
    two_digits (d / 3600000000000)
    ++ b':'
      ∷ (two_digits (d / 60000000000 % 60)
          ++ b':' ∷ (two_digits (d / 1000000000 % 60) ++ point ∷ three_digits (d / 1000000 % 1000)))

unfoldable pub format_srt_time : ℕ → Bytes
unfolding format_time
format_srt_time = format_time b','

unfoldable pub format_vtt_time : ℕ → Bytes
unfolding format_time
format_vtt_time = format_time b'.'

-- A translation as it is received, with whether the context has ended then.
abbrev pub Input : Type 0
Input = Bool × Translation

unfoldable pub cue : (ℕ → Bytes) → ℕ → Translation → Bytes
unfolding text
cue format index t =
    format_uint index
    ++ b'\n'
      ∷ (format t.start_time
          ++ (text " --> "
              ++ (format t.end_time ++ b'\n' ∷ (t.translated_text ++ b'\n' ∷ b'\n' ∷ []))))

-- The cues from `index` on, and whether the context's error is returned with them.
unfoldable pub cues : (ℕ → Bytes) → ℕ → List Input → Bytes × Bool
unfolding cue
cues format index [] = ([], false)
cues format index ((ended, t) ∷ inputs) =
    let rest = cues format (suc index) inputs in
    if ended then ([], true) else (cue format index t ++ rest.0, rest.1)

unfoldable pub generate_srt : List Input → Bytes × Bool
unfolding cues format_srt_time
generate_srt = cues format_srt_time 1

unfoldable pub generate_vtt : List Input → Bytes × Bool
unfolding cues format_vtt_time text
generate_vtt inputs =
    let (body, ended) = cues format_vtt_time 1 inputs in (text "WEBVTT\n\n" ++ body, ended)

pub record SubtitleEvent : Type 0 where
  pub type : Bytes
  pub index : ℕ
  pub start_time : ℕ
  pub end_time : ℕ
  pub text : Bytes
  pub session_id : Bytes

unfoldable pub subtitle_event : Bytes → ℕ → Translation → SubtitleEvent
unfolding text
subtitle_event session_id index t = record {
  type = text "add";
  index = index;
  start_time = t.start_time;
  end_time = t.end_time;
  text = t.translated_text;
  session_id = session_id;
}

-- The events that StreamSubtitles sends; the second mark of a translation is whether its event is
-- sent before the context ends.
unfoldable pub stream_from : Bytes → ℕ → List (Bool × Bool × Translation) → List SubtitleEvent
unfolding subtitle_event
stream_from session_id index [] = []
stream_from session_id index ((ended, sent, t) ∷ inputs) =
    let rest = stream_from session_id (suc index) inputs in
    if ended then [] else if sent then subtitle_event session_id index t ∷ rest else []

unfoldable pub stream_subtitles : Bytes → List (Bool × Bool × Translation) → List SubtitleEvent
unfolding stream_from
stream_subtitles session_id = stream_from session_id 0
