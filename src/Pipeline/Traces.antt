-- ===== src/Pipeline/Traces.antt =====
-- The events of a run in packages/go/backend/pipeline/testable_runner.go.
use streamlation.Prelude.{
  ℕ, zero, suc, ◌≡◌, ◌≤◌, ◌<◌, ◌+◌, ◌/◌, ◌%◌, arith, refl, false, Bool-cases, inl, inr, List, [],
  ◌∷◌, ◌++◌, ltb, ◌==◌,
}
use streamlation.Prelude.Text.{Bytes, text}
use streamlation.Prelude.Decimal.{digits_onto, format_uint}
use streamlation.Session.{TranslationSession}
use streamlation.Api.Handlers.{SessionStatusEvent}
use streamlation.Pipeline.Testable.{digits_of, natural}

abbrev pub event : Bytes → Bytes → Bytes → Bytes → SessionStatusEvent
event id stage state detail = record {
  session_id = id;
  stage = stage;
  state = state;
  detail = detail;
}

-- The events of a stage and of what is behind it: the stage fails, or it is completed, with a
-- detail in `Done`, and the events of the next stages follow.
pub data StageTrace (id stage starting : Bytes) (Done : Bytes → Type 0)
    (Next : List SessionStatusEvent → Type 0) : List SessionStatusEvent → Type 0 where
  failed :
      (error : Bytes)
      → StageTrace id stage starting Done Next
          (event id stage (text "running") starting ∷ event id stage (text "failed") error ∷ [])
  completed :
      (detail : Bytes) {es : List SessionStatusEvent}
      → Done detail
      → Next es
      → StageTrace id stage starting Done Next
          (event id stage (text "running") starting ∷ event id stage (text "completed") detail ∷ es)

module _ (session : TranslationSession) where
  abbrev pub OutputTrace : List SessionStatusEvent → Type 0
  unfolding text
  OutputTrace =
      StageTrace session.id (text "output") (text "Generating subtitles")
        (λ d. (n : ℕ) × (d ≡ text "Generated " ++ (format_uint n ++ text " subtitles")))
        (λ es. es ≡ [])

  abbrev pub TranslationTrace : List SessionStatusEvent → Type 0
  unfolding text
  TranslationTrace =
      StageTrace session.id (text "translation") (text "Translating to " ++ session.target_language)
        (λ d. d ≡ text "Translation complete") OutputTrace

  abbrev pub AsrTrace : List SessionStatusEvent → Type 0
  unfolding text
  AsrTrace =
      StageTrace session.id (text "asr") (text "Transcribing audio")
        (λ d. d ≡ text "Audio transcribed") TranslationTrace

  abbrev pub NormalizationTrace : List SessionStatusEvent → Type 0
  unfolding text
  NormalizationTrace =
      StageTrace session.id (text "normalization") (text "Normalizing audio")
        (λ d. d ≡ text "Audio normalized") AsrTrace

  -- The events of a run in which every event is taken.
  pub data RunTrace (ingested : Bytes) : List SessionStatusEvent → Type 0 where
    run_trace :
        {es : List SessionStatusEvent}
        → NormalizationTrace es
        → RunTrace ingested (
            event session.id (text "ingestion") (text "running") (text "Starting stream ingestion")
            ∷ event session.id (text "ingestion") (text "completed") ingested
            ∷ es)

digits_of-zero : (f : ℕ) (out : Bytes) → digits_of f 0 out ≡ out
unfolding digits_of
digits_of-zero zero out = refl
digits_of-zero (suc f) out = refl

-- The two printers of numbers agree.
digits_of-digits_onto :
    (f g n : ℕ) (out : Bytes) → 0 < n → n < f → n < g → digits_of f n out ≡ digits_onto g n out
unfolding digits_of digits_onto
digits_of-digits_onto zero g n out pos lf lg = absurd (omega arith)
digits_of-digits_onto (suc f) zero n out pos lf lg = absurd (omega arith)
digits_of-digits_onto (suc f) (suc g) n out pos lf lg =
    let e : (n == 0) ≡ false = ground arith in
    elim (Bool-cases (ltb n 10)) [
      | inl h ↦
          let lt : n < 10 = ground (arith, h) in
          let q : n / 10 ≡ 0 = omega arith in
          let r : n % 10 ≡ n = omega arith in
          rw (digits_of, e, digits_onto, h, q, r) (digits_of-zero f ((b'0' + n) ∷ out))
      | inr h ↦
          let ge : 10 ≤ n = ground (arith, h) in
          rw (digits_of, e, digits_onto, h)
            (digits_of-digits_onto f g (n / 10) _ (omega arith) (omega arith) (omega arith))
    ]

pub natural-format_uint : (n : ℕ) → natural n ≡ format_uint n
unfolding natural format_uint text digits_onto
natural-format_uint zero = refl
natural-format_uint (suc n) =
    let e : (suc n == 0) ≡ false = ground arith in
    rw e (
      digits_of-digits_onto (suc (suc n)) (suc (suc n)) (suc n) [] (omega arith) (omega arith)
        (omega arith))
