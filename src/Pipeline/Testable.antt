-- ===== src/Pipeline/Testable.antt =====
-- packages/go/backend/pipeline/testable_runner.go: the runner that takes a session through the
-- stages.
use streamlation.Prelude.{
  ℕ, zero, suc, ◌+◌, ◌/◌, ◌%◌, true, false, Option, none, some, [], ◌∷◌, ◌++◌, ◌==◌, if◌then◌else◌,
}
use streamlation.Prelude.Int.{ℤ, pos, negsuc}
use streamlation.Prelude.Text.{Bytes, text}
use streamlation.Prelude.Result.{Result, ok, err}
use streamlation.Session.{TranslationSession}
use streamlation.Api.Handlers.{SessionStatusEvent}

-- The four components, over a world `W`, with what passes between them. `count` takes all events
-- from a channel of subtitles and counts them.
pub record TestableRunner (W : Type 0) : Type 1 where
  pub Chunks : Type 0
  pub Transcripts : Type 0
  pub Translations : Type 0
  pub Subtitles : Type 0
  pub normalize : Bytes → W → Result Bytes Chunks × W
  pub recognize : Bytes → Chunks → W → Result Bytes Transcripts × W
  pub translate_stream : Bytes → Transcripts → Bytes → W → Result Bytes Translations × W
  pub stream_subtitles : Bytes → Translations → W → Result Bytes Subtitles × W
  pub count : Subtitles → W → ℕ × W

-- The loop of `itoa`, for a number below the fuel.
unfoldable pub digits_of : ℕ → ℕ → Bytes → Bytes
digits_of zero n digits = digits
digits_of (suc fuel) n digits = elim (n == 0) [
  | true ↦ digits
  | false ↦ digits_of fuel (n / 10) ((b'0' + n % 10) ∷ digits)
]

unfoldable pub natural : ℕ → Bytes
unfolding digits_of text
natural n = if n == 0 then text "0" else digits_of (suc n) n []

-- `none` for the least int64, of which `-n` is again below 0, so that the recursion does not end.
unfoldable pub itoa : ℤ → Option Bytes
unfolding natural
itoa (pos n) = some (natural n)
itoa (negsuc n) = if n == 9223372036854775807 then none else some (b'-' ∷ natural (suc n))

unfoldable pub generated : ℕ → Bytes
unfolding natural text
generated n = text "Generated " ++ (natural n ++ text " subtitles")

module _ {W E : Type 0} (emit : SessionStatusEvent → W → Result E (Unit {0}) × W) where
  unfoldable pub emit_status : Bytes → Bytes → Bytes → Bytes → W → Result E (Unit {0}) × W
  emit_status id stage state detail =
      emit (record { session_id = id; stage = stage; state = state; detail = detail })

  -- `if err := ...; err != nil { return err }`
  unfoldable pub and_then :
      Result E (Unit {0}) × W → (W → Result E (Unit {0}) × W) → Result E (Unit {0}) × W
  and_then (ok _, w) next = next w
  and_then (err e, w) next = (err e, w)

  module _ {A : Type 0} (id stage : Bytes) (detail_of : A → W → Bytes × W)
      (next : A → W → Result E (Unit {0}) × W) where
    unfoldable pub on_detail : A → Bytes × W → Result E (Unit {0}) × W
    unfolding and_then emit_status text
    on_detail a (detail, w) = and_then (emit_status id stage (text "completed") detail w) (next a)

    unfoldable pub on_worked : Result Bytes A × W → Result E (Unit {0}) × W
    unfolding on_detail emit_status text
    on_worked (err e, w) = emit_status id stage (text "failed") e w
    on_worked (ok a, w) = on_detail a (detail_of a w)

    -- A stage: it is running, works, and fails or is completed.
    unfoldable pub run_stage : Bytes → (W → Result Bytes A × W) → W → Result E (Unit {0}) × W
    unfolding and_then emit_status on_worked text
    run_stage starting work w =
        and_then (emit_status id stage (text "running") starting w) (λ w'. on_worked (work w'))

  unfoldable pub plain : {A : Type 0} → Bytes → A → W → Bytes × W
  plain detail a w = (detail, w)

  module _ (r : TestableRunner W) (session : TranslationSession) where
    unfoldable pub counted : r.Subtitles → W → Bytes × W
    unfolding generated
    counted subtitles w = let (n, w') = r.count subtitles w in (generated n, w')

    unfoldable pub output_stage : r.Translations → W → Result E (Unit {0}) × W
    unfolding run_stage counted text
    output_stage translations =
        run_stage session.id (text "output") counted (λ _ w. (ok tt, w))
          (text "Generating subtitles") (r.stream_subtitles session.id translations)

    unfoldable pub translation_stage : r.Transcripts → W → Result E (Unit {0}) × W
    unfolding run_stage plain output_stage text
    translation_stage transcripts =
        run_stage session.id (text "translation") (plain (text "Translation complete")) output_stage
          (text "Translating to " ++ session.target_language)
          (r.translate_stream session.id transcripts session.target_language)

    unfoldable pub asr_stage : r.Chunks → W → Result E (Unit {0}) × W
    unfolding run_stage plain translation_stage text
    asr_stage chunks =
        run_stage session.id (text "asr") (plain (text "Audio transcribed")) translation_stage
          (text "Transcribing audio") (r.recognize session.id chunks)

    unfoldable pub normalization_stage : Bytes → W → Result E (Unit {0}) × W
    unfolding run_stage plain asr_stage text
    normalization_stage source =
        run_stage session.id (text "normalization") (plain (text "Audio normalized")) asr_stage
          (text "Normalizing audio") (r.normalize source)

    unfoldable pub ingestion_stage : Bytes → Bytes → W → Result E (Unit {0}) × W
    unfolding and_then emit_status normalization_stage text
    ingestion_stage ingested source w =
        and_then
          (emit_status session.id (text "ingestion") (text "running")
            (text "Starting stream ingestion") w)
          (λ w1.
            and_then (emit_status session.id (text "ingestion") (text "completed") ingested w1)
              (normalization_stage source))

-- A nil `emit` takes every event.
unfoldable pub or_silent :
    {W E : Type 0}
    → Option (SessionStatusEvent → W → Result E (Unit {0}) × W)
    → SessionStatusEvent
    → W
    → Result E (Unit {0}) × W
or_silent none e w = (ok tt, w)
or_silent (some emit) e w = emit e w

module _ {W E : Type 0} (r : TestableRunner W) (session : TranslationSession)
    (emit : Option (SessionStatusEvent → W → Result E (Unit {0}) × W)) where
  -- `Run`, over no media at all.
  unfoldable pub run : W → Result E (Unit {0}) × W
  unfolding ingestion_stage or_silent text
  run = ingestion_stage (or_silent emit) r session (text "Stream ingested successfully") []

  -- `RunWithReader`, over what the reader yields.
  unfoldable pub run_with_reader : Bytes → W → Result E (Unit {0}) × W
  unfolding ingestion_stage or_silent text
  run_with_reader = ingestion_stage (or_silent emit) r session (text "Stream ingested")
