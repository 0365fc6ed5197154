-- ===== src/Pipeline/Runs.antt =====
-- The runs of packages/go/backend/pipeline/testable_runner.go, from the first event to the last.
use streamlation.Prelude.{ℕ, ◌≡◌, refl, sym, ap, some, List, [], ◌∷◌, ◌++◌, append-nil}
use streamlation.Prelude.Text.{Bytes, text}
use streamlation.Prelude.Decimal.{format_uint}
use streamlation.Prelude.Result.{Result, ok}
use streamlation.Session.{TranslationSession}
use streamlation.Api.Handlers.{SessionStatusEvent}
use streamlation.Pipeline.Testable.{
  TestableRunner, generated, emit_status, plain, counted, output_stage, translation_stage,
  asr_stage, normalization_stage, ingestion_stage, or_silent, run, run_with_reader,
}
use streamlation.Pipeline.Traces.{
  event, OutputTrace, TranslationTrace, AsrTrace, NormalizationTrace, RunTrace, run_trace,
  natural-format_uint,
}
use streamlation.Pipeline.Emits.{all_taken, Emits, Emitting, and_then-Emits, run_stage-Emitting}

-- The log to which `emit` writes each event with its answer, and to which no component does.
pub record Logged (W E : Type 0) (log : W → List (SessionStatusEvent × Result E (Unit {0})))
    (emit : SessionStatusEvent → W → Result E (Unit {0}) × W) (r : TestableRunner W) : Type 0 where
  pub emits : (e : SessionStatusEvent) (w : W) → log (emit e w).1 ≡ log w ++ (e, (emit e w).0) ∷ []
  pub normalizes : (source : Bytes) (w : W) → log (r.normalize source w).1 ≡ log w
  pub recognizes : (id : Bytes) (c : r.Chunks) (w : W) → log (r.recognize id c w).1 ≡ log w
  pub translates :
      (id : Bytes) (t : r.Transcripts) (target : Bytes) (w : W)
      → log (r.translate_stream id t target w).1 ≡ log w
  pub streams :
      (id : Bytes) (t : r.Translations) (w : W) → log (r.stream_subtitles id t w).1 ≡ log w
  pub counts : (s : r.Subtitles) (w : W) → log (r.count s w).1 ≡ log w

module _ {W E : Type 0} (log : W → List (SessionStatusEvent × Result E (Unit {0})))
    (emit : SessionStatusEvent → W → Result E (Unit {0}) × W) (r : TestableRunner W)
    (session : TranslationSession) (logged : Logged W E log emit r) where
  output_stage-Emitting :
      (t : r.Translations)
      → Emitting log emit logged.emits (output_stage emit r session t) (OutputTrace session)
  unfolding output_stage counted generated text Emitting
  output_stage-Emitting t =
      run_stage-Emitting log emit logged.emits session.id (text "output")
        (text "Generating subtitles") (counted emit r session) (λ _ w. (ok tt, w))
        (λ d. (n : ℕ) × (d ≡ text "Generated " ++ (format_uint n ++ text " subtitles")))
        (λ es. es ≡ []) logged.counts
        (λ s w. (
          (r.count s w).0,
          ap (λ digits. text "Generated " ++ (digits ++ text " subtitles"))
              (natural-format_uint (r.count s w).0),
        ))
        (λ s w. (
          [],
          refl,
          record { given = []; written = sym (append-nil (log w)); outcome = all_taken },
        ))
        (r.stream_subtitles session.id t) (logged.streams session.id t)

  translation_stage-Emitting :
      (t : r.Transcripts)
      → Emitting log emit logged.emits
          (translation_stage emit r session t)
          (TranslationTrace session)
  unfolding translation_stage plain text
  translation_stage-Emitting t =
      run_stage-Emitting log emit logged.emits session.id (text "translation")
        (text "Translating to " ++ session.target_language) _ (output_stage emit r session)
        (λ d. d ≡ text "Translation complete") (OutputTrace session) (λ a w. refl) (λ a w. refl)
        output_stage-Emitting (r.translate_stream session.id t session.target_language)
        (logged.translates session.id t session.target_language)

  asr_stage-Emitting :
      (c : r.Chunks)
      → Emitting log emit logged.emits (asr_stage emit r session c) (AsrTrace session)
  unfolding asr_stage plain text
  asr_stage-Emitting c =
      run_stage-Emitting log emit logged.emits session.id (text "asr") (text "Transcribing audio") _
        (translation_stage emit r session) (λ d. d ≡ text "Audio transcribed")
        (TranslationTrace session) (λ a w. refl) (λ a w. refl) translation_stage-Emitting
        (r.recognize session.id c) (logged.recognizes session.id c)

  normalization_stage-Emitting :
      (source : Bytes)
      → Emitting log emit logged.emits
          (normalization_stage emit r session source)
          (NormalizationTrace session)
  unfolding normalization_stage plain text
  normalization_stage-Emitting source =
      run_stage-Emitting log emit logged.emits session.id (text "normalization")
        (text "Normalizing audio") _ (asr_stage emit r session) (λ d. d ≡ text "Audio normalized")
        (AsrTrace session) (λ a w. refl) (λ a w. refl) asr_stage-Emitting (r.normalize source)
        (logged.normalizes source)

  ingestion_stage-Emits :
      (ingested source : Bytes) (w : W)
      → (es : List SessionStatusEvent) × RunTrace session ingested es
        × Emits log emit w (ingestion_stage emit r session ingested source w) es
  unfolding ingestion_stage emit_status text Emitting
  ingestion_stage-Emits ingested source w =
      let first : SessionStatusEvent =
        event session.id (text "ingestion") (text "running") (text "Starting stream ingestion") in
      let second : SessionStatusEvent =
        event session.id (text "ingestion") (text "completed") ingested in
      let w1 = (emit first w).1 in
      let (es, trace, h) = normalization_stage-Emitting source (emit second w1).1 in
      (
        _,
        run_trace trace,
        and_then-Emits log emit logged.emits w first (second ∷ es) (emit first w) _
            (logged.emits first w)
            (and_then-Emits log emit logged.emits w1 second es (emit second w1)
              (normalization_stage emit r session source) (logged.emits second w1) h),
      )

  -- Run and RunWithReader give `emit` the events of a run: the two of the ingestion, then the
  -- stages in their order, each running and then completed or failed, and nothing behind one that
  -- fails. If `emit` fails with an event, it is given nothing behind that event, and its error is
  -- returned; else it is given them all and there is no error.
  pub run-RunTrace :
      (source : Bytes) (w : W)
      → ((es : List SessionStatusEvent) × RunTrace session (text "Stream ingested successfully") es
          × Emits log emit w (run r session (some emit) w) es)
        × ((es : List SessionStatusEvent) × RunTrace session (text "Stream ingested") es
            × Emits log emit w (run_with_reader r session (some emit) source w) es)
  unfolding run run_with_reader or_silent
  run-RunTrace source w = (
    ingestion_stage-Emits (text "Stream ingested successfully") [] w,
    ingestion_stage-Emits (text "Stream ingested") source w,
  )
