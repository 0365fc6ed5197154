-- ===== src/Worker.antt =====
-- apps/worker/cmd/worker/main.go: the worker that takes ingestion jobs through their pipeline.
pub mod Events
pub mod Dispatch
use streamlation.Prelude.{
  ℕ, ◌≡◌, Bool, true, false, Option, none, some, List, [], ◌∷◌, leb, if◌then◌else◌,
}
use streamlation.Prelude.Int.{ℤ, pos, negsuc}
use streamlation.Prelude.Text.{Bytes, text}
use streamlation.Prelude.Decimal.{atoi}
use streamlation.Prelude.Result.{Result, ok, err}
use streamlation.Session.{TranslationSession}
use streamlation.Api.Handlers.{SessionStatusEvent}

-- getWorkerConcurrency, of the environment's text.
unfoldable pub worker_concurrency : Bytes → ℕ
worker_concurrency raw = elim (atoi raw) [
  | none ↦ 4
  | some (negsuc n) ↦ 4
  | some (pos n) ↦ if leb n 0 then 4 else n
]

-- What errors.Is tells of the error of a load.
pub data LoadError : Type 0 where
  session_not_found canceled other : LoadError

pub data RunError : Type 0 where
  canceled : RunError
  -- With the text of the error.
  failed : Bytes → RunError

-- A publisher, or none, and a pipeline, or none, over a world `W`. A pipeline publishes through the
-- function that it is given, which tells whether the publisher took the event.
pub record Processor (W : Type 0) : Type 0 where
  pub get : Bytes → W → Result LoadError TranslationSession × W
  pub publisher : Option (SessionStatusEvent → W → Bool × W)
  pub pipeline : Option (
      TranslationSession → (SessionStatusEvent → W → Bool × W) → W → Result RunError (Unit {0}) × W)

unfoldable pub event : Bytes → Bytes → Bytes → Bytes → SessionStatusEvent
event id stage state detail = record {
  session_id = id;
  stage = stage;
  state = state;
  detail = detail;
}

module _ {W : Type 0} (p : Processor W) where
  unfoldable pub publish_to :
      Option (SessionStatusEvent → W → Bool × W) → SessionStatusEvent → W → Bool × W
  publish_to none e w = (true, w)
  publish_to (some f) e w = f e w

  unfoldable pub publish : SessionStatusEvent → W → Bool × W
  unfolding publish_to
  publish = publish_to p.publisher

  -- An event whose publication may fail.
  unfoldable pub tell : Bytes → Bytes → Bytes → Bytes → W → W
  unfolding publish event
  tell id stage state detail w = (publish (event id stage state detail) w).1

  unfoldable pub on_run : TranslationSession → Result RunError (Unit {0}) × W → W
  unfolding tell text
  on_run s (ok _, w) = w
  on_run s (err RunError.canceled, w) = w
  on_run s (err (failed detail), w) = tell s.id (text "pipeline") (text "error") detail w

  unfoldable pub run_pipeline :
      Option (
        TranslationSession
        → (SessionStatusEvent → W → Bool × W)
        → W
        → Result RunError (Unit {0}) × W)
      → TranslationSession
      → W
      → W
  unfolding on_run publish
  run_pipeline none s w = w
  run_pipeline (some run) s w = on_run s (run s publish w)

  unfoldable pub on_loaded : Bytes → Result LoadError TranslationSession × W → W
  unfolding run_pipeline tell text
  on_loaded id (err session_not_found, w) =
      tell id (text "session") (text "not_found") (text "session missing for ingestion job") w
  on_loaded id (err LoadError.canceled, w) = w
  on_loaded id (err other, w) =
      tell id (text "ingestion") (text "error") (text "failed to load session metadata") w
  on_loaded id (ok s, w) =
      run_pipeline p.pipeline s
        (tell s.id (text "ingestion") (text "ready") (text "ingestion job ready") w)

  unfoldable pub handle_job : Option Bytes → W → W
  unfolding on_loaded tell text
  handle_job none w = w
  handle_job (some id) w =
      on_loaded id
        (p.get id (tell id (text "ingestion") (text "dequeued") (text "ingestion job received") w))
