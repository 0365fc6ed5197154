-- ===== src/Worker/Events.antt =====
-- The events that a job brings about in apps/worker/cmd/worker/main.go.
use streamlation.Prelude.{
  ◌≡◌, ◌≤◌, ◌∙◌, arith, Bool, none, some, List, [], ◌∷◌, ◌++◌, append_assoc, append-nil, sym, leb,
  if◌then◌else◌,
}
use streamlation.Prelude.Int.{pos, negsuc}
use streamlation.Prelude.Text.{Bytes, text}
use streamlation.Prelude.Decimal.{atoi}
use streamlation.Prelude.Result.{Result, ok, err}
use streamlation.Session.{TranslationSession}
use streamlation.Api.Handlers.{SessionStatusEvent}
use streamlation.Worker.{
  worker_concurrency, LoadError, session_not_found, other, RunError, failed, Processor, event,
  publish, tell, on_run, run_pipeline, on_loaded, handle_job,
}

-- A processor with a pipeline, whose publisher writes a log of the events that it is given, which
-- nothing else writes to: loading a session leaves it, and the pipeline adds the events `progress`
-- that it publishes of the session in the world in which it runs, where its context may end and a
-- publication may fail at any of them.
pub record Logs {W : Type 0} (p : Processor W) (log : W → List SessionStatusEvent) : Type 0 where
  pub run :
      TranslationSession → (SessionStatusEvent → W → Bool × W) → W → Result RunError (Unit {0}) × W
  pub pipeline-run : p.pipeline ≡ some run
  pub progress : TranslationSession → W → List SessionStatusEvent
  pub log-publish : (e : SessionStatusEvent) (w : W) → log (publish p e w).1 ≡ log w ++ e ∷ []
  pub log-get : (id : Bytes) (w : W) → log (p.get id w).1 ≡ log w
  pub log-run :
      (s : TranslationSession) (w : W) → log (run s (publish p) w).1 ≡ log w ++ progress s w

-- The events behind the loading of a session, by the outcomes of the load and of the pipeline.
unfoldable pub after_run : TranslationSession → Result RunError (Unit {0}) → List SessionStatusEvent
unfolding event text
after_run s (ok _) = []
after_run s (err RunError.canceled) = []
after_run s (err (failed detail)) = event s.id (text "pipeline") (text "error") detail ∷ []

module _ {W : Type 0} (p : Processor W) (log : W → List SessionStatusEvent)
    (logs : Logs p log) where
  -- The world in which a job's session is loaded.
  unfoldable pub begun : Bytes → W → W
  unfolding tell text
  begun id = tell p id (text "ingestion") (text "dequeued") (text "ingestion job received")

  -- The world in which a loaded session's pipeline runs.
  unfoldable pub readied : TranslationSession → W → W
  unfolding tell text
  readied s = tell p s.id (text "ingestion") (text "ready") (text "ingestion job ready")

  -- The events behind the first one.
  unfoldable pub later : Bytes → Result LoadError TranslationSession × W → List SessionStatusEvent
  unfolding event after_run readied text
  later id (err session_not_found, w) =
      event id (text "session") (text "not_found") (text "session missing for ingestion job") ∷ []
  later id (err LoadError.canceled, w) = []
  later id (err other, w) =
      event id (text "ingestion") (text "error") (text "failed to load session metadata") ∷ []
  later id (ok s, w) =
      event s.id (text "ingestion") (text "ready") (text "ingestion job ready")
      ∷ (logs.progress s (readied s w) ++ after_run s (logs.run s (publish p) (readied s w)).0)

  log-tell :
      (id stage state detail : Bytes) (w : W)
      → log (tell p id stage state detail w) ≡ log w ++ event id stage state detail ∷ []
  unfolding tell
  log-tell id stage state detail w = logs.log-publish (event id stage state detail) w

  on_run-log :
      (s : TranslationSession) (r : Result RunError (Unit {0}) × W)
      → log (on_run p s r) ≡ log r.1 ++ after_run s r.0
  unfolding on_run after_run
  on_run-log s (ok _, w) = sym (append-nil (log w))
  on_run-log s (err RunError.canceled, w) = sym (append-nil (log w))
  on_run-log s (err (failed detail), w) = log-tell s.id _ _ detail w

  run_pipeline-log :
      (s : TranslationSession) (w : W)
      → log (run_pipeline p p.pipeline s w)
        ≡ log w ++ (logs.progress s w ++ after_run s (logs.run s (publish p) w).0)
  unfolding run_pipeline
  run_pipeline-log s w = rw (
    logs.pipeline-run,
    on_run-log s (logs.run s (publish p) w),
    logs.log-run s w,
    append_assoc (log w) (logs.progress s w) (after_run s (logs.run s (publish p) w).0),
  )

  on_loaded-log :
      (id : Bytes) (r : Result LoadError TranslationSession × W)
      → log (on_loaded p id r) ≡ log r.1 ++ later id r
  unfolding on_loaded later readied
  on_loaded-log id (err session_not_found, w) = log-tell id _ _ _ w
  on_loaded-log id (err LoadError.canceled, w) = sym (append-nil (log w))
  on_loaded-log id (err other, w) = log-tell id _ _ _ w
  on_loaded-log id (ok s, w) =
      run_pipeline-log s (readied s w)
      ∙ rw (log-tell s.id (text "ingestion") (text "ready") (text "ingestion job ready") w)
          (append_assoc (log w) _ _)

  -- The events of a job, with a pipeline and a publisher that writes the log, in their order, for
  -- every outcome of the load and of the pipeline: it is dequeued; then its session is not found,
  -- or cannot be loaded, or it is ready and the pipeline's events follow, behind them the error of
  -- a pipeline that failed. A cancelled load or pipeline adds none.
  pub handle_job-log :
      (id : Bytes) (w : W)
      → log (handle_job p (some id) w)
        ≡ log w
          ++ event id (text "ingestion") (text "dequeued") (text "ingestion job received")
            ∷ later id (p.get id (begun id w))
  unfolding handle_job begun
  handle_job-log id w =
      on_loaded-log id (p.get id (begun id w))
      ∙ rw (logs.log-get id (begun id w)) (
          rw (log-tell id (text "ingestion") (text "dequeued") (text "ingestion job received") w)
            (append_assoc (log w) _ _))

-- A configured concurrency is at least one, whatever the environment holds.
pub worker_concurrency_positive : (raw : Bytes) → 1 ≤ worker_concurrency raw
unfolding worker_concurrency
worker_concurrency_positive raw =
    elim (atoi raw)
      as (λ r.
        1 ≤ (elim r [ none ↦ 4 | some (negsuc n) ↦ 4 | some (pos n) ↦ if leb n 0 then 4 else n ])) [
          | none ↦ omega arith
          | some (negsuc n) ↦ omega arith
          | some (pos n) ↦ ground arith
        ]
