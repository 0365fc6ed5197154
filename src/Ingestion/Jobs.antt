-- ===== src/Ingestion/Jobs.antt =====
-- apps/worker/cmd/ingestion/worker.go: the worker that takes ingestion jobs from the queue.
use streamlation.Prelude.{
  ℕ, ◌≡◌, ◌∙◌, sym, ap, Bool, true, false, Option, none, some, List, [], ◌∷◌, ◌++◌, append_assoc,
  append-nil,
}
use streamlation.Prelude.Int.{ℤ}
use streamlation.Prelude.Loop.{Round, again, halt, rounds}
use streamlation.Prelude.Text.{Bytes, text}
use streamlation.Prelude.Result.{Result, ok, err}
use streamlation.Session.{TranslationSession}
use streamlation.Api.Handlers.{SessionStatusEvent}
use streamlation.Ingestion.File.{positive_or}

-- What errors.Is tells of an error of Pop, and of Ingest.
pub data Failure : Type 0 where
  canceled other : Failure

-- The queue, the sessions, the publisher, or none, and the ingestor, over a world `W`; a publisher
-- tells whether it took the event.
pub record Services (W : Type 0) : Type 0 where
  pub ended : W → Bool × W
  pub wait : ℕ → W → Bool × W
  pub pop : ℕ → W → Result Failure (Option Bytes) × W
  pub get : Bytes → W → Result Bytes TranslationSession × W
  pub publisher : Option (SessionStatusEvent → W → Bool × W)
  pub ingest : TranslationSession → W → Result Failure (Unit {0}) × W

pub record IngestionWorker (W : Type 0) : Type 0 where
  pub services : Services W
  pub poll_interval : ℕ
  pub idle_delay : ℕ

-- Durations are in nanoseconds.
unfoldable pub new_ingestion_worker : {W : Type 0} → Services W → ℤ → IngestionWorker W
unfolding positive_or
new_ingestion_worker services poll_interval = record {
  services = services;
  poll_interval = positive_or 5000000000 poll_interval;
  idle_delay = 500000000;
}

abbrev pub event : Bytes → Bytes → Bytes → SessionStatusEvent
unfolding text
event id state detail = record {
  session_id = id;
  stage = text "ingestion";
  state = state;
  detail = detail;
}

module _ {W : Type 0} (worker : IngestionWorker W) where
  publish_to : Option (SessionStatusEvent → W → Bool × W) → SessionStatusEvent → W → W
  publish_to none e w = w
  publish_to (some f) e w = (f e w).1

  unfoldable pub publish_status : SessionStatusEvent → W → W
  unfolding publish_to
  publish_status = publish_to worker.services.publisher

  unfoldable pub on_ingested : Bytes → Result Failure (Unit {0}) × W → W
  unfolding publish_status text
  on_ingested id (ok _, w) =
      publish_status (event id (text "completed") (text "ingestion pipeline completed")) w
  on_ingested id (err canceled, w) = w
  on_ingested id (err other, w) =
      publish_status (event id (text "error") (text "ingestion pipeline failed")) w

  unfoldable pub on_session : Bytes → Result Bytes TranslationSession × W → W
  unfolding publish_status on_ingested text
  on_session id (err e, w) =
      publish_status (event id (text "error") (text "failed to load session")) w
  on_session id (ok s, w) = on_ingested s.id (
      worker.services.ingest s
        (publish_status (event s.id (text "started") (text "ingestion pipeline starting")) w))

  unfoldable pub handle_job : Bytes → W → W
  unfolding on_session
  handle_job id w = on_session id (worker.services.get id w)

  on_idle : Bool × W → Round W
  on_idle (true, w) = again w
  on_idle (false, w) = halt w

  unfoldable pub on_popped : Result Failure (Option Bytes) × W → Round W
  unfolding handle_job on_idle
  on_popped (err canceled, w) = halt w
  on_popped (err other, w) = on_idle (worker.services.wait worker.idle_delay w)
  on_popped (ok none, w) = again w
  on_popped (ok (some id), w) = again (handle_job id w)

  on_checked : Bool × W → Round W
  unfolding on_popped
  on_checked (true, w) = halt w
  on_checked (false, w) = on_popped (worker.services.pop worker.poll_interval w)

  -- One round of the worker's loop, and so many of them at most. Run returns the context's error,
  -- or Pop's, which is context.Canceled too.
  unfoldable pub round : W → Round W
  unfolding on_checked
  round w = on_checked (worker.services.ended w)

  unfoldable pub run : ℕ → W → W
  unfolding round
  run = rounds round

-- A publisher that writes a log, which nothing else writes to.
pub record Logs (W : Type 0) (worker : IngestionWorker W) (log : W → List SessionStatusEvent)
    : Type 0 where
  pub publishes :
      (e : SessionStatusEvent) (w : W) → log (publish_status worker e w) ≡ log w ++ e ∷ []
  pub gets : (id : Bytes) (w : W) → log (worker.services.get id w).1 ≡ log w
  pub ingests : (s : TranslationSession) (w : W) → log (worker.services.ingest s w).1 ≡ log w

-- The events of the outcomes of an ingestion, and of a load.
unfoldable pub ingestion_events : Bytes → Result Failure (Unit {0}) → List SessionStatusEvent
unfolding text
ingestion_events id (ok _) = event id (text "completed") (text "ingestion pipeline completed") ∷ []
ingestion_events id (err canceled) = []
ingestion_events id (err other) = event id (text "error") (text "ingestion pipeline failed") ∷ []

module _ {W : Type 0} (worker : IngestionWorker W) (log : W → List SessionStatusEvent)
    (logs : Logs W worker log) where
  -- The world in which a loaded session is ingested.
  started : TranslationSession → W → W
  unfolding text
  started s =
      publish_status worker (event s.id (text "started") (text "ingestion pipeline starting"))

  unfoldable pub job_events : Bytes → Result Bytes TranslationSession × W → List SessionStatusEvent
  unfolding ingestion_events started text
  job_events id (err e, w) = event id (text "error") (text "failed to load session") ∷ []
  job_events id (ok s, w) =
      event s.id (text "started") (text "ingestion pipeline starting")
      ∷ ingestion_events s.id (worker.services.ingest s (started s w)).0

  on_ingested-log :
      (id : Bytes) (r : Result Failure (Unit {0}) × W)
      → log (on_ingested worker id r) ≡ log r.1 ++ ingestion_events id r.0
  unfolding on_ingested ingestion_events
  on_ingested-log id (ok _, w) = logs.publishes _ w
  on_ingested-log id (err canceled, w) = sym (append-nil (log w))
  on_ingested-log id (err other, w) = logs.publishes _ w

  on_session-log :
      (id : Bytes) (r : Result Bytes TranslationSession × W)
      → log (on_session worker id r) ≡ log r.1 ++ job_events id r
  unfolding on_session job_events started
  on_session-log id (err e, w) = logs.publishes _ w
  on_session-log id (ok s, w) =
      on_ingested-log s.id (worker.services.ingest s (started s w))
      ∙ ap (λ l. l ++ ingestion_events s.id (worker.services.ingest s (started s w)).0)
          (logs.ingests s (started s w) ∙ logs.publishes _ w)
      ∙ append_assoc (log w) _ _

  -- The events of a job of the ingestion worker, for every outcome: its session cannot be loaded,
  -- or the ingestion has started and is then completed, has failed, or is cancelled, with no event.
  pub handle_job_lem :
      (id : Bytes) (w : W)
      → log (handle_job worker id w) ≡ log w ++ job_events id (worker.services.get id w)
  unfolding handle_job
  handle_job_lem id w =
      on_session-log id (worker.services.get id w)
      ∙ ap (λ l. l ++ job_events id (worker.services.get id w)) (logs.gets id w)
