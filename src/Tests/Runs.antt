-- ===== src/Tests/Runs.antt =====
-- Witnesses of the theorems on the runs of packages/go/backend/pipeline, on the jobs of
-- apps/worker/cmd/ingestion and on packages/go/backend/output.
use streamlation.Prelude.{
  length, arith, ◌≡◌, ◌/◌, refl, true, false, none, some, List, [], ◌∷◌, ◌++◌,
}
use streamlation.Prelude.Text.{Bytes, text}
use streamlation.Prelude.Result.{Result, ok, err}
use streamlation.Api.Handlers.{SessionStatusEvent}
use streamlation.Pipeline.Testable.{TestableRunner, run, run_with_reader}
use streamlation.Pipeline.Traces.{RunTrace}
use streamlation.Pipeline.Emits.{Emits}
use streamlation.Pipeline.Runs.{Logged, run-RunTrace}
use streamlation.Ingestion.Jobs
use streamlation.Ingestion.Jobs.{
  Services, IngestionWorker, Failure, Logs, job_events, handle_job, handle_job_lem,
}
use streamlation.Output.{format_srt_time, format_vtt_time}
use streamlation.Output.Timestamps.{parse_time, parse_time-format_srt_time}
use streamlation.Tests.Data.{demo}

abbrev Log : Type 0
Log = List SessionStatusEvent

-- The events that `emit` is given, with its answers.
abbrev Told : Type 0
Told = List (SessionStatusEvent × Result Bytes (Unit {0}))

abbrev written : SessionStatusEvent → Told → Result Bytes (Unit {0}) × Told
written e log = (ok tt, log ++ (e, ok tt) ∷ [])

-- A runner whose recognizer fails.
abbrev deaf : TestableRunner Told
deaf = record {
  Chunks = Bytes;
  Transcripts = Bytes;
  Translations = Bytes;
  Subtitles = Bytes;
  normalize = λ source w. (ok source, w);
  recognize = λ id chunks w. (err (b'e' ∷ []), w);
  translate_stream = λ id t target w. (ok t, w);
  stream_subtitles = λ id t w. (ok t, w);
  count = λ s w. (0, w);
}

abbrev deaf-Logged : Logged Told Bytes (λ log. log) written deaf
deaf-Logged = record {
  emits = λ e w. refl;
  normalizes = λ s w. refl;
  recognizes = λ id c w. refl;
  translates = λ id t g w. refl;
  streams = λ id t w. refl;
  counts = λ s w. refl;
}

run-RunTrace_example :
    ((es : List SessionStatusEvent) × RunTrace demo (text "Stream ingested successfully") es
      × Emits (λ log. log) written [] (run deaf demo (some written) []) es)
    × ((es : List SessionStatusEvent) × RunTrace demo (text "Stream ingested") es
        × Emits (λ log. log) written [] (run_with_reader deaf demo (some written) (1 ∷ []) []) es)
run-RunTrace_example = run-RunTrace (λ log. log) written deaf demo deaf-Logged (1 ∷ []) []

-- A worker whose jobs are completed.
abbrev services : Services Log
services = record {
  ended = λ w. (false, w);
  wait = λ n w. (true, w);
  pop = λ n w. (ok none, w);
  get = λ id w. (ok demo, w);
  publisher = some (λ e w. (true, w ++ e ∷ []));
  ingest = λ s w. (ok tt, w);
}

abbrev worker : IngestionWorker Log
worker = record { services = services; poll_interval = 1; idle_delay = 1 }

worker-Logs : Logs Log worker (λ log. log)
unfolding Jobs.publish_status
worker-Logs = record { publishes = λ e w. refl; gets = λ id w. refl; ingests = λ s w. refl }

handle_job_example :
    handle_job worker (b'j' ∷ []) []
    ≡ []
      ++ job_events worker (λ log. log) worker-Logs (b'j' ∷ []) (worker.services.get (b'j' ∷ []) [])
handle_job_example = handle_job_lem worker (λ log. log) worker-Logs (b'j' ∷ []) []

parse_time-format_srt_time_example :
    (parse_time b',' (format_srt_time 3723004000000) ≡ some (3723004000000 / 1000000))
    × (length (format_srt_time 3723004000000) ≡ 12)
    × (parse_time b'.' (format_vtt_time 3723004000000) ≡ some (3723004000000 / 1000000))
    × (length (format_vtt_time 3723004000000) ≡ 12)
parse_time-format_srt_time_example = parse_time-format_srt_time 3723004000000 (omega arith)
