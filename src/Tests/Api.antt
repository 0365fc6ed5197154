-- ===== src/Tests/Api.antt =====
-- Witnesses of the theorems on apps/api/cmd/server and apps/worker/cmd/worker.
use streamlation.Prelude.{
  ◌≡◌, refl, arith, inl, inr, Bool, Option, some, none, true, false, List, [], ◌∷◌, ◌++◌,
  if◌then◌else◌,
}
use streamlation.Prelude.Text.{Bytes, text, equal}
use streamlation.Prelude.Result.{Result, ok, err}
use streamlation.Net.{NetError}
use streamlation.Session.{TranslationSession}
use streamlation.Api.Input.{normalize_and_validate_session}
use streamlation.Api.Input.Valid.{
  input_of, IsAcceptable, normalize-input_of, normalize-IsAcceptable,
}
use streamlation.Api.Handlers.{
  StoreError, session_exists, session_not_found, Backend, SessionStatusEvent,
  create_session_handler, limit_of,
}
use streamlation.Api.Handlers
use streamlation.Api.Handlers.Rollback.{
  View, IsReliable, CreatedOrRefused, create_session_handler_lem,
}
use streamlation.Api.WebSocket.{websocket_read_loop}
use streamlation.Api.WebSocket.Reading.{
  ClientFrame, frames, answers, Answered, websocket_read_loop-frames,
}
use streamlation.Worker.{Processor, RunError, failed, event, publish, handle_job}
use streamlation.Worker.Events.{Logs, later, begun, handle_job-log}
use streamlation.Tests.Data.{idle, demo}

abbrev any_uri : Bytes → Bool
any_uri uri = true

demo-IsAcceptable : IsAcceptable any_uri demo
unfolding text
demo-IsAcceptable = (
  (
    inl (omega arith, omega arith),
    (
      inl (omega arith, omega arith),
      (
        inl (omega arith, omega arith),
        (
          inl (omega arith, omega arith),
          (
            inr (inr (inr (inr refl))),
            (
              inr (inr (inl (omega arith, omega arith))),
              (
                inr (inr (inl (omega arith, omega arith))),
                (inr (inr (inl (omega arith, omega arith))), (tt)),
              ),
            ),
          ),
        ),
      ),
    ),
  ),
  (omega arith, omega arith),
  inl refl,
  refl,
  (refl, ((omega arith, omega arith), ((omega arith, omega arith), tt))),
  omega arith,
  inl refl,
)

accepted_demo : normalize_and_validate_session any_uri (input_of demo) ≡ ok demo
accepted_demo = normalize-input_of any_uri demo demo-IsAcceptable

normalize-IsAcceptable_example : IsAcceptable any_uri demo
normalize-IsAcceptable_example = normalize-IsAcceptable any_uri (input_of demo) demo accepted_demo

-- A store that is a table, with a queue that refuses every job and without a publisher.
abbrev Table : Type 0
Table = Bytes → Option TranslationSession

abbrev view : View Table
view w id = w id

create_in :
    TranslationSession → Table → Option TranslationSession → Result StoreError (Unit {0}) × Table
create_in s w (some t) = (err session_exists, w)
create_in s w none = (ok tt, λ id. if equal id s.id then some s else w id)

abbrev table : Backend Table
table = record {
  create = λ s w. create_in s w (w s.id);
  get = λ id w. (err session_not_found, w);
  delete = λ id w. (ok tt, λ j. if equal j id then none else w j);
  list = λ limit w. (ok [], w);
  enqueue_ingestion = λ id w. (false, w);
  publisher = none;
}

create_in-ok :
    (s : TranslationSession) (w : Table) (o : Option TranslationSession)
    → (create_in s w o).0 ≡ ok tt
    → (o ≡ none)
      × ((id : Bytes) → (create_in s w o).1 id ≡ (if equal id s.id then some s else w id))
unfolding create_in
create_in-ok s w none h = (refl, λ id. refl)
create_in-ok s w (some t) h = cc

create_in-err :
    (s : TranslationSession) (w : Table) (o : Option TranslationSession) (e : StoreError)
    → (create_in s w o).0 ≡ err e
    → (id : Bytes) → (create_in s w o).1 id ≡ w id
unfolding create_in
create_in-err s w none e h = cc
create_in-err s w (some t) e h = λ id. refl

table-IsReliable : IsReliable view table
unfolding Handlers.publish
table-IsReliable = record {
  create-ok = λ s w. create_in-ok s w (w s.id);
  create-err = λ s w. create_in-err s w (w s.id);
  delete-view = λ id w j. refl;
  enqueue-Same = λ id w j. refl;
  publish-Same = λ e w j. refl;
}

create_session_handler_example :
    CreatedOrRefused view
      (λ id. none)
      (create_session_handler table any_uri (text "POST") (some (input_of demo)) (λ id. none))
create_session_handler_example =
    create_session_handler_lem view table table-IsReliable any_uri (text "POST")
      (some (input_of demo)) (λ id. none)

-- A masked ping, a text frame and a close frame.
abbrev sent : List ClientFrame
sent =
    record { first = 137; key = some (1 ∷ 2 ∷ 3 ∷ 4 ∷ []); payload = 7 ∷ [] }
    ∷ record { first = 129; key = none; payload = [] }
    ∷ record { first = 136; key = none; payload = [] }
    ∷ []

websocket_read_loop-frames_example :
    Answered []
      (answers NetError.eof none sent)
      (websocket_read_loop none (record idle { input = frames sent; ending = NetError.eof }))
websocket_read_loop-frames_example =
    websocket_read_loop-frames sent none idle NetError.eof (refl, refl)
      (refl, omega arith, (tt, omega arith, (tt, omega arith, tt)))

-- A processor whose world is the log of its events, and whose pipeline publishes one of its own.
abbrev step : TranslationSession → SessionStatusEvent
step s = event s.id [] [] []

abbrev run :
    TranslationSession
    → (SessionStatusEvent → List SessionStatusEvent → Bool × List SessionStatusEvent)
    → List SessionStatusEvent
    → Result RunError (Unit {0}) × List SessionStatusEvent
run s publish_event w = (err (failed []), (publish_event (step s) w).1)

abbrev processor : Processor (List SessionStatusEvent)
processor = record {
  get = λ id w. (ok demo, w);
  publisher = some (λ e w. (true, w ++ e ∷ []));
  pipeline = some run;
}

processor-Logs : Logs processor (λ w. w)
unfolding publish
processor-Logs = record {
  run = run;
  pipeline-run = refl;
  progress = λ s w. step s ∷ [];
  log-publish = λ e w. refl;
  log-get = λ id w. refl;
  log-run = λ s w. refl;
}

handle_job-log_example :
    handle_job processor (some demo.id) []
    ≡ event demo.id (text "ingestion") (text "dequeued") (text "ingestion job received")
      ∷ later processor
          (λ w. w)
          processor-Logs
          demo.id
          (processor.get demo.id (begun processor (λ w. w) processor-Logs demo.id []))
handle_job-log_example = handle_job-log processor (λ w. w) processor-Logs demo.id []
