-- ===== src/Tests/Shutdown.antt =====
-- Witnesses of the theorems on the dispatch of jobs in apps/worker/cmd/worker/main.go and on the
-- streams of packages/go/backend/status/redis.go.
use streamlation.Prelude.{ℕ, ◌≡◌, ◌≤◌, ◌+◌, refl, arith, true, false, none, some, [], ◌∷◌, ◌++◌}
use streamlation.Prelude.Text.{Bytes, text, equal}
use streamlation.Prelude.Result.{Result, ok}
use streamlation.Worker.Dispatch.{
  Dispatch, begin, sending, Step, go_on, pop_job, cancel, give_up, Steps, nil, cons,
}
use streamlation.Worker.Dispatch.Accounts.{IsAccounted}
use streamlation.Worker.Dispatch.Kept.{dispatch-IsAccounted}
use streamlation.Worker.Dispatch.Shutdown.{
  IsOver, left_to_do, count, shutdown-IsOver, count-left_to_do,
}
use streamlation.Redis.Client.Subscription.{Message}
use streamlation.Api.Handlers.{SessionStatusEvent}
use streamlation.Status
use streamlation.Status.{StatusStream, opened}
use streamlation.Status.Delivery.{pending, events_of, IsStuck, opened-events_of, stuck-IsStuck}

-- One worker; the job 7 is popped, and then the context ends.
abbrev cut_off : Dispatch ℕ
cut_off = record {
  canceled = true;
  phase = sending 7;
  buffer = [];
  selecting = 1;
  draining = 0;
  busy = [];
  gone = 0;
  popped = 7 ∷ [];
  handled = [];
  dropped = [];
}

abbrev to_cut_off : Steps 1 (begin 1) cut_off
unfolding begin
to_cut_off = cons (go_on refl refl) (cons (pop_job 7 refl) (cons (cancel refl) nil))

abbrev given_up :
    Steps 1 cut_off
      (record cut_off { phase = streamlation.Worker.Dispatch.returned; dropped = 7 ∷ [] })
given_up = cons (give_up 7 refl refl) nil

dispatch-IsAccounted_example : IsAccounted 1 1 cut_off
dispatch-IsAccounted_example = dispatch-IsAccounted 1 1 cut_off to_cut_off

shutdown-IsOver_example : (t : Dispatch ℕ) × Steps 1 cut_off t × IsOver 1 1 t
shutdown-IsOver_example = shutdown-IsOver 1 1 cut_off (omega arith) to_cut_off refl

count-left_to_do_example :
    count 1 1 given_up
      + left_to_do
          (record cut_off { phase = streamlation.Worker.Dispatch.returned; dropped = 7 ∷ [] })
    ≤ left_to_do cut_off
count-left_to_do_example =
    count-left_to_do 1 1 cut_off
      (record cut_off { phase = streamlation.Worker.Dispatch.returned; dropped = 7 ∷ [] }) given_up
      refl

-- A codec that takes each text for the detail of an event.
abbrev to_event : Bytes → Result Bytes SessionStatusEvent
to_event b = ok (record { session_id = []; stage = []; state = []; detail = b })

abbrev hello : Message
unfolding text
hello = record { kind = text "message"; channel = b'c' ∷ []; payload = b'h' ∷ [] }

abbrev hello_event : SessionStatusEvent
hello_event = record { session_id = b's' ∷ []; stage = []; state = []; detail = b'h' ∷ [] }

abbrev sending_hello : StatusStream
sending_hello = record {
  incoming = [];
  failure = none;
  sending = some hello_event;
  buffer = [];
  errors = none;
  taken = [];
  reader_left = false;
  done = false;
}

abbrev to_hello : Status.Steps to_event (b's' ∷ []) (opened (hello ∷ []) none) sending_hello
unfolding opened Status.on_decoded Status.decode Status.with_session text equal
to_hello = Status.cons (Status.receive hello [] refl refl refl) Status.nil

opened-events_of_example :
    [] ++ ([] ++ (pending (some hello_event) ++ events_of to_event (b's' ∷ []) []))
    ≡ events_of to_event (b's' ∷ []) (hello ∷ [])
opened-events_of_example =
    opened-events_of to_event (b's' ∷ []) (hello ∷ []) none sending_hello to_hello

-- Eight events in the channel, a ninth in front of it, and no reader.
abbrev full : StatusStream
full = record {
  incoming = [];
  failure = none;
  sending = some hello_event;
  buffer =
      hello_event ∷ hello_event ∷ hello_event ∷ hello_event ∷ hello_event ∷ hello_event
      ∷ hello_event ∷ hello_event ∷ [];
  errors = none;
  taken = [];
  reader_left = true;
  done = false;
}

abbrev full-IsStuck : IsStuck to_event (b's' ∷ []) full
full-IsStuck = record {
  left = refl;
  filled = refl;
  event = hello_event;
  waiting = refl;
  running = refl;
}

stuck-IsStuck_example : IsStuck to_event (b's' ∷ []) full
stuck-IsStuck_example = stuck-IsStuck to_event (b's' ∷ []) full full full-IsStuck Status.nil
