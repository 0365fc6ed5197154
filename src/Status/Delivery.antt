-- ===== src/Status/Delivery.antt =====
-- What a reader gets from the streams of packages/go/backend/status/redis.go, and when they end.
use streamlation.Prelude.{
  ◌≡◌, arith, refl, ap, ◌∙◌, true, false, Option, none, some, List, [], ◌∷◌, ◌++◌, length,
  append_assoc,
}
use streamlation.Prelude.Text.{Bytes}
use streamlation.Prelude.Result.{Result}
use streamlation.Redis.Reply.{Failure}
use streamlation.Redis.Client.Subscription.{Message}
use streamlation.Api.Handlers.{SessionStatusEvent}
use streamlation.Status.{
  Decoded, skipped, not_decoded, decoded, decode, StatusError, decode_failed, redis_failed,
  StatusStream, report, on_decoded, opened, Step, receive, messages_closed, fail_with, end_of_file,
  errors_closed, push, take, take_error, leave, Steps, nil, cons,
}

abbrev pub pending : Option SessionStatusEvent → List SessionStatusEvent
pending none = []
pending (some e) = e ∷ []

abbrev pub event_of : Decoded → List SessionStatusEvent
event_of (decoded e) = e ∷ []
event_of _ = []

module _ (unmarshal : Bytes → Result Bytes SessionStatusEvent) (session_id : Bytes) where
  -- The events of the messages, in order.
  abbrev pub events_of : List Message → List SessionStatusEvent
  events_of [] = []
  events_of (m ∷ ms) = event_of (decode unmarshal session_id m) ++ events_of ms

  -- All events of a stream, from the first one that the reader has got.
  all_events : StatusStream → List SessionStatusEvent
  all_events s = s.taken ++ (s.buffer ++ (pending s.sending ++ events_of s.incoming))

  -- Reports leave the events.
  report-all_events : (e : StatusError) (s : StatusStream) → all_events (report e s) ≡ all_events s
  unfolding report all_events
  report-all_events e s =
      elim s.errors
        as (λ o.
          all_events (elim o [ some other ↦ s | none ↦ record s { errors = some e } ])
          ≡ all_events s) [ none ↦ refl | some other ↦ refl ]

  on_decoded-all_events :
      (d : Decoded) (s : StatusStream)
      → s.sending ≡ none
      → all_events (on_decoded d s) ≡ s.taken ++ (s.buffer ++ (event_of d ++ events_of s.incoming))
  unfolding on_decoded all_events
  on_decoded-all_events skipped s h =
      ap (λ p. s.taken ++ (s.buffer ++ (pending p ++ events_of s.incoming))) h
  on_decoded-all_events (not_decoded e) s h =
      report-all_events (decode_failed e) s
      ∙ ap (λ p. s.taken ++ (s.buffer ++ (pending p ++ events_of s.incoming))) h
  on_decoded-all_events (decoded e) s h = refl

  step-all_events :
      (s t : StatusStream) → Step unmarshal session_id s t → all_events t ≡ all_events s
  unfolding all_events
  step-all_events s t (receive m rest d q e) =
      on_decoded-all_events (decode unmarshal session_id m) (record s { incoming = rest }) q
      ∙ rw (q, e) refl
  step-all_events s t (messages_closed d q e) = refl
  step-all_events s t (fail_with e d q f g) =
      report-all_events (redis_failed e) (record s { failure = none })
  step-all_events s t (end_of_file e d q f g) = refl
  step-all_events s t (errors_closed d q f) = refl
  step-all_events s t (push event q lt) =
      rw q (ap (λ l. s.taken ++ l) (append_assoc s.buffer (event ∷ []) (events_of s.incoming)))
  step-all_events s t (take event rest d q) =
      rw q (append_assoc s.taken (event ∷ []) (rest ++ (pending s.sending ++ events_of s.incoming)))
  step-all_events s t (take_error d) = refl
  step-all_events s t (leave d) = refl

  steps-all_events :
      (s t : StatusStream) → Steps unmarshal session_id s t → all_events t ≡ all_events s
  steps-all_events s t nil = refl
  steps-all_events a b (cons {t} step steps) = steps-all_events t b steps ∙ step-all_events a t step

  -- However the select chooses and the reader reads, at any time the events that the reader has
  -- got, those in the channel, the one being sent and those of the messages not received yet are
  -- together the events of all messages, in their order. It does not say that a message that is not
  -- received yet ever is: the select may take the end of the errors first.
  pub opened-events_of :
      (messages : List Message) (failure : Option Failure) (s : StatusStream)
      → Steps unmarshal session_id (opened messages failure) s
      → s.taken ++ (s.buffer ++ (pending s.sending ++ events_of s.incoming)) ≡ events_of messages
  unfolding opened all_events
  opened-events_of messages failure s steps = steps-all_events (opened messages failure) s steps

  -- The reader has left, the channel is full, and one more event is being sent.
  pub record IsStuck (s : StatusStream) : Type 0 where
    pub left : s.reader_left ≡ true
    pub filled : length s.buffer ≡ 8
    pub event : SessionStatusEvent
    pub waiting : s.sending ≡ some event
    pub running : s.done ≡ false

  step-IsStuck : (s t : StatusStream) → Step unmarshal session_id s t → IsStuck s → IsStuck t
  step-IsStuck s t (receive m rest d q e) h = absurd (cc (q, h.waiting))
  step-IsStuck s t (messages_closed d q e) h = absurd (cc (q, h.waiting))
  step-IsStuck s t (fail_with e d q f g) h = absurd (cc (q, h.waiting))
  step-IsStuck s t (end_of_file e d q f g) h = absurd (cc (q, h.waiting))
  step-IsStuck s t (errors_closed d q f) h = absurd (cc (q, h.waiting))
  step-IsStuck s t (push event q lt) h = absurd (omega (arith, h.filled))
  step-IsStuck s t (take event rest d q) h = absurd (cc (d, h.left))
  step-IsStuck s t (take_error d) h = absurd (cc (d, h.left))
  step-IsStuck s t (leave d) h = absurd (cc (d, h.left))

  -- A stream whose reader has left while the channel of events is full and one more is being sent
  -- never ends, so that Close, which waits for the end, does not return.
  pub stuck-IsStuck : (s t : StatusStream) → IsStuck s → Steps unmarshal session_id s t → IsStuck t
  stuck-IsStuck s t h nil = h
  stuck-IsStuck a b h (cons {t} step steps) = stuck-IsStuck t b (step-IsStuck a t step h) steps
