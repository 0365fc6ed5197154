-- ===== src/Status.antt =====
-- packages/go/backend/status/redis.go and status.go: status events through Redis.
pub mod Delivery
use streamlation.Prelude.{
  ℕ, ◌≡◌, ◌<◌, Bool, true, false, ◌||◌, Option, none, some, List, [], ◌∷◌, ◌++◌, length,
  if◌then◌else◌,
}
use streamlation.Prelude.Text.{Bytes, text, equal}
use streamlation.Prelude.Result.{Result, ok, err}
use streamlation.Net.{NetError, Conn}
use streamlation.Redis.Reply.{
  Reply, Failure, eof, read, read_line, bulk_read, dial, write, deadline,
}
use streamlation.Redis.Client.{Client, do_command}
use streamlation.Redis.Client.Subscription.{Message}
use streamlation.Redis.Client.Subscription
use streamlation.Api.Handlers.{SessionStatusEvent}

unfoldable pub channel_name : Bytes → Bytes
unfolding text
channel_name id = text "streamlation:session:" ++ (id ++ text ":status")

pub data StatusError : Type 0 where
  session_id_required : StatusError
  -- With the text of the error.
  marshal_failed decode_failed : Bytes → StatusError
  redis_failed : Failure → StatusError

-- `marshal` is `json.Marshal` of an event, `parse` and `dialer` are what the Redis client takes.
module _ (marshal : SessionStatusEvent → Result Bytes Bytes) (parse : Bytes → Option Bytes)
    (dialer : Bytes → Result NetError Conn) where
  unfoldable pub on_published :
      Result Failure Reply × Client → Result StatusError (Unit {0}) × Client
  on_published (ok r, client) = (ok tt, client)
  on_published (err e, client) = (err (redis_failed e), client)

  unfoldable pub publish_payload :
      Bytes → Result Bytes Bytes → Client → Result StatusError (Unit {0}) × Client
  unfolding on_published do_command channel_name text
  publish_payload id (err e) client = (err (marshal_failed e), client)
  publish_payload id (ok payload) client =
      on_published
        (do_command parse dialer (text "PUBLISH" ∷ channel_name id ∷ payload ∷ []) client)

  -- `RedisStatusPublisher.Publish`
  unfoldable pub publish : SessionStatusEvent → Client → Result StatusError (Unit {0}) × Client
  unfolding publish_payload
  publish event client = elim event.session_id [
    | [] ↦ (err session_id_required, client)
    | c ∷ id ↦ publish_payload event.session_id (marshal event) client
  ]

-- `RedisStatusSubscriber.Subscribe`, as far as the connection of its stream.
unfoldable pub subscribe :
    (Bytes → Option Bytes)
    → (Bytes → Result NetError Conn)
    → Bytes
    → Bytes
    → Result StatusError Conn
unfolding Subscription.subscribe channel_name
subscribe parse dialer addr [] = err session_id_required
subscribe parse dialer addr (c ∷ id) =
    elim (Subscription.subscribe parse dialer addr (channel_name (c ∷ id))) [
      | ok conn ↦ ok conn
      | err e ↦ err (redis_failed e)
    ]

-- What a message comes to: nothing, an error to report, or an event.
pub data Decoded : Type 0 where
  skipped : Decoded
  not_decoded : Bytes → Decoded
  decoded : SessionStatusEvent → Decoded

-- `unmarshal` is `json.Unmarshal` into an event.
module _ (unmarshal : Bytes → Result Bytes SessionStatusEvent) (session_id : Bytes) where
  unfoldable pub with_session : SessionStatusEvent → SessionStatusEvent
  with_session event = elim event.session_id [
    | [] ↦ record event { session_id = session_id }
    | c ∷ id ↦ event
  ]

  unfoldable pub decode : Message → Decoded
  unfolding with_session text
  decode m =
      if equal m.kind (text "message") || equal m.kind (text "pmessage")
      then elim (unmarshal m.payload) [
        | ok event ↦ decoded (with_session event)
        | err e ↦ not_decoded e
      ]
      else skipped

-- The stream's goroutine and its channels. `incoming` is what is still to come from the
-- subscription, in its channel or behind it, and `failure` the error that it is to report;
-- `sending` is the event in front of a full channel, `buffer` the channel, `errors` the channel of
-- errors, of one place, and `taken` what the reader has got.
pub record StatusStream : Type 0 where
  pub incoming : List Message
  pub failure : Option Failure
  pub sending : Option SessionStatusEvent
  pub buffer : List SessionStatusEvent
  pub errors : Option StatusError
  pub taken : List SessionStatusEvent
  pub reader_left : Bool
  pub done : Bool

-- reportError, which drops an error that has no place.
unfoldable pub report : StatusError → StatusStream → StatusStream
report e s = elim s.errors [ some other ↦ s | none ↦ record s { errors = some e } ]

unfoldable pub on_decoded : Decoded → StatusStream → StatusStream
unfolding report
on_decoded skipped s = s
on_decoded (not_decoded e) s = report (decode_failed e) s
on_decoded (decoded event) s = record s { sending = some event }

unfoldable pub opened : List Message → Option Failure → StatusStream
opened incoming failure = record {
  incoming = incoming;
  failure = failure;
  sending = none;
  buffer = [];
  errors = none;
  taken = [];
  reader_left = false;
  done = false;
}

-- `errors.Is(err, io.EOF)`
unfoldable pub is_eof : Failure → Bool
is_eof eof = true
is_eof (read NetError.eof) = true
is_eof (read_line NetError.eof) = true
is_eof (bulk_read NetError.eof) = true
is_eof (dial NetError.eof) = true
is_eof (write NetError.eof) = true
is_eof (deadline NetError.eof) = true
is_eof _ = false

module _ (unmarshal : Bytes → Result Bytes SessionStatusEvent) (session_id : Bytes) where
  -- A step of `run`, or of the reader of the stream. The select takes a message or what the channel
  -- of errors has, as it likes.
  pub data Step (s : StatusStream) : StatusStream → Type 0 where
    receive :
        (m : Message) (rest : List Message)
        → s.done ≡ false
        → s.sending ≡ none
        → s.incoming ≡ m ∷ rest
        → Step s (on_decoded (decode unmarshal session_id m) (record s { incoming = rest }))
    messages_closed :
        s.done ≡ false → s.sending ≡ none → s.incoming ≡ [] → Step s (record s { done = true })
    fail_with :
        (e : Failure)
        → s.done ≡ false
        → s.sending ≡ none
        → s.failure ≡ some e
        → is_eof e ≡ false
        → Step s (report (redis_failed e) (record s { failure = none }))
    end_of_file :
        (e : Failure)
        → s.done ≡ false
        → s.sending ≡ none
        → s.failure ≡ some e
        → is_eof e ≡ true
        → Step s (record s { failure = none; done = true })
    errors_closed :
        s.done ≡ false → s.sending ≡ none → s.failure ≡ none → Step s (record s { done = true })
    push :
        (event : SessionStatusEvent)
        → s.sending ≡ some event
        → length s.buffer < 8
        → Step s (record s { sending = none; buffer = s.buffer ++ event ∷ [] })
    take :
        (event : SessionStatusEvent) (rest : List SessionStatusEvent)
        → s.reader_left ≡ false
        → s.buffer ≡ event ∷ rest
        → Step s (record s { buffer = rest; taken = s.taken ++ event ∷ [] })
    take_error : s.reader_left ≡ false → Step s (record s { errors = none })
    leave : s.reader_left ≡ false → Step s (record s { reader_left = true })

  pub data Steps : StatusStream → StatusStream → Type 0 where
    nil : {s : StatusStream} → Steps s s
    cons : {s t u : StatusStream} → Step s t → Steps t u → Steps s u
