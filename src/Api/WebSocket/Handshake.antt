-- ===== src/Api/WebSocket/Handshake.antt =====
-- sessionStatusHandler of apps/api/cmd/server/status.go: the checks of the upgrade, the handshake
-- and the loop that writes the events of a session, but for what the reading loop writes beside it.
use streamlation.Prelude.{
  ℕ, Bool, true, false, not, ◌||◌, Option, none, some, List, [], ◌∷◌, ◌++◌, if◌then◌else◌,
}
use streamlation.Prelude.Text.{Bytes, text, equal, to_lower, has_prefix}
use streamlation.Prelude.Result.{Result, ok, err}
use streamlation.Net.{NetError, Conn, write}
use streamlation.Api.Input.{matches_id}
use streamlation.Api.Handlers.{SessionStatusEvent}
use streamlation.Api.WebSocket.{text_frame, close_frame}

pub record Upgrade : Type 0 where
  pub method : Bytes
  pub session_id : Bytes
  pub connection : Bytes
  pub upgrade : Bytes
  pub key : Bytes

-- How a request is refused, before there is a connection of its own.
pub data Refused : Type 0 where
  method_not_allowed invalid_session_id upgrade_required missing_key not_supported not_hijacked :
      Refused

unfoldable pub contains : Bytes → Bytes → Bool
unfolding has_prefix
contains part [] = has_prefix part []
contains part (c ∷ s) = has_prefix part (c ∷ s) || contains part s

unfoldable pub check_upgrade : Upgrade → Option Refused
unfolding contains to_lower text matches_id equal
check_upgrade r =
    if not (equal r.method (text "GET"))
    then some method_not_allowed
    else if not (matches_id r.session_id)
    then some invalid_session_id
    else if not (contains (text "upgrade") (to_lower r.connection))
        || not (equal (to_lower r.upgrade) (text "websocket"))
    then some upgrade_required
    else if equal r.key []
    then some missing_key
    else none

-- `digest` is the base64 text of the SHA-1 sum.
unfoldable pub compute_accept_key : (Bytes → Bytes) → Bytes → Bytes
unfolding text
compute_accept_key digest key = digest (key ++ text "258EAFA5-E914-47DA-95CA-C5AB0DC85B11")

unfoldable pub response : (Bytes → Bytes) → Bytes → Bytes
unfolding compute_accept_key text
response digest key =
    text
      "HTTP/1.1 101 Switching Protocols\r\nUpgrade: websocket\r\nConnection: Upgrade\r\nSec-WebSocket-Accept: "
    ++ (compute_accept_key digest key ++ text "\r\n\r\n")

-- What a round of the select receives: an event or the closing of the channel, an error or the
-- closing, or the end of the context.
pub data Received : Type 0 where
  event : Option SessionStatusEvent → Received
  error : Option Bytes → Received
  done : Received

abbrev pub whole : NetError → NetError
whole e = e

-- The connection behind more output.
unfoldable pub sent : Conn → Bytes → Conn
sent c b = record c { output = c.output ++ b }

-- The deferred close frame, whose error is only logged.
unfoldable pub close_with : ℕ → Conn → Conn
unfolding close_frame write
close_with code c = (write whole (close_frame code) c).1

-- What becomes of the subscription to the session's events: it fails, or its stream's Close returns
-- (true) or not.
pub data Subscription : Type 0 where
  refused : Subscription
  subscribed : Bool → Subscription

module _ (marshal : SessionStatusEvent → Result Bytes Bytes) where
  unfoldable pub on_written : Result NetError (Unit {0}) × Conn → (Conn → Conn) → Conn
  on_written (err e, c) next = c
  on_written (ok _, c) next = next c

  unfoldable pub on_marshaled : Result Bytes Bytes → (Conn → Conn) → Conn → Conn
  unfolding on_written text_frame write
  on_marshaled (err e) next c = next c
  on_marshaled (ok payload) next c = on_written (write whole (text_frame payload) c) next

  -- The loop, of what it receives in turn, up to its end.
  unfoldable pub write_events : List Received → Conn → Conn
  unfolding on_marshaled
  write_events [] c = c
  write_events (event none ∷ rest) c = c
  write_events (event (some e) ∷ rest) c = on_marshaled (marshal e) (write_events rest) c
  write_events (error none ∷ rest) c = write_events rest c
  write_events (error (some e) ∷ rest) c = c
  write_events (done ∷ rest) c = c

  -- `stream.Close()` and the close frame behind it: the handler may wait in Close for ever, and
  -- then the connection stays as it is.
  unfoldable pub on_stream_closed : Bool → Conn → Conn
  unfolding close_with
  on_stream_closed true c = close_with 1000 c
  on_stream_closed false c = c

  -- The hijacked connection, once the handshake's response has been written, as it is when the
  -- handler has returned or waits for ever.
  unfoldable pub on_upgraded :
      Subscription → List Received → Result NetError (Unit {0}) × Conn → Conn
  unfolding close_with on_stream_closed write_events
  on_upgraded subscription received (err e, c) = c
  on_upgraded refused received (ok _, c) = close_with 1011 c
  on_upgraded (subscribed closes) received (ok _, c) =
      on_stream_closed closes (write_events received c)

  unfoldable pub on_checked :
      (Bytes → Bytes)
      → Upgrade
      → Subscription
      → List Received
      → Option Refused
      → Result Refused Conn
      → Result Refused Conn
  unfolding on_upgraded response write
  on_checked digest r subscription received (some refusal) hijacked = err refusal
  on_checked digest r subscription received none (err refusal) = err refusal
  on_checked digest r subscription received none (ok c) =
      ok (on_upgraded subscription received (write whole (response digest r.key) c))

  -- The handler, of what hijacking gives: the refusal, or the connection at the end.
  unfoldable pub session_status_handler :
      (Bytes → Bytes)
      → Upgrade
      → Subscription
      → List Received
      → Result Refused Conn
      → Result Refused Conn
  unfolding check_upgrade on_checked
  session_status_handler digest r subscription received hijacked =
      on_checked digest r subscription received (check_upgrade r) hijacked
