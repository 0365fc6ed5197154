-- ===== src/Redis/Client/Subscription.antt =====
-- Subscribe and PubSub.run of packages/go/backend/redis/client.go, with a reader of the
-- channel `messages` that keeps up.
pub mod Delivery
use streamlation.Prelude.{
  ℕ, zero, suc, ◌≡◌, Bool, true, false, ◌&&◌, ◌||◌, Option, none, some, List, [], ◌∷◌, ◌++◌, ◌==◌,
  if◌then◌else◌, length,
}
use streamlation.Prelude.Text.{Bytes, text, equal, to_lower}
use streamlation.Prelude.Result.{Result, ok, err, ◌>>=◌}
use streamlation.Net
use streamlation.Net.{NetError, Conn}
use streamlation.Redis.Reply.{
  Reply, reply, Replies, cons, type_of, text_of, Failure, dial, write, deadline, server,
  out_of_fuel, unexpected_subscribe_reply,
}
use streamlation.Redis.Resp.{write_command, read_reply}
use streamlation.Redis.Client.{resolve_addr}

pub record Message : Type 0 where
  pub kind : Bytes
  pub channel : Bytes
  pub payload : Bytes

-- The texts of the first three elements of an array reply.
unfoldable pub first_three : Reply → Option (Bytes × Bytes × Bytes)
first_three (reply t text (cons a (cons b (cons c rest))) is_nil) =
    if t == b'*' then some (text_of a, text_of b, text_of c) else none
first_three r = none

-- The switch on the kind of a push: a message, or nothing to deliver.
unfoldable pub message_of : Reply → Option Message
unfolding first_three text to_lower
message_of r = elim (first_three r) [
  | none ↦ none
  | some (first, channel, payload) ↦
      let kind = to_lower first in
      if equal kind (text "message") || equal kind (text "pmessage")
      then some (record { kind = kind; channel = channel; payload = payload })
      else none
]

-- `err.(net.Error)` with `ne.Timeout()`: a type assertion, which sees no wrapped error. Only the
-- deadlines' errors come back unwrapped.
unfoldable pub is_timeout : Failure → Bool
is_timeout (deadline NetError.timeout) = true
is_timeout e = false

-- How a round finds the context: whether it has ended at the loop's head, whether it has behind a
-- read's error, and whether the select with a message takes the end of the context.
pub record Moment : Type 0 where
  pub ended_at_head : Bool
  pub ended_at_error : Bool
  pub done_at_send : Bool

abbrev pub calm : Moment
calm = record { ended_at_head = false; ended_at_error = false; done_at_send = false }

-- The moment of a round, and those of the rounds behind it; behind the last the context goes on.
unfoldable pub present : List Moment → Moment
present [] = calm
present (m ∷ ms) = m

unfoldable pub future : List Moment → List Moment
future [] = []
future (m ∷ ms) = ms

-- What a subscription delivers, and the error that it reports, if it does.
abbrev pub Delivered : Type 0
Delivered = List Message × Option Failure

-- The select of a message's send and the end of the context, before the rounds behind it.
unfoldable pub send : Bool → Option Message → Delivered → Delivered
send done none r = r
send true (some m) r = ([], none)
send false (some m) (ms, e) = (m ∷ ms, e)

-- One round of `run` with the outcome of readReply; `rest` is the rounds behind it.
round : (Conn → Delivered) → Moment → Result Failure Reply × Conn → Delivered
unfolding message_of is_timeout send
round rest m (ok r, c) = send m.done_at_send (message_of r) (rest c)
round rest m (err e, c) =
    if is_timeout e then rest c else if m.ended_at_error then ([], none) else ([], some e)

read_next : (Conn → Delivered) → Moment → Result Failure (Unit {0}) × Conn → Delivered
unfolding round read_reply
read_next rest m (err e, c) = ([], some e)
read_next rest m (ok _, c) = round rest m (read_reply c)

-- The rounds of the loop: the check of the context, SetReadDeadline and then readReply.
unfoldable pub run_loop : ℕ → List Moment → Conn → Delivered
unfolding read_next Net.set_deadline present future
run_loop zero ms c = ([], some out_of_fuel)
run_loop (suc fuel) ms c =
    let goes_on =
      read_next (run_loop fuel (future ms)) (present ms) (Net.set_deadline deadline c) in
    if (present ms).ended_at_head then ([], none) else goes_on

unfoldable pub run : List Moment → Conn → Delivered
unfolding run_loop
run ms c = run_loop (suc (length c.input)) ms c

-- The check of the answer to SUBSCRIBE. (Other letters that fold to `s` are not modelled.)
unfoldable pub on_subscribed : Reply → Result Failure (Unit {0})
unfolding first_three text to_lower
on_subscribed r = if type_of r == b'-' then err (server (text_of r)) else elim (first_three r) [
  | none ↦ err unexpected_subscribe_reply
  | some (first, _, _) ↦
      if equal (to_lower first) (text "subscribe") then ok tt else err unexpected_subscribe_reply
]

handshake : Bytes → Net.Io Failure (Unit {0})
unfolding on_subscribed Net.set_deadline Net.write write_command read_reply text
handshake channel = Net.◌>>◌ (Net.set_deadline deadline) (
    Net.◌>>◌ (Net.write write (write_command (text "SUBSCRIBE" ∷ channel ∷ [])))
      (Net.◌>>=◌ read_reply (λ r. Net.lift (on_subscribed r))))

shaken : Result Failure (Unit {0}) × Conn → Result Failure Conn
shaken (err e, c) = err e
shaken (ok _, c) = ok c

on_dialed : Bytes → Result NetError Conn → Result Failure Conn
unfolding handshake shaken
on_dialed channel (err e) = err (dial e)
on_dialed channel (ok c) = shaken (handshake channel c)

-- The connection of a subscription; on an error it is closed.
unfoldable pub subscribe :
    (Bytes → Option Bytes) → (Bytes → Result NetError Conn) → Bytes → Bytes → Result Failure Conn
unfolding resolve_addr on_dialed
subscribe parse dialer addr channel =
    resolve_addr parse addr >>= λ resolved. on_dialed channel (dialer resolved)
