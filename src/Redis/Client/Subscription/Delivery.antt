-- ===== src/Redis/Client/Subscription/Delivery.antt =====
-- What a subscription of packages/go/backend/redis/client.go delivers, and what ends it.
use streamlation.Prelude.{
  Bool, if◌then◌else◌, ◌||◌, true, false, ℕ, zero, suc, ◌≤◌, ◌<◌, ◌≡◌, Option, none, some, List, [],
  ◌∷◌, ◌++◌, refl, ap, arith, length, length-append,
}
use streamlation.Prelude.Text.{Bytes, text, equal, to_lower}
use streamlation.Net
use streamlation.Net.{NetError, Conn, Healthy, line_end}
use streamlation.Net.Laws.{set_deadline-none}
use streamlation.Redis.Reply.{Failure, read, eof, deadline, text_of}
use streamlation.Redis.Resp.{prefix_error, read_reply, bulk_string}
use streamlation.Redis.Resp.Values.{
  nil, cons, simple, error, integer, null_bulk, null_array, Value, encode, to_reply, IsWellFormed,
  bulk_value, array_value,
}
use streamlation.Redis.Resp.RoundTrip.{read_reply-encode}
use streamlation.Redis.Client.Subscription.{
  Message, Moment, present, future, Delivered, send, read_next, round, is_timeout, first_three,
  run_loop, run, message_of,
}

-- What the server sends for values it pushes, one behind the other.
unfoldable pub stream : List Value → Bytes
stream [] = []
stream (v ∷ vs) = encode v ++ stream vs

-- The text of an element, which an array and a null do not have.
abbrev text_in : Value → Bytes
text_in (simple t) = t
text_in (error t) = t
text_in (integer t) = t
text_in (bulk_value t) = t
text_in v = []

-- A message in a pushed value: an array whose first element is `message` or `pmessage` in letters
-- of either case, with the channel and the payload behind it.
unfoldable pub message_in : Value → Option Message
unfolding text to_lower
message_in (array_value (cons kind (cons channel (cons payload rest)))) =
    let word = to_lower (text_in kind) in
    if equal word (text "message") || equal word (text "pmessage")
    then some (record { kind = word; channel = text_in channel; payload = text_in payload })
    else none
message_in v = none

text_of-to_reply : (v : Value) → text_of (to_reply v) ≡ text_in v
unfolding to_reply
text_of-to_reply (simple t) = refl
text_of-to_reply (error t) = refl
text_of-to_reply (integer t) = refl
text_of-to_reply (bulk_value t) = refl
text_of-to_reply null_bulk = refl
text_of-to_reply null_array = refl
text_of-to_reply (array_value vs) = refl

message_of-message_in : (v : Value) → message_of (to_reply v) ≡ message_in v
unfolding message_of first_three to_reply message_in
message_of-message_in (array_value (cons a (cons b (cons c rest)))) =
    rw (text_of-to_reply a, text_of-to_reply b, text_of-to_reply c) refl
message_of-message_in (array_value (cons a (cons b nil))) = refl
message_of-message_in (array_value (cons a nil)) = refl
message_of-message_in (array_value nil) = refl
message_of-message_in (simple t) = refl
message_of-message_in (error t) = refl
message_of-message_in (integer t) = refl
message_of-message_in (bulk_value t) = refl
message_of-message_in null_bulk = refl
message_of-message_in null_array = refl

-- The error that is reported where reading meets `e`: io.EOF as it is, any other one wrapped.
abbrev pub reported : NetError → Failure
reported NetError.eof = eof
reported e = read e

-- What is delivered and reported of pushed values, behind which reading meets `e`: the messages in
-- their order, up to the moment at which the loop finds the context ended.
unfoldable pub delivered : NetError → List Moment → List Value → Delivered
unfolding message_in present future
delivered e ms [] =
    if (present ms).ended_at_head || (present ms).ended_at_error
    then ([], none)
    else ([], some (reported e))
delivered e ms (v ∷ vs) =
    let rest = delivered e (future ms) vs in
    if (present ms).ended_at_head then ([], none) else elim (message_in v) [
      | none ↦ rest
      | some m ↦ if (present ms).done_at_send then ([], none) else (m ∷ rest.0, rest.1)
    ]

abbrev pub AllWellFormed : List Value → Type 0
AllWellFormed [] = Unit
AllWellFormed (v ∷ vs) = IsWellFormed v × AllWellFormed vs

length-encode : (v : Value) → 1 ≤ length (encode v)
unfolding encode bulk_string
length-encode (bulk_value v) = omega arith
length-encode (simple t) = omega arith
length-encode (error t) = omega arith
length-encode (integer t) = omega arith
length-encode null_bulk = omega arith
length-encode null_array = omega arith
length-encode (array_value vs) = omega arith

at_end : Conn → NetError → Bytes → Conn
at_end c e s = record c { input = s; ending = e }

either :
    (a b : Bool) (x y : Delivered)
    → (if a then x else if b then x else y) ≡ (if a || b then x else y)
either true b x y = refl
either false true x y = refl
either false false x y = refl

sent_or_done :
    (done : Bool) (o : Option Message) (r : Delivered)
    → send done o r ≡ (elim o [ none ↦ r | some m ↦ if done then ([], none) else (m ∷ r.0, r.1) ])
unfolding send
sent_or_done true none r = refl
sent_or_done false none r = refl
sent_or_done true (some m) r = refl
sent_or_done false (some m) r = refl

run_loop-nil :
    (fuel : ℕ) (ms : List Moment) (c : Conn) (e : NetError)
    → c.deadline_fault ≡ none
    → run_loop (suc fuel) ms (at_end c e []) ≡ delivered e ms []
unfolding run_loop read_next round is_timeout read_reply Net.read_byte prefix_error at_end delivered
run_loop-nil fuel ms c NetError.eof h =
    rw (set_deadline-none deadline (at_end c NetError.eof []) h)
      (either (present ms).ended_at_head (present ms).ended_at_error ([], none) _)
run_loop-nil fuel ms c NetError.unexpected_eof h =
    rw (set_deadline-none deadline (at_end c NetError.unexpected_eof []) h)
      (either (present ms).ended_at_head (present ms).ended_at_error ([], none) _)
run_loop-nil fuel ms c NetError.timeout h =
    rw (set_deadline-none deadline (at_end c NetError.timeout []) h)
      (either (present ms).ended_at_head (present ms).ended_at_error ([], none) _)
run_loop-nil fuel ms c NetError.fault h =
    rw (set_deadline-none deadline (at_end c NetError.fault []) h)
      (either (present ms).ended_at_head (present ms).ended_at_error ([], none) _)

run_loop-stream :
    (vs : List Value) (fuel : ℕ) (ms : List Moment) (c : Conn) (e : NetError)
    → AllWellFormed vs
    → c.deadline_fault ≡ none
    → length (stream vs) < fuel
    → run_loop fuel ms (at_end c e (stream vs)) ≡ delivered e ms vs
unfolding stream run_loop at_end delivered
run_loop-stream vs zero ms c e w h l = absurd (omega arith)
run_loop-stream [] (suc fuel) ms c e w h l = run_loop-nil fuel ms c e h
run_loop-stream (v ∷ vs) (suc fuel) ms c e w h l =
    let ih =
      run_loop-stream vs fuel (future ms) c e w.1 h
        (omega (arith, l, length-encode v, length-append (encode v) (stream vs))) in
    rw
      (
        set_deadline-none deadline (at_end c e (encode v ++ stream vs)) h,
        read_reply-encode v (stream vs) (at_end c e []) w.0,
        message_of-message_in v,
        ih,
      )
      (ap (λ r. if (present ms).ended_at_head then ([], none) else r)
        (sent_or_done (present ms).done_at_send (message_in v) (delivered e (future ms) vs)))

-- A subscription over a working connection on which the server sends any well-formed values, behind
-- which reading meets the error `e`, and whatever the rounds find of the context: the messages
-- among the values are delivered, each once and in their order, up to the first check or select
-- that finds the context ended, where it returns without a report; if none does, all of them are,
-- and then the error, io.EOF as it is and every other one wrapped, is reported.
pub run-stream :
    (vs : List Value) (ms : List Moment) (c : Conn) (e : NetError)
    → AllWellFormed vs
    → c.deadline_fault ≡ none
    → run ms (record c { input = stream vs; ending = e }) ≡ delivered e ms vs
unfolding run at_end
run-stream vs ms c e w h = run_loop-stream vs (suc (length (stream vs))) ms c e w h (omega arith)
