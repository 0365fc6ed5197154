-- ===== src/Queue.antt =====
-- packages/go/backend/queue/queue.go: the queue of ingestion jobs, a list that Redis keeps.
pub mod Jobs
use streamlation.Prelude.{
  ℕ, ◌≡◌, ◌+◌, ◌*◌, ◌/◌, ◌^◌, Bool, true, false, ◌&&◌, ◌||◌, Option, none, some, List, [], ◌∷◌,
  ◌==◌, if◌then◌else◌,
}
use streamlation.Prelude.Int.{ℤ, pos, negsuc}
use streamlation.Prelude.Text.{Bytes, text, equal}
use streamlation.Prelude.Decimal.{itoa}
use streamlation.Prelude.Result.{Result, ok, err}
use streamlation.Net.{NetError, Conn}
use streamlation.Redis.Reply.{
  Reply, reply, Replies, nil, cons, type_of, text_of, nil_of, Failure, read, read_line, bulk_read,
  dial, write, deadline,
}
use streamlation.Redis.Client.{Client, do_command}

abbrev pub ingestion_queue_name : Bytes
ingestion_queue_name = text "streamlation:ingestion:sessions"

pub data QueueError : Type 0 where
  -- The caller's context has ended.
  context_ended : QueueError
  enqueue dequeue : Failure → QueueError
  unexpected_reply decode missing_session_id : QueueError

-- `errors.As(err, &netErr) && netErr.Timeout()`, which also holds of context.DeadlineExceeded.
unfoldable pub timed_out : Failure → Bool
timed_out (read NetError.timeout) = true
timed_out (read_line NetError.timeout) = true
timed_out (bulk_read NetError.timeout) = true
timed_out (dial NetError.timeout) = true
timed_out (write NetError.timeout) = true
timed_out (deadline NetError.timeout) = true
timed_out e = false

-- The argument of BRPOP for a time.Duration in nanoseconds. The code divides in float64, which is
-- exact to the second below 2^22 seconds.
unfoldable pub brpop_seconds : ℤ → ℕ
brpop_seconds (negsuc n) = 0
brpop_seconds (pos n) =
    let seconds = n / 1000000000 in if n == 0 then 0 else if seconds == 0 then 1 else seconds

unfoldable pub waits_indefinitely : ℤ → Bool
waits_indefinitely (negsuc n) = true
waits_indefinitely (pos n) = n == 0

abbrev pub default_timeout : ℕ
default_timeout = 5000000000

-- The time that `ensureTimeout` gives a context without a deadline.
unfoldable pub ensure_timeout : ℤ → ℕ
ensure_timeout (negsuc n) = default_timeout
ensure_timeout (pos n) = if n == 0 then default_timeout else n + default_timeout

-- The elements of an array of two.
unfoldable pub pair_of : Reply → Option (Reply × Reply)
pair_of (reply t text (cons a (cons b nil)) is_nil) = if t == b'*' then some (a, b) else none
pair_of r = none

-- `unmarshal` is the session_id that json.Unmarshal finds in a text, empty if there is none.
module _ (unmarshal : Bytes → Option Bytes) where
  job : Option Bytes → Result QueueError (Option Bytes)
  job none = err decode
  job (some []) = err missing_session_id
  job (some id) = ok (some id)

  on_payload : Option (Reply × Reply) → Result QueueError (Option Bytes)
  unfolding job
  on_payload none = err unexpected_reply
  on_payload (some (name, payload)) =
      if nil_of payload then ok none else job (unmarshal (text_of payload))

  -- What `Pop` makes of the outcome of BRPOP. `ended`: ctx.Err() != nil.
  unfoldable pub on_popped : Bool → ℤ → Result Failure Reply → Result QueueError (Option Bytes)
  unfolding on_payload timed_out waits_indefinitely pair_of
  on_popped ended timeout (err e) =
      if timed_out e
      then if ended
        then err context_ended
        else if waits_indefinitely timeout
        then ok none
        else err (dequeue e)
      else err (dequeue e)
  on_popped ended timeout (ok r) = if nil_of r then ok none else on_payload (pair_of r)

unfoldable pub on_pushed : Result Failure Reply → Result QueueError (Unit {0})
on_pushed (ok r) = ok tt
on_pushed (err e) = err (enqueue e)

module _ (parse : Bytes → Option Bytes) (dialer : Bytes → Result NetError Conn) where
  unfoldable pub pop :
      (Bytes → Option Bytes) → Bool → ℤ → Client → Result QueueError (Option Bytes) × Client
  unfolding on_popped do_command brpop_seconds text
  pop unmarshal ended timeout client =
      let popped =
        do_command parse dialer
          (text "BRPOP" ∷ ingestion_queue_name ∷ itoa (pos (brpop_seconds timeout)) ∷ []) client in
      (on_popped unmarshal ended timeout popped.0, popped.1)

  -- `marshal` gives the text of json.Marshal for a session_id.
  unfoldable pub enqueue_ingestion :
      (Bytes → Bytes) → Bytes → Client → Result QueueError (Unit {0}) × Client
  unfolding on_pushed do_command text
  enqueue_ingestion marshal session_id client =
      let pushed =
        do_command parse dialer (text "LPUSH" ∷ ingestion_queue_name ∷ marshal session_id ∷ [])
          client in
      (on_pushed pushed.0, pushed.1)
