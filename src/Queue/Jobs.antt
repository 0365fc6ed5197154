-- ===== src/Queue/Jobs.antt =====
-- Jobs through the queue of packages/go/backend/queue/queue.go.
use streamlation.Prelude.{
  ℕ, ◌≡◌, ◌≢◌, ◌≤◌, ◌<◌, ◌+◌, ◌*◌, refl, arith, Bool, Option, some, [], ◌∷◌, ◌++◌, length,
}
use streamlation.Prelude.Int.{ℤ, pos}
use streamlation.Prelude.Text.{Bytes, text}
use streamlation.Prelude.Decimal.{itoa, max_int64}
use streamlation.Prelude.Result.{Result, ok, err}
use streamlation.Redis.Reply.{server}
use streamlation.Net.{NetError, Conn, Healthy}
use streamlation.Redis.Resp.Values.{
  Value, error, count, encode, array_value, bulk_value, to_reply, IsWellFormed, nil, cons,
}
use streamlation.Redis.Resp.RoundTrip.{bulks}
use streamlation.Redis.Client.Commands.{outcome, do_command-encode}
use streamlation.Queue.{
  QueueError, enqueue, on_pushed, enqueue_ingestion, ingestion_queue_name, brpop_seconds,
  ensure_timeout, on_popped, pop,
}

-- For a positive timeout, the deadline that Pop sets on its own is at least four seconds behind the
-- longest time that the server waits for a job, so an empty queue is answered before the connection
-- times out.
pub ensure_timeout_late :
    (n : ℕ) → 0 < n → brpop_seconds (pos n) * 1000000000 + 4000000000 ≤ ensure_timeout (pos n)
unfolding brpop_seconds ensure_timeout
ensure_timeout_late n h = ground arith

-- The answer of BRPOP that hands a job over.
unfoldable pub popped : Bytes → Value
popped payload =
    array_value (cons (bulk_value ingestion_queue_name) (cons (bulk_value payload) nil))

popped-IsWellFormed :
    (payload : Bytes) → length payload + 2 ≤ max_int64 → IsWellFormed (popped payload)
unfolding popped count text
popped-IsWellFormed payload h = (omega arith, (omega arith, (h, tt)))

on_popped-popped :
    (unmarshal : Bytes → Option Bytes) (ended : Bool) (timeout : ℤ) (payload id : Bytes)
    → id ≢ []
    → unmarshal payload ≡ some id
    → on_popped unmarshal ended timeout (outcome (popped payload)) ≡ ok (some id)
unfolding on_popped to_reply popped
on_popped-popped unmarshal ended timeout payload [] h k = absurd (h refl)
on_popped-popped unmarshal ended timeout payload (c ∷ id) h k = rw k

-- What a push comes to for the value that the server answers: an error for an error reply, else
-- success.
abbrev pub answered : Value → Result QueueError (Unit {0})
answered (error t) = err (enqueue (server t))
answered v = ok tt

on_pushed-answered : (v : Value) → on_pushed (outcome v) ≡ answered v
unfolding on_pushed
on_pushed-answered (error t) = refl
on_pushed-answered v = refl

module _ (parse : Bytes → Option Bytes) (dialer : Bytes → Result NetError Conn) where
  -- Over a working connection, EnqueueIngestion pushes the encoded session id onto the list, and
  -- fails with the server's error exactly if the server's answer, any well-formed value, is an
  -- error.
  pub enqueue_ingestion-encode :
      (marshal : Bytes → Bytes) (addr id : Bytes) (v : Value) (rest : Bytes) (c : Conn)
      → IsWellFormed v
      → Healthy c
      → enqueue_ingestion parse dialer marshal id
          (record { addr = addr; conn = some (record c { input = encode v ++ rest }) })
        ≡ (
          answered v,
          record {
            addr = addr;
            conn = some (record c {
              input = rest;
              output =
                  c.output
                  ++ encode
                      (array_value (bulks (text "LPUSH" ∷ ingestion_queue_name ∷ marshal id ∷ [])));
            });
          },
        )
  unfolding enqueue_ingestion
  enqueue_ingestion-encode marshal addr id v rest c w h = rw (
    do_command-encode parse dialer (text "LPUSH" ∷ ingestion_queue_name ∷ marshal id ∷ []) addr v
        rest c w h,
    on_pushed-answered v,
  )

  -- Over a working connection on which the server answers BRPOP with a text that EnqueueIngestion
  -- pushed, Pop returns the session id of that text and leaves the connection behind the answer.
  -- The id is not empty, its text is one that a length can count, and decoding undoes encoding.
  pub pop-popped :
      (marshal : Bytes → Bytes) (unmarshal : Bytes → Option Bytes) (ended : Bool) (timeout : ℤ)
      (addr id rest : Bytes) (c : Conn)
      → id ≢ []
      → unmarshal (marshal id) ≡ some id
      → length (marshal id) + 2 ≤ max_int64
      → Healthy c
      → pop parse dialer unmarshal ended timeout (record {
        addr = addr;
        conn = some (record c { input = encode (popped (marshal id)) ++ rest });
      })
        ≡ (
          ok (some id),
          record {
            addr = addr;
            conn = some (record c {
              input = rest;
              output =
                  c.output
                  ++ encode (
                      array_value (
                        bulks (
                          text "BRPOP"
                          ∷ ingestion_queue_name
                          ∷ itoa (pos (brpop_seconds timeout))
                          ∷ [])));
            });
          },
        )
  unfolding pop
  pop-popped marshal unmarshal ended timeout addr id rest c h k l g =
      let e =
        do_command-encode parse dialer
          (text "BRPOP" ∷ ingestion_queue_name ∷ itoa (pos (brpop_seconds timeout)) ∷ []) addr
          (popped (marshal id)) rest c (popped-IsWellFormed (marshal id) l) g in
      rw (e, on_popped-popped unmarshal ended timeout (marshal id) id h k)
