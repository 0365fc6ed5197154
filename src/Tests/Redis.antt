-- ===== src/Tests/Redis.antt =====
-- Witnesses of the theorems on packages/go/backend/redis and queue.
use streamlation.Prelude.{◌≡◌, refl, arith, Option, some, none, false, [], ◌∷◌, ◌++◌}
use streamlation.Prelude.Int.{pos}
use streamlation.Prelude.Decimal.{itoa}
use streamlation.Prelude.Text.{Bytes, text, lacks, lacks→Lacks}
use streamlation.Prelude.Result.{Result, ok, err}
use streamlation.Net.{NetError, Conn}
use streamlation.Redis.Reply.{eof, read_line}
use streamlation.Redis.Resp.{read_reply}
use streamlation.Redis.Resp.Values.{
  count, integer, Value, simple, bulk_value, array_value, nil, cons, encode, to_reply, IsWellFormed,
}
use streamlation.Redis.Resp.RoundTrip.{read_reply-encode, bulks}
use streamlation.Redis.Client.{do_command}
use streamlation.Redis.Client.Commands.{outcome, do_command-encode, do_command_cut}
use streamlation.Redis.Client.Subscription.{run}
use streamlation.Redis.Client.Subscription.Delivery.{stream, delivered, run-stream}
use streamlation.Queue.{enqueue_ingestion, brpop_seconds, pop, ingestion_queue_name}
use streamlation.Queue.Jobs.{answered, enqueue_ingestion-encode, popped, pop-popped}
use streamlation.Tests.Data.{idle}

-- A server that no client reaches, and URLs that have no host.
abbrev no_host : Bytes → Option Bytes
no_host url = none

abbrev unreachable : Bytes → Result NetError Conn
unreachable addr = err NetError.fault

-- A push of the message `hi` on the channel `c`.
abbrev push : Value
push = array_value (
    cons (bulk_value (text "message"))
      (cons (bulk_value (b'c' ∷ [])) (cons (bulk_value (b'h' ∷ b'i' ∷ [])) nil)))

push-IsWellFormed : IsWellFormed push
unfolding text count
push-IsWellFormed = (omega arith, (omega arith, (omega arith, (omega arith, (tt)))))

read_reply-encode_example :
    read_reply (record idle { input = encode push ++ (9 ∷ []) })
    ≡ (ok (to_reply push), record idle { input = 9 ∷ [] })
read_reply-encode_example = read_reply-encode push (9 ∷ []) idle push-IsWellFormed

do_command-encode_example :
    do_command no_host unreachable
      ((b'G' ∷ []) ∷ [])
      (record { addr = []; conn = some (record idle { input = encode push ++ [] }) })
    ≡ (
      outcome push,
      record {
        addr = [];
        conn =
            some (record idle {
              input = [];
              output = encode (array_value (bulks ((b'G' ∷ []) ∷ [])));
            });
      },
    )
do_command-encode_example =
    do_command-encode no_host unreachable ((b'G' ∷ []) ∷ []) [] push [] idle push-IsWellFormed
      (refl, refl)

do_command_cut_example :
    let first = do_command no_host unreachable ((b'G' ∷ []) ∷ []) (record {
      addr = [];
      conn = some (record idle { input = b'+' ∷ b'O' ∷ []; ending = NetError.eof });
    }) in
    (first.0 ≡ err (read_line NetError.eof))
    × (do_command no_host unreachable [] first.1 ≡ (err eof, record { addr = []; conn = none }))
unfolding lacks
do_command_cut_example =
    do_command_cut no_host unreachable ((b'G' ∷ []) ∷ []) [] [] b'+' (b'O' ∷ []) idle refl
      (lacks→Lacks b'\n' (b'O' ∷ []) refl) (refl, refl)

run-stream_example :
    run [] (record idle { input = stream (push ∷ simple [] ∷ []); ending = NetError.eof })
    ≡ delivered NetError.eof [] (push ∷ simple [] ∷ [])
run-stream_example =
    run-stream (push ∷ simple [] ∷ []) [] idle NetError.eof (push-IsWellFormed, (tt, tt)) refl

-- A job's text in place of JSON: the session id behind one byte.
abbrev marshal : Bytes → Bytes
marshal id = b'{' ∷ id

abbrev unmarshal : Bytes → Option Bytes
unmarshal [] = none
unmarshal (c ∷ id) = some id

enqueue_ingestion-encode_example :
    enqueue_ingestion no_host unreachable marshal (b's' ∷ []) (record {
      addr = [];
      conn = some (record idle { input = encode (integer (b'1' ∷ [])) ++ [] });
    })
    ≡ (
      answered (integer (b'1' ∷ [])),
      record {
        addr = [];
        conn = some (record idle {
          input = [];
          output = encode (
              array_value (bulks (text "LPUSH" ∷ ingestion_queue_name ∷ marshal (b's' ∷ []) ∷ [])));
        });
      },
    )
unfolding lacks
enqueue_ingestion-encode_example =
    enqueue_ingestion-encode no_host unreachable marshal [] (b's' ∷ []) (integer (b'1' ∷ [])) []
      idle (lacks→Lacks b'\n' (b'1' ∷ []) refl) (refl, refl)

pop-popped_example :
    pop no_host unreachable unmarshal false (pos 5000000000) (record {
      addr = [];
      conn = some (record idle { input = encode (popped (marshal (b's' ∷ []))) ++ [] });
    })
    ≡ (
      ok (some (b's' ∷ [])),
      record {
        addr = [];
        conn = some (record idle {
          input = [];
          output = encode (
              array_value (
                bulks (
                  text "BRPOP"
                  ∷ ingestion_queue_name
                  ∷ itoa (pos (brpop_seconds (pos 5000000000)))
                  ∷ [])));
        });
      },
    )
pop-popped_example =
    pop-popped no_host unreachable marshal unmarshal false (pos 5000000000) [] (b's' ∷ []) [] idle
      (λ e. cc) refl (omega arith) (refl, refl)
