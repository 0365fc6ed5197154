-- ===== src/Redis/Client.antt =====
-- Client of packages/go/backend/redis/client.go: the connection it keeps, and a command over it.
pub mod Commands
pub mod Subscription
use streamlation.Prelude.{
  ℕ, ◌≡◌, Bool, true, false, ◌||◌, Option, none, some, List, [], ◌∷◌, ◌==◌, if◌then◌else◌,
}
use streamlation.Prelude.Text.{Bytes, text, has_prefix}
use streamlation.Prelude.Result.{Result, ok, err, ◌>>=◌}
use streamlation.Net
use streamlation.Net.{NetError, Conn}
use streamlation.Redis.Reply.{
  Reply, type_of, text_of, Failure, eof, read, read_line, bulk_read, dial, write, deadline,
  invalid_url, missing_host, server,
}
use streamlation.Redis.Resp.{write_command, read_reply}

pub record Client : Type 0 where
  pub addr : Bytes
  pub conn : Option Conn

-- `errors.As(err, &netErr)` on what a failure wraps.
unfoldable pub is_net_error : NetError → Bool
is_net_error NetError.timeout = true
is_net_error NetError.fault = true
is_net_error _ = false

unfoldable pub should_reset : Failure → Bool
unfolding is_net_error
should_reset eof = true
should_reset (read e) = is_net_error e
should_reset (read_line e) = is_net_error e
should_reset (bulk_read e) = is_net_error e
should_reset (dial e) = is_net_error e
should_reset (write e) = is_net_error e
should_reset (deadline e) = is_net_error e
should_reset _ = false

host : Option Bytes → Result Failure Bytes
host none = err invalid_url
host (some []) = err missing_host
host (some h) = ok h

-- `parse` gives the host of a URL, and `none` where url.Parse returns an error.
module _ (parse : Bytes → Option Bytes) where
  unfoldable pub resolve_addr : Bytes → Result Failure Bytes
  unfolding host text has_prefix
  resolve_addr addr =
      if has_prefix (text "redis://") addr || has_prefix (text "rediss://") addr
      then host (parse addr)
      else ok addr

  unfoldable pub new_client : Bytes → Result Failure Client
  unfolding resolve_addr
  new_client addr = resolve_addr addr >>= λ resolved. ok (record { addr = resolved; conn = none })

dialed : Result NetError Conn → Result Failure Conn
dialed (ok c) = ok c
dialed (err e) = err (dial e)

unfoldable pub reset : Client → Client
reset client = record client { conn = none }

-- `dialer` is what DialContext gives for an address at this call.
module _ (parse : Bytes → Option Bytes) (dialer : Bytes → Result NetError Conn) where
  open_conn : Bytes → Option Conn → Result Failure Conn
  unfolding resolve_addr dialed
  open_conn addr (some c) = ok c
  open_conn addr none = resolve_addr parse addr >>= λ resolved. dialed (dialer resolved)

  unfoldable pub ensure_conn : Client → Result Failure Conn
  unfolding open_conn
  ensure_conn client = open_conn client.addr client.conn

-- What `Do` makes of the outcome of readReply.
unfoldable pub on_reply : Client → Result Failure Reply × Conn → Result Failure Reply × Client
unfolding should_reset reset
on_reply client (err e, c) =
    (err e, if should_reset e then reset client else record client { conn = some c })
on_reply client (ok r, c) =
    let kept = record client { conn = some (Net.set_deadline deadline c).1 } in
    if type_of r == b'-'
    then (err (server (text_of r)), record client { conn = some c })
    else (ok r, kept)

on_sent : Client → Result Failure (Unit {0}) × Conn → Result Failure Reply × Client
unfolding on_reply read_reply reset
on_sent client (err e, c) = (err e, reset client)
on_sent client (ok _, c) = on_reply client (read_reply c)

on_conn : Client → List Bytes → Result Failure Conn → Result Failure Reply × Client
unfolding on_sent write_command Net.write Net.set_deadline
on_conn client args (err e) = (err e, client)
on_conn client args (ok c) =
    on_sent client (Net.◌>>◌ (Net.set_deadline deadline) (Net.write write (write_command args)) c)

-- `Do`
unfoldable pub do_command :
    (Bytes → Option Bytes)
    → (Bytes → Result NetError Conn)
    → List Bytes
    → Client
    → Result Failure Reply × Client
unfolding ensure_conn on_conn
do_command parse dialer args client = on_conn client args (ensure_conn parse dialer client)
