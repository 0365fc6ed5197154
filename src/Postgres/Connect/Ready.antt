-- ===== src/Postgres/Connect/Ready.antt =====
-- The startup of a connection in packages/go/backend/postgres/client.go against a server's answer.
use streamlation.Prelude.{
  ℕ, zero, suc, ◌+◌, ◌*◌, ◌^◌, ◌≡◌, ◌≢◌, ◌<◌, refl, arith, false, none, List, [], ◌∷◌, ◌++◌, ◌==◌,
  Bool-cases, inl, inr, length, length-append, append_assoc, All,
}
use streamlation.Prelude.Text.{Bytes}
use streamlation.Prelude.Word.{put_uint32}
use streamlation.Prelude.Result.{ok}
use streamlation.Net.{Conn, Io, Healthy}
use streamlation.Net.Laws.{write-none}
use streamlation.Postgres.Failure.{Failure, net}
use streamlation.Postgres.Row.{handle_authentication}
use streamlation.Postgres.Client.{
  startup_payload, startup, startup_loop, on_startup_message, write_startup,
}
use streamlation.Postgres.Client.Frames.{Message, frame, Fits, read_message-frame}
use streamlation.Postgres.Client.Sync.{stream, length-stream_le}

-- What a server sends before it is ready: requests without authentication, and messages that the
-- client passes over.
abbrev pub IsWelcome : Message → Type 0
IsWelcome m =
    (m.0 ≡ b'R' → handle_authentication m.1 ≡ ok tt) × (m.0 ≢ b'E') × (m.0 ≢ b'Z') × Fits m

on_welcome :
    (next : Io Failure (Unit {0})) (m : Message) (c : Conn)
    → IsWelcome m
    → on_startup_message next m c ≡ next c
unfolding on_startup_message
on_welcome next (typ, payload) c (auth, e, z, fits) =
    let x : (typ == b'E') ≡ false = ground arith in
    let y : (typ == b'Z') ≡ false = ground arith in
    elim (Bool-cases (typ == b'R')) [
      | inl r ↦ let a = auth (ground arith) in rw (r, a)
      | inr r ↦ rw (r, x, y)
    ]

on_ready :
    (next : Io Failure (Unit {0})) (status : Bytes) (c : Conn)
    → on_startup_message next (b'Z', status) c ≡ (ok tt, c)
unfolding on_startup_message
on_ready next status c = refl

startup_loop-ready :
    (ms : List Message) (fuel : ℕ) (status rest : Bytes) (c : Conn)
    → c.deadline_fault ≡ none
    → All IsWelcome ms
    → length status + 4 < 2 ^ 32
    → length ms < fuel
    → startup_loop fuel (record c { input = stream ms ++ (frame (b'Z', status) ++ rest) })
      ≡ (ok tt, record c { input = rest })
unfolding startup_loop stream
startup_loop-ready ms zero status rest c h w l f = absurd (omega arith)
startup_loop-ready [] (suc fuel) status rest c h w l f =
    rw (read_message-frame c (b'Z', status) rest h l)
      (on_ready (startup_loop fuel) status (record c { input = rest }))
startup_loop-ready (m ∷ ms) (suc fuel) status rest c h w l f = rw (
  append_assoc (frame m) (stream ms) (frame (b'Z', status) ++ rest),
  read_message-frame c m (stream ms ++ (frame (b'Z', status) ++ rest)) h w.0.3,
  on_welcome (startup_loop fuel) m
      (record c { input = stream ms ++ (frame (b'Z', status) ++ rest) }) w.0,
  startup_loop-ready ms fuel status rest c h w.1 l (omega arith),
)

-- The startup packet: its length, protocol 3.0, and the payload.
unfoldable pub packet : Bytes → Bytes → Bytes
packet user database =
    let payload = startup_payload user database in
    put_uint32 (length payload + 8) ++ (put_uint32 (3 * 2 ^ 16) ++ payload)

write_startup-packet :
    (user database : Bytes) (c : Conn)
    → c.send_fault ≡ none
    → write_startup user database c
      ≡ (ok tt, record c { output = c.output ++ packet user database })
unfolding write_startup packet
write_startup-packet user database c h =
    let n : length (startup_payload user database) + 4 + 4
        ≡ length (startup_payload user database) + 8 =
      omega arith in
    rw n (write-none net (packet user database) c h)

-- Over a working connection, when the server asks for no authentication, sends any messages that
-- are no errors, and then is ready: the startup succeeds, the startup packet is all that was
-- written, and the connection stands right behind the server's ReadyForQuery. Each message is one
-- that its length can count.
pub startup-ready :
    (user database : Bytes) (ms : List Message) (status rest : Bytes) (c : Conn)
    → Healthy c
    → All IsWelcome ms
    → length status + 4 < 2 ^ 32
    → startup user database (record c { input = stream ms ++ (frame (b'Z', status) ++ rest) })
      ≡ (ok tt, record c { input = rest; output = c.output ++ packet user database })
unfolding startup
startup-ready user database ms status rest c h w l =
    let s = stream ms ++ (frame (b'Z', status) ++ rest) in
    let sent = write_startup-packet user database (record c { input = s }) h.0 in
    rw sent (
      startup_loop-ready ms (suc (length s)) status rest
        (record c { output = c.output ++ packet user database }) h.1 w l
        (omega
          (arith, length-stream_le ms, length-append (stream ms) (frame (b'Z', status) ++ rest))))
