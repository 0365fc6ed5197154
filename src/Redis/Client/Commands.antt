-- ===== src/Redis/Client/Commands.antt =====
-- What a command of packages/go/backend/redis/client.go returns, and the connection it leaves.
use streamlation.Prelude.{
  ℕ, ◌≡◌, true, ◌||◌, Option, none, some, List, [], ◌∷◌, ◌++◌, ◌==◌, refl, ap, ◌∙◌, Bool-cases, inl,
  inr, arith,
}
use streamlation.Prelude.Text.{Bytes, Lacks}
use streamlation.Prelude.Result.{Result, ok, err}
use streamlation.Net
use streamlation.Net.{NetError, Conn, Healthy, line_end}
use streamlation.Net.Laws.{set_deadline-none, write-none, line_end-Lacks}
use streamlation.Redis.Reply.{Reply, Failure, eof, read_line, write, deadline, server}
use streamlation.Redis.Resp.{write_command, read_reply, reply_loop, on_prefix, line}
use streamlation.Redis.Resp.Values.{Value, array_value, encode, to_reply, IsWellFormed, error}
use streamlation.Redis.Resp.RoundTrip.{bulks, read_reply-encode, write_command-encode}
use streamlation.Redis.Client.{Client, do_command, on_reply, ensure_conn}

-- What a command returns for the value that the server sends.
abbrev pub outcome : Value → Result Failure Reply
outcome (error t) = err (server t)
outcome v = ok (to_reply v)

on_reply-outcome :
    (v : Value) (client : Client) (c : Conn)
    → c.deadline_fault ≡ none
    → on_reply client (ok (to_reply v), c) ≡ (outcome v, record client { conn = some c })
unfolding on_reply to_reply
on_reply-outcome (error t) client c h = refl
on_reply-outcome v client c h = rw (set_deadline-none deadline c h)

line-Lacks :
    (t : Bytes) (c : Conn)
    → Lacks b'\n' t
    → line (record c { input = t }) ≡ (err (read_line c.ending), record c { input = [] })
unfolding line Net.read_string
line-Lacks t c h = rw (line, Net.read_string, line_end-Lacks t h)

cut_reply :
    (p : ℕ) (t : Bytes) (c : Conn)
    → (p == b'+' || p == b'-' || p == b':' || p == b'$' || p == b'*') ≡ true
    → Lacks b'\n' t
    → read_reply (record c { input = p ∷ t }) ≡ (err (read_line c.ending), record c { input = [] })
unfolding read_reply reply_loop on_prefix Net.read_byte
cut_reply p t c k h = elim (Bool-cases (p == b'+' || p == b'-' || p == b':')) [
  | inl a ↦ rw (a, line-Lacks t c h)
  | inr a ↦ rw a (elim (Bool-cases (p == b'$')) [
    | inl d ↦ rw (d, line-Lacks t c h)
    | inr d ↦
        let star : (p == b'*') ≡ true = ground (arith, k, a, d) in rw (d, star, line-Lacks t c h)
  ])
]

module _ (parse : Bytes → Option Bytes) (dialer : Bytes → Result NetError Conn) where
  -- The command over a connection that can be written to.
  pub do_command-on_reply :
      (args : List Bytes) (client : Client) (c : Conn)
      → ensure_conn parse dialer client ≡ ok c
      → Healthy c
      → do_command parse dialer args client
        ≡ on_reply client (read_reply (record c { output = c.output ++ write_command args }))
  unfolding do_command
  do_command-on_reply args client c e h =
      rw (e, set_deadline-none deadline c h.1, write-none write (write_command args) c h.0)

  -- A command over a working connection on which the server's answer, any well-formed value, comes
  -- next: the request is written as the encoding of the array of the arguments, the answer is
  -- returned, as an error if it is an error reply, and the client keeps the connection, which
  -- stands behind the answer.
  pub do_command-encode :
      (args : List Bytes) (addr : Bytes) (v : Value) (rest : Bytes) (c : Conn)
      → IsWellFormed v
      → Healthy c
      → do_command parse dialer args
          (record { addr = addr; conn = some (record c { input = encode v ++ rest }) })
        ≡ (
          outcome v,
          record {
            addr = addr;
            conn =
                some (record c {
                  input = rest;
                  output = c.output ++ encode (array_value (bulks args));
                });
          },
        )
  unfolding ensure_conn
  do_command-encode args addr v rest c w h =
      do_command-on_reply args
        (record { addr = addr; conn = some (record c { input = encode v ++ rest }) })
        (record c { input = encode v ++ rest }) refl h
      ∙ ap (on_reply _)
          (read_reply-encode v rest (record c { output = c.output ++ write_command args }) w)
      ∙ on_reply-outcome v _ _ h.1
      ∙ rw (write_command-encode args) refl

  module _ (args : List Bytes) (addr : Bytes) (c : Conn) (h : Healthy c) where
    cut_line :
        (p : ℕ) (t : Bytes)
        → (p == b'+' || p == b'-' || p == b':' || p == b'$' || p == b'*') ≡ true
        → Lacks b'\n' t
        → do_command parse dialer args (record {
          addr = addr;
          conn = some (record c { input = p ∷ t; ending = NetError.eof });
        })
          ≡ (
            err (read_line NetError.eof),
            record {
              addr = addr;
              conn = some (record c {
                input = [];
                ending = NetError.eof;
                output = c.output ++ write_command args;
              });
            },
          )
    unfolding ensure_conn on_reply
    cut_line p t k l =
        let d : Conn = record c { input = p ∷ t; ending = NetError.eof } in
        do_command-on_reply args (record { addr = addr; conn = some d }) d refl h
        ∙ ap (on_reply (record { addr = addr; conn = some d }))
            (cut_reply p t (record d { output = c.output ++ write_command args }) k l)

    dead :
        do_command parse dialer args
          (record { addr = addr; conn = some (record c { input = []; ending = NetError.eof }) })
        ≡ (err eof, record { addr = addr; conn = none })
    unfolding ensure_conn on_reply read_reply Net.read_byte
    dead =
        let d : Conn = record c { input = []; ending = NetError.eof } in
        do_command-on_reply args (record { addr = addr; conn = some d }) d refl h

  -- Finding: the server closes a working connection in the middle of the first line of an answer.
  -- The error wraps io.EOF, so `Do` returns it and keeps the dead connection, and the next command
  -- fails too, with io.EOF on that connection; only the command behind it would dial.
  pub do_command_cut :
      (args next : List Bytes) (addr : Bytes) (p : ℕ) (t : Bytes) (c : Conn)
      → (p == b'+' || p == b'-' || p == b':' || p == b'$' || p == b'*') ≡ true
      → Lacks b'\n' t
      → Healthy c
      → let first = do_command parse dialer args (record {
        addr = addr;
        conn = some (record c { input = p ∷ t; ending = NetError.eof });
      }) in
        (first.0 ≡ err (read_line NetError.eof))
        × (do_command parse dialer next first.1 ≡ (err eof, record { addr = addr; conn = none }))
  do_command_cut args next addr p t c k l h =
      let first = cut_line args addr c h p t k l in
      (
        ap (λ r. r.0) first,
        ap (λ r. do_command parse dialer next r.1) first
            ∙ dead next addr (record c { output = c.output ++ write_command args }) h,
      )
