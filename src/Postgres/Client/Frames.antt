-- ===== src/Postgres/Client/Frames.antt =====
-- Messages on the wire: what the client writes, and what it reads of a message that the server
-- frames by the protocol's rule (a type byte, and a length that counts itself).
use streamlation.Prelude.{
  ℕ, zero, suc, ◌+◌, ◌-◌, ◌*◌, ◌^◌, ◌<◌, ◌/◌, ◌%◌, ◌≡◌, refl, ap, ◌∙◌, false, none, List, [], ◌∷◌,
  ◌++◌, arith, ltb, length, length-append, append_assoc,
}
use streamlation.Prelude.Text.{Bytes, text, Lacks}
use streamlation.Prelude.Word.{put_uint32, uint32, uint32-put_uint32}
use streamlation.Prelude.Result.{ok}
use streamlation.Net.{Conn}
use streamlation.Net.Laws.{read_full-append, set_deadline-none, write-none}
use streamlation.Postgres.Failure.{net}
use streamlation.Postgres.Row.{read_cstring}
use streamlation.Postgres.Row.RoundTrip.{read_cstring-append}
use streamlation.Postgres.Client.{
  read_message, read_payload, write_query, query_message, write_startup, startup_payload,
  protocol_version, cstring,
}

abbrev pub Message : Type 0
Message = ℕ × Bytes

unfoldable pub frame : Message → Bytes
frame (typ, payload) = typ ∷ (put_uint32 (length payload + 4) ++ payload)

abbrev pub Fits : Message → Type 0
Fits (typ, payload) = length payload + 4 < 2 ^ 32

read_payload-append :
    (c : Conn) (typ : ℕ) (payload rest : Bytes)
    → read_payload typ (length payload + 4) (record c { input = payload ++ rest })
      ≡ (ok (typ, payload), record c { input = rest })
unfolding read_payload
read_payload-append c typ payload rest =
    let big : ltb (length payload + 4) 4 ≡ false = ground arith in
    let minus : length payload + 4 - 4 ≡ length payload = omega arith in
    rw (big, minus, read_full-append net c payload rest)

-- On a connection whose deadline can be set, a framed message that its length can count is read
-- back whole, and nothing of what stands behind it.
pub read_message-frame :
    (c : Conn) (m : Message) (rest : Bytes)
    → c.deadline_fault ≡ none
    → Fits m
    → read_message (record c { input = frame m ++ rest }) ≡ (ok m, record c { input = rest })
unfolding read_message frame put_uint32
read_message-frame c (typ, payload) rest h fits =
    let n = length payload + 4 in
    let header : Bytes =
      typ ∷ (n / 2 ^ 24 % 2 ^ 8) ∷ (n / 2 ^ 16 % 2 ^ 8) ∷ (n / 2 ^ 8 % 2 ^ 8) ∷ (n % 2 ^ 8) ∷ [] in
    rw (
      set_deadline-none net (record c { input = frame (typ, payload) ++ rest }) h,
      read_full-append net c header (payload ++ rest),
      uint32-put_uint32 n fits,
      read_payload-append c typ payload rest,
    )

-- Over a connection that can be written to, what the client sends for a query is one well-framed
-- message: read by the same rule, on a connection whose deadline can be set, it is the type Q with
-- the query and its terminator, for every query that the length can count.
pub read_message-write_query :
    (c d : Conn) (query rest : Bytes)
    → c.send_fault ≡ none
    → c.output ≡ []
    → d.deadline_fault ≡ none
    → length query + 5 < 2 ^ 32
    → read_message (record d { input = (write_query query c).1.output ++ rest })
      ≡ (ok (b'Q', query ++ 0 ∷ []), record d { input = rest })
unfolding write_query frame query_message
read_message-write_query c d query rest sends fresh h fits =
    rw (write-none net (query_message query) c sends, fresh)
      (read_message-frame d (b'Q', query ++ 0 ∷ []) rest h
        (omega (arith, length-append query (0 ∷ []))))

-- What a server finds in a startup packet, read by the protocol's description: the length of the
-- packet, the protocol version, and the two names with their values.
pub record Startup : Type 0 where
  pub size : ℕ
  pub version : ℕ
  pub names : List Bytes

cstrings : ℕ → Bytes → List Bytes
cstrings zero s = []
cstrings (suc n) s = let (value, rest) = read_cstring s in value ∷ cstrings n rest

unfoldable pub read_startup : Bytes → Startup
unfolding cstrings
read_startup (a ∷ b ∷ c ∷ d ∷ e ∷ f ∷ g ∷ h ∷ s) = record {
  size = uint32 a b c d;
  version = uint32 e f g h;
  names = cstrings 5 s;
}
read_startup s = record { size = 0; version = 0; names = [] }

cstrings-cstring :
    (n : ℕ) (v rest : Bytes)
    → Lacks 0 v
    → cstrings (suc n) (cstring v ++ rest) ≡ v ∷ cstrings n rest
unfolding cstrings cstring
cstrings-cstring n v rest h = rw (append_assoc v (0 ∷ []) rest) (rw (read_cstring-append v rest h))

cstrings-payload :
    (user database : Bytes)
    → Lacks 0 user
    → Lacks 0 database
    → cstrings 5 (startup_payload user database)
      ≡ text "user" ∷ user ∷ text "database" ∷ database ∷ [] ∷ []
unfolding startup_payload
cstrings-payload user database hu hd =
    cstrings-cstring 4 (text "user") _ (unfold text in omega arith)
    ∙ ap (◌∷◌ (text "user")) (
        cstrings-cstring 3 user _ hu
        ∙ ap (◌∷◌ user) (
            cstrings-cstring 2 (text "database") _ (unfold text in omega arith)
            ∙ ap (◌∷◌ (text "database"))
                (cstrings-cstring 1 database (0 ∷ []) hd ∙ (unfold cstrings read_cstring in refl))))

abbrev startup_packet : Bytes → Bytes → Bytes
startup_packet user database =
    let payload = startup_payload user database in
    put_uint32 (length payload + 4 + 4) ++ (put_uint32 protocol_version ++ payload)

protocol_version-read :
    uint32
      (196608 / 2 ^ 24 % 2 ^ 8)
      (196608 / 2 ^ 16 % 2 ^ 8)
      (196608 / 2 ^ 8 % 2 ^ 8)
      (196608 % 2 ^ 8)
    ≡ 3 * 2 ^ 16
unfolding uint32
protocol_version-read = refl

read_startup-packet :
    (user database : Bytes)
    → Lacks 0 user
    → Lacks 0 database
    → length (startup_payload user database) + 8 < 2 ^ 32
    → read_startup (startup_packet user database) ≡ record {
      size = length (startup_packet user database);
      version = 3 * 2 ^ 16;
      names = text "user" ∷ user ∷ text "database" ∷ database ∷ [] ∷ [];
    }
unfolding read_startup put_uint32
read_startup-packet user database hu hd fits =
    rw
      (
        uint32-put_uint32 (length (startup_payload user database) + 4 + 4) (omega arith),
        protocol_version-read,
        cstrings-payload user database hu hd,
      )
      (ap
        (λ (n : ℕ). record {
          size = n;
          version = 3 * 2 ^ 16;
          names = text "user" ∷ user ∷ text "database" ∷ database ∷ [] ∷ [];
        })
        (omega arith))

-- A server reads the startup packet as its own length, protocol 3.0, and the names `user` and
-- `database` with the client's values, ended by an empty name; for a user and a database without
-- a zero byte, in a packet that the length can count, over a connection that can be written to.
pub read_startup-write_startup :
    (c : Conn) (user database : Bytes)
    → c.send_fault ≡ none
    → c.output ≡ []
    → Lacks 0 user
    → Lacks 0 database
    → length (startup_payload user database) + 8 < 2 ^ 32
    → read_startup (write_startup user database c).1.output ≡ record {
      size = length (write_startup user database c).1.output;
      version = 3 * 2 ^ 16;
      names = text "user" ∷ user ∷ text "database" ∷ database ∷ [] ∷ [];
    }
unfolding write_startup
read_startup-write_startup c user database sends fresh hu hd fits =
    rw (write-none net (startup_packet user database) c sends, fresh)
      (read_startup-packet user database hu hd fits)
