-- ===== src/Postgres/Connect.antt =====
-- parseConfig and NewClient of packages/go/backend/postgres/client.go.
pub mod Ready
pub mod Usable
use streamlation.Prelude.{
  ℕ, zero, suc, Bool, true, false, ◌||◌, Option, none, some, List, [], ◌∷◌, ◌++◌, ◌==◌,
  if◌then◌else◌,
}
use streamlation.Prelude.Text.{Bytes, text, equal, strip_prefix}
use streamlation.Prelude.Result.{Result, ok, err, ◌>>=◌}
use streamlation.Net.{NetError, Conn}
use streamlation.Postgres.Failure.{
  Failure, invalid_url, unsupported_scheme, unsupported_sslmode, connect_failed,
}
use streamlation.Postgres.Client.{startup}

-- The parts of a URL that the program looks at, as package net/url gives them.
pub record Url : Type 0 where
  pub scheme : Bytes
  pub hostname : Bytes
  pub port : Bytes
  pub username : Bytes
  pub path : Bytes
  pub sslmode : Bytes

pub record Config : Type 0 where
  pub addr : Bytes
  pub user : Bytes
  pub database : Bytes

unfoldable pub or_default : Bytes → Bytes → Bytes
or_default [] default = default
or_default (c ∷ s) default = c ∷ s

unfoldable pub trim_slash : Bytes → Bytes
trim_slash [] = []
trim_slash (c ∷ s) = if c == b'/' then s else c ∷ s

has_colon : Bytes → Bool
has_colon [] = false
has_colon (c ∷ s) = let rest = has_colon s in c == b':' || rest

-- `net.JoinHostPort`
unfoldable pub join_host_port : Bytes → Bytes → Bytes
unfolding has_colon
join_host_port host port =
    if has_colon host then b'[' ∷ (host ++ (b']' ∷ b':' ∷ port)) else host ++ b':' ∷ port

unfoldable pub config_of : Url → Result Failure Config
unfolding or_default trim_slash join_host_port text
config_of u =
    if equal u.scheme (text "postgres") || equal u.scheme (text "postgresql")
    then (let user = or_default u.username (text "postgres") in
        if equal u.sslmode [] || equal u.sslmode (text "disable")
        then ok (record {
          addr =
              join_host_port (or_default u.hostname (text "127.0.0.1"))
                (or_default u.port (text "5432"));
          user = user;
          database = or_default (trim_slash u.path) user;
        })
        else err unsupported_sslmode)
    else err unsupported_scheme

-- `parse` is url.Parse, `none` where it returns an error.
unfoldable pub parse_config : (Bytes → Option Url) → Bytes → Result Failure Config
unfolding config_of
parse_config parse database_url = elim (parse database_url) [
  | none ↦ err invalid_url
  | some u ↦ config_of u
]

started : Result Failure (Unit {0}) × Conn → Result Failure Conn
started (ok _, c) = ok c
started (err e, c) = err e

on_dialed : Config → Result NetError Conn → Result Failure Conn
unfolding started startup
on_dialed cfg (err e) = err connect_failed
on_dialed cfg (ok c) = started (startup cfg.user cfg.database c)

-- `dialer` is what DialContext gives for an address.
unfoldable pub new_client :
    (Bytes → Option Url) → (Bytes → Result NetError Conn) → Bytes → Result Failure Conn
unfolding parse_config on_dialed
new_client parse dialer database_url =
    parse_config parse database_url >>= λ cfg. on_dialed cfg (dialer cfg.addr)
