-- ===== src/Redis/Resp.antt =====
-- writeCommand, readReply and readLine of packages/go/backend/redis/client.go.
pub mod Values
pub mod RoundTrip
pub mod Total
use streamlation.Prelude.{
  ℕ, zero, suc, ◌+◌, ◌-◌, ◌^◌, Bool, true, false, ◌&&◌, ◌||◌, Option, none, some, List, [], ◌∷◌,
  ◌++◌, leb, ◌==◌, if◌then◌else◌, length, take,
}
use streamlation.Prelude.Int.{ℤ, pos, negsuc}
use streamlation.Prelude.Text.{Bytes}
use streamlation.Prelude.Decimal.{atoi, format_uint}
use streamlation.Prelude.Result.{ok, err}
use streamlation.Net.{NetError, Conn, Io, pure, fail, ◌>>=◌, read_full, read_byte, read_string}
use streamlation.Redis.Reply.{
  Reply, reply, Replies, nil, cons, Failure, eof, read, read_line, bulk_read, bulk_length,
  array_length, unexpected_type, panic, out_of_fuel,
}

abbrev pub crlf : Bytes
crlf = 13 ∷ 10 ∷ []

-- "$%d\r\n%s\r\n"
unfoldable pub bulk_string : Bytes → Bytes
bulk_string arg = b'$' ∷ (format_uint (length arg) ++ (crlf ++ (arg ++ crlf)))

unfoldable pub write_args : List Bytes → Bytes
unfolding bulk_string
write_args [] = []
write_args (arg ∷ args) = bulk_string arg ++ write_args args

-- What `writeCommand` puts into the buffer, which is flushed as one write.
unfoldable pub write_command : List Bytes → Bytes
unfolding write_args
write_command args = b'*' ∷ (format_uint (length args) ++ (crlf ++ write_args args))

-- `strings.TrimSuffix(line, "\r\n")`
unfoldable pub trim_crlf : Bytes → Bytes
trim_crlf [] = []
trim_crlf (c ∷ []) = c ∷ []
trim_crlf (c ∷ d ∷ []) = if c == 13 && d == 10 then [] else c ∷ d ∷ []
trim_crlf (c ∷ d ∷ e ∷ s) = c ∷ trim_crlf (d ∷ e ∷ s)

unfoldable pub line : Io Failure Bytes
unfolding trim_crlf
line = do l ← read_string read_line; pure (trim_crlf l)

-- The error of `ReadByte`: io.EOF is passed on bare.
unfoldable pub prefix_error : NetError → Failure
prefix_error NetError.eof = eof
prefix_error e = read e

-- `buf[:length]` of a bulk string. `make` panics below 0, and so does the slice at length -2; the
-- length plus two must be an int.
unfoldable pub bulk : Option ℤ → Io Failure Reply
bulk none = fail bulk_length
bulk (some (negsuc zero)) = pure (reply b'$' [] nil true)
bulk (some (negsuc (suc n))) = fail panic
bulk (some (pos n)) =
    if leb (n + 2) (2 ^ 63 - 1)
    then (read_full bulk_read (n + 2) >>= λ buf. pure (reply b'$' (take n buf) nil false))
    else fail panic

-- The loop over the elements of an array, each read by `next`.
unfoldable pub read_replies : Io Failure Reply → ℕ → Io Failure Replies
read_replies next zero = pure nil
read_replies next (suc n) = do value ← next; rest ← read_replies next n; pure (cons value rest)

unfoldable pub array : Io Failure Reply → Option ℤ → Io Failure Reply
unfolding read_replies
array next none = fail array_length
array next (some (negsuc zero)) = pure (reply b'*' [] nil true)
array next (some (negsuc (suc n))) = fail panic
array next (some (pos n)) = do values ← read_replies next n; pure (reply b'*' [] values false)

-- The switch on the first byte; `next` reads the elements of an array.
unfoldable pub on_prefix : Io Failure Reply → ℕ → Io Failure Reply
unfolding line bulk array
on_prefix next prefix =
    if prefix == b'+' || prefix == b'-' || prefix == b':'
    then (line >>= λ l. pure (reply prefix l nil false))
    else if prefix == b'$'
    then (line >>= λ l. bulk (atoi l))
    else if prefix == b'*'
    then (line >>= λ l. array next (atoi l))
    else fail (unexpected_type prefix)

-- Arrays nest as deep as the fuel; each level reads a byte.
unfoldable pub reply_loop : ℕ → Io Failure Reply
unfolding prefix_error
reply_loop zero = fail out_of_fuel
reply_loop (suc fuel) = do prefix ← read_byte prefix_error; on_prefix (reply_loop fuel) prefix

unfoldable pub read_reply : Io Failure Reply
unfolding reply_loop
read_reply c = reply_loop (suc (length c.input)) c
