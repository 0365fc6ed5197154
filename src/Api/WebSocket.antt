-- ===== src/Api/WebSocket.antt =====
-- The WebSocket frames of apps/api/cmd/server/status.go, to a client and from it.
pub mod Frames
pub mod Reading
pub mod Handshake
pub mod Answers
use streamlation.Prelude.{
  ℕ, zero, suc, ◌+◌, ◌-◌, ◌*◌, ◌/◌, ◌%◌, ◌^◌, ◌≡◌, Bool, true, false, ◌||◌, Option, none, some,
  List, [], ◌∷◌, ◌++◌, leb, ltb, ◌==◌, if◌then◌else◌, length,
}
use streamlation.Prelude.Int.{ℤ, pos, negsuc}
use streamlation.Prelude.Text.{Bytes}
use streamlation.Prelude.Word.{put_uint16, put_uint32, uint16, uint32}
use streamlation.Net.{
  NetError, Conn, Io, pure, fail, ◌>>=◌, ◌>>◌, read_full, read_byte, write, set_deadline,
}

-- binary.BigEndian.PutUint64
unfoldable pub put_uint64 : ℕ → Bytes
unfolding put_uint32
put_uint64 n = put_uint32 (n / 2 ^ 32) ++ put_uint32 (n % 2 ^ 32)

unfoldable pub frame_length : ℕ → Bytes
unfolding put_uint16 put_uint64
frame_length n =
    if leb n 125 then n ∷ [] else if leb n 65535 then 126 ∷ put_uint16 n else 127 ∷ put_uint64 n

-- The frame of writeWebSocketFrame.
unfoldable pub frame : ℕ → Bytes → Bytes
unfolding frame_length
frame opcode payload =
    (if ltb opcode 128 then 128 + opcode else opcode) ∷ (frame_length (length payload) ++ payload)

unfoldable pub text_frame : Bytes → Bytes
unfolding frame
text_frame payload = frame 1 payload

unfoldable pub close_frame : ℕ → Bytes
unfolding frame put_uint16
close_frame code = frame 8 (put_uint16 code)

-- Why the reading loop cancels and returns.
pub data Stop : Type 0 where
  net : NetError → Stop
  closed : Stop
  -- No error of the program: a model's loop has no rounds left. It is proved not to occur.
  out_of_fuel : Stop

-- int64 of an unsigned number of 64 bits.
unfoldable pub int64 : ℕ → ℤ
int64 n = if ltb n (2 ^ 63) then pos n else negsuc (2 ^ 64 - 1 - n)

unfoldable pub extended : Bytes → ℤ
unfolding uint16 uint32 int64
extended (a ∷ b ∷ []) = pos (uint16 a b)
extended (a ∷ b ∷ c ∷ d ∷ e ∷ f ∷ g ∷ h ∷ []) = int64 (uint32 a b c d * 2 ^ 32 + uint32 e f g h)
extended s = pos 0

unfoldable pub payload_len : ℕ → Io Stop ℤ
unfolding extended
payload_len n =
    if n == 126
    then (read_full net 2 >>= λ buf. pure (extended buf))
    else if n == 127
    then (read_full net 8 >>= λ buf. pure (extended buf))
    else pure (pos n)

-- The rounds of discardPayload; each takes a byte at least.
unfoldable pub discard_loop : ℕ → ℕ → Io Stop (Unit {0})
discard_loop fuel zero = pure tt
discard_loop zero (suc remaining) = fail out_of_fuel
discard_loop (suc fuel) (suc remaining) =
    let chunk = if ltb (suc remaining) 1024 then suc remaining else 1024 in
    read_full net chunk >>= λ _. discard_loop fuel (suc remaining - chunk)

unfoldable pub discard_payload : ℤ → Io Stop (Unit {0})
unfolding discard_loop
discard_payload (negsuc n) = pure tt
discard_payload (pos n) = discard_loop n n

unfoldable pub skip_mask : ℕ → Io Stop (Unit {0})
skip_mask second = if leb 128 second then (read_full net 4 >>= λ _. pure tt) else pure tt

-- A frame is read and passed over; its opcode is left.
unfoldable pub read_frame : Io Stop ℕ
unfolding payload_len skip_mask discard_payload
read_frame = read_byte net >>= λ first. read_byte net >>= λ second.
    payload_len (second % 128) >>= λ n.
    skip_mask second >>= λ _. discard_payload n >>= λ _. pure (first % 16)

-- The switch on the opcode; `next` is the rest of the loop.
unfoldable pub on_opcode : Io Stop (Unit {0}) → ℕ → Io Stop (Unit {0})
unfolding frame
on_opcode next opcode =
    if opcode == 8
    then fail closed
    else if opcode == 9
    then (write net (frame 10 []) >> next)
    else next

-- The number of checks of the context that still find it alive: `none` where it does not end.
abbrev pub Alive : Type 0
Alive = Option ℕ

-- websocketReadLoop, which returns where `ctx.Err()` is found. Each round reads two bytes at least.
unfoldable pub read_loop : ℕ → Alive → Io Stop (Unit {0})
unfolding read_frame on_opcode
read_loop fuel (some zero) = pure tt
read_loop zero alive = fail out_of_fuel
read_loop (suc fuel) none =
    set_deadline net >> (read_frame >>= λ opcode. on_opcode (read_loop fuel none) opcode)
read_loop (suc fuel) (some (suc n)) =
    set_deadline net >> (read_frame >>= λ opcode. on_opcode (read_loop fuel (some n)) opcode)

unfoldable pub websocket_read_loop : Alive → Io Stop (Unit {0})
unfolding read_loop
websocket_read_loop alive c = read_loop (suc (length c.input)) alive c
