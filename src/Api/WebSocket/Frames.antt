-- ===== src/Api/WebSocket/Frames.antt =====
-- Frames read and passed over as apps/api/cmd/server/status.go does, against a writer of frames
-- from RFC 6455.
use streamlation.Prelude.{
  ℕ, zero, suc, ◌+◌, ◌-◌, ◌*◌, ◌/◌, ◌%◌, ◌^◌, ◌≡◌, ◌≤◌, ◌<◌, refl, ap, sym, ◌∙◌, true, false,
  Option, none, some, [], ◌∷◌, ◌++◌, leb, ltb, ◌==◌, if◌then◌else◌, length, drop, arith,
  append_assoc, length-append, length-drop, drop-length_append, Bool-cases, inl, inr,
}
use streamlation.Prelude.Int.{pos}
use streamlation.Prelude.Text.{Bytes}
use streamlation.Prelude.Word.{put_uint16, put_uint32, uint16-put_uint16, uint32-put_uint32}
use streamlation.Prelude.Result.{ok}
use streamlation.Net.{Conn, ◌>>=◌, read_full, read_byte}
use streamlation.Net.Laws.{read_full-append}
use streamlation.Api.WebSocket.{
  net, put_uint64, frame_length, frame, int64, extended, payload_len, discard_loop, discard_payload,
  skip_mask, read_frame,
}

drop-nil : (n : ℕ) → drop {A = ℕ} n [] ≡ []
drop-nil zero = refl
drop-nil (suc n) = refl

suc_add : (m n : ℕ) → suc m + n ≡ suc (m + n)
suc_add m n = omega arith

drop-drop : (m n : ℕ) (s : Bytes) → drop n (drop m s) ≡ drop (m + n) s
drop-drop zero n s = ap (λ k. drop k s) (omega arith)
drop-drop (suc m) n [] = drop-nil n ∙ sym (drop-nil (suc m + n))
drop-drop (suc m) n (x ∷ s) = drop-drop m n s ∙ ap (λ k. drop k (x ∷ s)) (sym (suc_add m n))

-- A round that takes `k` of the bytes, behind which the loop does its part.
discard_loop-round :
    (fuel n k : ℕ) (s : Bytes) (c : Conn)
    → k ≤ n
    → k ≤ length s
    → discard_loop fuel (n - k) (record c { input = drop k s })
      ≡ (ok tt, record c { input = drop (n - k) (drop k s) })
    → (read_full net k >>= λ _. discard_loop fuel (n - k)) (record c { input = s })
      ≡ (ok tt, record c { input = drop n s })
unfolding read_full
discard_loop-round fuel n k s c h l ih =
    let fits : leb k (length s) ≡ true = ground arith in
    let sum : k + (n - k) ≡ n = omega arith in rw (fits, ih, drop-drop k (n - k) s, sum)

discard_loop-drop :
    (fuel n : ℕ) (s : Bytes) (c : Conn)
    → n ≤ fuel
    → n ≤ length s
    → discard_loop fuel n (record c { input = s }) ≡ (ok tt, record c { input = drop n s })
unfolding discard_loop
discard_loop-drop fuel zero s c h k = refl
discard_loop-drop zero (suc n) s c h k = absurd (omega arith)
discard_loop-drop (suc fuel) (suc n) s c h k = elim (Bool-cases (ltb (suc n) 1024)) [
  | inl e ↦ rw e (
      discard_loop-round fuel (suc n) (suc n) s c (omega arith) k
        (discard_loop-drop fuel (suc n - suc n) (drop (suc n) s) c (omega arith) (omega arith)))
  | inr e ↦
      let large : 1024 ≤ suc n = ground arith in
      rw e (
        discard_loop-round fuel (suc n) 1024 s c large (omega arith) (
          discard_loop-drop fuel (suc n - 1024) (drop 1024 s) c (omega arith)
            (omega (arith, length-drop 1024 s))))
]

-- The length of a payload as seven bits, and what follows them.
unfoldable pub seven_bits : ℕ → ℕ
seven_bits n = if leb n 125 then n else if leb n 65535 then 126 else 127

unfoldable pub extension : ℕ → Bytes
extension n = if leb n 125 then [] else if leb n 65535 then put_uint16 n else put_uint64 n

-- A frame with its first byte, a masking key or none, and a payload as it is on the wire.
unfoldable pub client_frame : ℕ → Option Bytes → Bytes → Bytes
unfolding seven_bits extension
client_frame first none payload =
    first ∷ seven_bits (length payload) ∷ (extension (length payload) ++ payload)
client_frame first (some key) payload =
    first ∷ (128 + seven_bits (length payload)) ∷ (extension (length payload) ++ (key ++ payload))

abbrev pub IsKey : Option Bytes → Type 0
IsKey none = Unit
IsKey (some key) = length key ≡ 4

int64_small : (n : ℕ) → n < 2 ^ 63 → int64 n ≡ pos n
unfolding int64
int64_small n h = let e : ltb n (2 ^ 63) ≡ true = ground arith in rw e

extended-put_uint64 : (n : ℕ) → n < 2 ^ 63 → extended (put_uint64 n) ≡ pos n
unfolding extended put_uint64 put_uint32
extended-put_uint64 n h =
    let halves : n / 2 ^ 32 * 2 ^ 32 + n % 2 ^ 32 ≡ n = omega arith in
    rw (
      uint32-put_uint32 (n / 2 ^ 32) (omega arith),
      uint32-put_uint32 (n % 2 ^ 32) (omega arith),
      halves,
      int64_small n h,
    )

extended-put_uint16 : (n : ℕ) → n < 2 ^ 16 → extended (put_uint16 n) ≡ pos n
unfolding extended put_uint16
extended-put_uint16 n h = ap pos (uint16-put_uint16 n h)

read-put_uint16 :
    (n : ℕ) (rest : Bytes) (c : Conn)
    → read_full net 2 (record c { input = put_uint16 n ++ rest })
      ≡ (ok (put_uint16 n), record c { input = rest })
unfolding put_uint16
read-put_uint16 n rest c = read_full-append net c (put_uint16 n) rest

read-put_uint64 :
    (n : ℕ) (rest : Bytes) (c : Conn)
    → read_full net 8 (record c { input = put_uint64 n ++ rest })
      ≡ (ok (put_uint64 n), record c { input = rest })
unfolding put_uint64 put_uint32
read-put_uint64 n rest c = read_full-append net c (put_uint64 n) rest

payload_len-extension :
    (n : ℕ) (rest : Bytes) (c : Conn)
    → n < 2 ^ 63
    → payload_len (seven_bits n) (record c { input = extension n ++ rest })
      ≡ (ok (pos n), record c { input = rest })
unfolding payload_len seven_bits extension
payload_len-extension n rest c h = elim (Bool-cases (leb n 125)) [
  | inl a ↦
      let x : (n == 126) ≡ false = ground arith in
      let y : (n == 127) ≡ false = ground arith in rw (a, x, y)
  | inr a ↦ rw a (elim (Bool-cases (leb n 65535)) [
    | inl b ↦ rw (b, read-put_uint16 n rest c, extended-put_uint16 n (ground arith))
    | inr b ↦ rw (b, read-put_uint64 n rest c, extended-put_uint64 n h)
  ])
]

-- The second byte of a frame, with its mask bit and the length's seven bits.
seven_bits_small : (n : ℕ) → seven_bits n < 128
unfolding seven_bits
seven_bits_small n = ground arith

discard_payload-append :
    (s rest : Bytes) (c : Conn)
    → discard_payload (pos (length s)) (record c { input = s ++ rest })
      ≡ (ok tt, record c { input = rest })
unfolding discard_payload
discard_payload-append s rest c =
    discard_loop-drop (length s) (length s) (s ++ rest) c (omega arith)
      (omega (arith, length-append s rest))
    ∙ rw (drop-length_append s rest) refl

-- A frame of a client, masked with a key of four bytes or not, with a payload shorter than 2^63, is
-- passed over: its opcode is left, and
-- the connection stands behind it.
pub read_frame-client_frame :
    (first : ℕ) (key : Option Bytes) (payload rest : Bytes) (c : Conn)
    → IsKey key
    → length payload < 2 ^ 63
    → read_frame (record c { input = client_frame first key payload ++ rest })
      ≡ (ok (first % 16), record c { input = rest })
unfolding read_frame client_frame read_byte skip_mask
read_frame-client_frame first none payload rest c k h =
    let small = seven_bits_small (length payload) in
    let low : seven_bits (length payload) % 128 ≡ seven_bits (length payload) = omega arith in
    let bit : leb 128 (seven_bits (length payload)) ≡ false = ground arith in
    rw (
      append_assoc (extension (length payload)) payload rest,
      low,
      payload_len-extension (length payload) (payload ++ rest) c h,
      bit,
      discard_payload-append payload rest c,
    )
read_frame-client_frame first (some key) payload rest c k h =
    let small = seven_bits_small (length payload) in
    let low : (128 + seven_bits (length payload)) % 128 ≡ seven_bits (length payload) =
      omega arith in
    let bit : leb 128 (128 + seven_bits (length payload)) ≡ true = ground arith in
    rw (
      append_assoc (extension (length payload)) (key ++ payload) rest,
      append_assoc key payload rest,
      low,
      payload_len-extension (length payload) (key ++ (payload ++ rest)) c h,
      bit,
      sym k,
      read_full-append net c key (payload ++ rest),
      discard_payload-append payload rest c,
    )

frame_length-seven_bits : (n : ℕ) → frame_length n ≡ seven_bits n ∷ extension n
unfolding frame_length seven_bits extension
frame_length-seven_bits n = elim (Bool-cases (leb n 125)) [
  | inl a ↦ rw a
  | inr a ↦ rw a (elim (Bool-cases (leb n 65535)) [ inl b ↦ rw b | inr b ↦ rw b ])
]

frame-client_frame :
    (opcode : ℕ) (payload : Bytes)
    → opcode < 16
    → frame opcode payload ≡ client_frame (128 + opcode) none payload
unfolding frame frame_length client_frame
frame-client_frame opcode payload h =
    let e : ltb opcode 128 ≡ true = ground arith in
    rw (e, frame_length-seven_bits (length payload)) refl

-- The frames that the server writes are frames of RFC 6455: its own reader passes over one, finds
-- the opcode that was written, and stands behind the frame. The opcode is below 16, the payload
-- shorter than 2^63.
pub read_frame-frame :
    (opcode : ℕ) (payload rest : Bytes) (c : Conn)
    → opcode < 16
    → length payload < 2 ^ 63
    → read_frame (record c { input = frame opcode payload ++ rest })
      ≡ (ok opcode, record c { input = rest })
read_frame-frame opcode payload rest c h k =
    let e : (128 + opcode) % 16 ≡ opcode = omega arith in
    rw (frame-client_frame opcode payload h)
      (read_frame-client_frame (128 + opcode) none payload rest c tt k ∙ rw e refl)
