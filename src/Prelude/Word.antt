-- ===== src/Prelude/Word.antt =====
-- Big-endian numbers in byte strings, as package encoding/binary reads and writes them.
use Prim.Native.Nat.{ℕ, ◌+◌, ◌*◌, ◌/◌, ◌%◌, ◌^◌, ◌<◌}
use mathlib.Core.Path.{◌≡◌}
use mathlib.Core.List.{[], ◌∷◌}
use native.Mathlib.Omega.{arith}
use streamlation.Prelude.Text.{Bytes}

-- `binary.BigEndian.PutUint16` and `PutUint32`: the conversion to the width is the `%`.
unfoldable pub put_uint16 : ℕ → Bytes
put_uint16 n = (n / 2 ^ 8 % 2 ^ 8) ∷ (n % 2 ^ 8) ∷ []

unfoldable pub put_uint32 : ℕ → Bytes
put_uint32 n = (n / 2 ^ 24 % 2 ^ 8) ∷ (n / 2 ^ 16 % 2 ^ 8) ∷ (n / 2 ^ 8 % 2 ^ 8) ∷ (n % 2 ^ 8) ∷ []

unfoldable pub uint16 : ℕ → ℕ → ℕ
uint16 a b = a * 2 ^ 8 + b

unfoldable pub uint32 : ℕ → ℕ → ℕ → ℕ → ℕ
uint32 a b c d = a * 2 ^ 24 + b * 2 ^ 16 + c * 2 ^ 8 + d

pub uint16-put_uint16 : (n : ℕ) → n < 2 ^ 16 → uint16 (n / 2 ^ 8 % 2 ^ 8) (n % 2 ^ 8) ≡ n
unfolding uint16
uint16-put_uint16 n h = omega arith

pub uint32-put_uint32 :
    (n : ℕ)
    → n < 2 ^ 32
    → uint32 (n / 2 ^ 24 % 2 ^ 8) (n / 2 ^ 16 % 2 ^ 8) (n / 2 ^ 8 % 2 ^ 8) (n % 2 ^ 8) ≡ n
unfolding uint32
uint32-put_uint32 n h = omega arith
