-- ===== src/Prelude/Int.antt =====
-- Signed integers over the native numbers, under the library's names: a Go `int` before its width
-- is checked.
use Prim.Native.Nat.{ℕ, ◌+◌, ◌-◌}
use streamlation.Prelude.Tests.{ltb, if◌then◌else◌}

-- `negsuc n` is -(n + 1).
pub data ℤ : Type 0 where
  pos : ℕ → ℤ
  negsuc : ℕ → ℤ

-- The int64 (and Go `int`) with a 64-bit pattern, and the int32 with a 32-bit one.
abbrev pub signed : ℕ → ℕ → ℤ
signed half w = if ltb w half then pos w else negsuc (half + half - w - 1)
