-- ===== src/Redis/Resp/Total.antt =====
-- The reader of packages/go/backend/redis/client.go on whatever the server sends: it always
-- returns, and the error values it returns.
use streamlation.Prelude.{ℕ, ◌+◌, ◌≤◌, ◌<◌, length, Option, none, some}
use streamlation.Prelude.Text.{Bytes}
use streamlation.Prelude.Result.{Result, ok, err}
use streamlation.Net.{Conn}
use streamlation.Redis.Reply.{Reply, Replies, Failure, out_of_fuel, dial, write, deadline}
use streamlation.Redis.Reply

-- The errors that reading a reply may return, and the panic at a negative length.
abbrev pub IsReadError : Failure → Type 0
IsReadError out_of_fuel = ⊥
IsReadError (dial e) = ⊥
IsReadError (write e) = ⊥
IsReadError (deadline e) = ⊥
IsReadError _ = Unit

-- An outcome from `n` bytes of input: an error of reading, or at least `k` bytes fewer.
abbrev Uses {ℓ} : {A : Type ℓ} → ℕ → ℕ → Result Failure A × Conn → Type 0
Uses n k (ok a, c) = length c.input + k ≤ n
Uses n k (err e, c) = IsReadError e

abbrev Shorter : Bytes → Option (Bytes × Bytes) → Type 0
Shorter s none = Unit
Shorter s (some (l, rest)) = length rest < length s

abbrev pub ReadFails : Result Failure Reply → Type 0
ReadFails (ok r) = Unit
ReadFails (err e) = IsReadError e
