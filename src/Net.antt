-- ===== src/Net.antt =====
-- Connections as the clients see them, in place of the packages net, bufio and io: the bytes that
-- the peer sends, what a read meets behind them, what has been written, and what a write fails
-- with. How the bytes are cut into segments is invisible through `bufio.Reader` and `io.ReadFull`.
pub mod Laws
use streamlation.Prelude.{
  ℕ, ◌≡◌, zero, suc, Bool, true, false, Option, none, some, List, [], ◌∷◌, ◌++◌, leb, ◌==◌,
  if◌then◌else◌, length, take, drop,
}
use streamlation.Prelude.Text.{Bytes}
use streamlation.Prelude.Result.{Result, ok, err}

-- `eof` and `unexpected_eof` are io.EOF and io.ErrUnexpectedEOF; `timeout` and `fault` are errors
-- that implement net.Error.
pub data NetError : Type 0 where
  eof unexpected_eof timeout fault : NetError

pub record Conn : Type 0 where
  pub input : Bytes
  pub ending : NetError
  pub output : Bytes
  pub send_fault : Option NetError
  pub deadline_fault : Option NetError

-- An action on the connection that may fail with an error of type `E`.
abbrev pub Io {ℓ κ} : Type ℓ → Type κ → Type (ℓ ⊔ κ)
Io E A = Conn → Result E A × Conn

module _ {ℓ κ} {E : Type ℓ} {A : Type κ} where
  abbrev pub pure : A → Io E A
  pure a c = (ok a, c)

  abbrev pub fail : E → Io E A
  fail e c = (err e, c)

  abbrev pub lift : Result E A → Io E A
  lift r c = (r, c)

module _ {ℓ κ μ} {E : Type ℓ} {A : Type κ} {B : Type μ} where
  abbrev pub continue : Result E A → (A → Io E B) → Io E B
  continue (ok a) f c = f a c
  continue (err e) f c = (err e, c)

  infixl 5 ◌>>=◌
  abbrev pub ◌>>=◌ : Io E A → (A → Io E B) → Io E B
  ◌>>=◌ m f c = continue (m c).0 f (m c).1

infixl 5 ◌>>◌
abbrev pub ◌>>◌ {ℓ κ} : {E : Type ℓ} {B : Type κ} → Io E (Unit {0}) → Io E B → Io E B
m >> k = m >>= λ _. k

-- What io.ReadFull fails with when `got` is all there is.
unfoldable pub short : Bytes → NetError → NetError
short [] e = e
short (c ∷ got) NetError.eof = NetError.unexpected_eof
short (c ∷ got) e = e

module _ {ℓ} {E : Type ℓ} (wrap : NetError → E) where
  -- `io.ReadFull` into a buffer of `n` bytes.
  unfoldable pub read_full : ℕ → Io E Bytes
  unfolding short
  read_full n c =
      if leb n (length c.input)
      then (ok (take n c.input), record c { input = drop n c.input })
      else (err (wrap (short c.input c.ending)), record c { input = [] })

  first_byte : Bytes → Io E ℕ
  first_byte [] c = (err (wrap c.ending), c)
  first_byte (b ∷ rest) c = (ok b, record c { input = rest })

  -- `bufio.Reader.ReadByte`
  unfoldable pub read_byte : Io E ℕ
  unfolding first_byte
  read_byte c = first_byte c.input c

  -- `conn.Write`, or a buffered write and its flush.
  unfoldable pub write : Bytes → Io E (Unit {0})
  write b c = elim c.send_fault [
    | some e ↦ (err (wrap e), c)
    | none ↦ (ok tt, record c { output = c.output ++ b })
  ]

  -- `conn.SetDeadline`
  unfoldable pub set_deadline : Io E (Unit {0})
  set_deadline c = elim c.deadline_fault [ some e ↦ (err (wrap e), c) | none ↦ (ok tt, c) ]

cons_line : ℕ → Option (Bytes × Bytes) → Option (Bytes × Bytes)
cons_line c none = none
cons_line c (some (line, rest)) = some (c ∷ line, rest)

-- The text before the first newline, with the newline, and the text behind it; `none` if there is
-- no newline.
unfoldable pub line_end : Bytes → Option (Bytes × Bytes)
unfolding cons_line
line_end [] = none
line_end (c ∷ s) =
    let found = cons_line c (line_end s) in if c == b'\n' then some (c ∷ [], s) else found

-- `bufio.Reader.ReadString('\n')`
unfoldable pub read_string {ℓ} : {E : Type ℓ} → (NetError → E) → Io E Bytes
unfolding line_end
read_string wrap c = elim (line_end c.input) [
  | none ↦ (err (wrap c.ending), record c { input = [] })
  | some (line, rest) ↦ (ok line, record c { input = rest })
]

-- A connection on which no write and no deadline fails, before the peer's `input`.
abbrev pub Healthy : Conn → Type 0
Healthy c = (c.send_fault ≡ none) × (c.deadline_fault ≡ none)
