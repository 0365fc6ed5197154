-- ===== src/Prelude/Decimal.antt =====
-- `strconv.Itoa` and `strconv.Atoi`.
use Prim.Native.Nat.{ℕ, zero, suc, ◌+◌, ◌-◌, ◌*◌, ◌/◌, ◌%◌, ◌^◌, ◌≤◌, ◌<◌}
use mathlib.Core.Path.{◌≡◌, refl, ◌∙◌}
use mathlib.Core.Logic.{◌≢◌}
use mathlib.Core.Bool.{Bool, true, false, ◌&&◌}
use mathlib.Core.List.{[], ◌∷◌}
use mathlib.Core.Option.{Option, none, some}
use native.Mathlib.Omega.{arith}
use streamlation.Prelude.Tests.{ltb, leb, ◌==◌, if◌then◌else◌}
use streamlation.Prelude.Lists.{All}
use streamlation.Prelude.Int.{ℤ, pos, negsuc}
use streamlation.Prelude.Text.{Bytes}

unfoldable pub is_digit : ℕ → Bool
is_digit c = leb b'0' c && leb c b'9'

-- The digits of `n` in front of `out`; `n + 1` rounds are enough.
unfoldable pub digits_onto : ℕ → ℕ → Bytes → Bytes
digits_onto zero n out = out
digits_onto (suc f) n out = elim (ltb n 10) [
  | true ↦ (b'0' + n) ∷ out
  | false ↦ digits_onto f (n / 10) ((b'0' + n % 10) ∷ out)
]

unfoldable pub format_uint : ℕ → Bytes
unfolding digits_onto
format_uint n = digits_onto (suc n) n []

unfoldable pub itoa : ℤ → Bytes
unfolding format_uint
itoa (pos n) = format_uint n
itoa (negsuc n) = b'-' ∷ format_uint (suc n)

-- The value of a run of digits, read on from `n`.
unfoldable pub scan_digits : Bytes → ℕ → Option ℕ
unfolding is_digit
scan_digits [] n = some n
scan_digits (c ∷ s) n = if is_digit c then scan_digits s (n * 10 + (c - b'0')) else none

unfoldable pub parse_uint : Bytes → Option ℕ
unfolding scan_digits
parse_uint [] = none
parse_uint (c ∷ s) = scan_digits (c ∷ s) 0

abbrev pub max_int64 : ℕ
max_int64 = 2 ^ 63 - 1

positive : Option ℕ → Option ℤ
positive none = none
positive (some n) = if leb n max_int64 then some (pos n) else none

negative : Option ℕ → Option ℤ
negative none = none
negative (some zero) = some (pos 0)
negative (some (suc n)) = if leb n max_int64 then some (negsuc n) else none

-- `none` is a syntax or a range error.
unfoldable pub atoi : Bytes → Option ℤ
unfolding parse_uint positive negative
atoi [] = none
atoi (c ∷ s) =
    if c == b'-'
    then negative (parse_uint s)
    else if c == b'+'
    then positive (parse_uint s)
    else positive (parse_uint (c ∷ s))

-- The digits of `n` in front of `out` are read as `n`.
scan_digits-digits_onto :
    (f n : ℕ) (out : Bytes) → n < f → scan_digits (digits_onto f n out) 0 ≡ scan_digits out n
unfolding scan_digits digits_onto
scan_digits-digits_onto zero n out h = absurd (omega arith)
scan_digits-digits_onto (suc f) n out h =
    ground (arith, scan_digits-digits_onto f (n / 10) ((b'0' + n % 10) ∷ out))

abbrev pub AllDigits : Bytes → Type 0
AllDigits = All (λ c. is_digit c ≡ true)

digits_onto-AllDigits : (f n : ℕ) (out : Bytes) → AllDigits out → AllDigits (digits_onto f n out)
unfolding digits_onto is_digit
digits_onto-AllDigits zero n out h = h
digits_onto-AllDigits (suc f) n out h =
    ground (arith, digits_onto-AllDigits f (n / 10) ((b'0' + n % 10) ∷ out))

digits_onto-ne_nil : (f n : ℕ) (c : ℕ) (out : Bytes) → digits_onto f n (c ∷ out) ≢ []
unfolding digits_onto
digits_onto-ne_nil zero n c out h = cc
digits_onto-ne_nil (suc f) n c out h =
    ground (arith, digits_onto-ne_nil f (n / 10) (b'0' + n % 10) (c ∷ out))

pub format_uint-AllDigits : (n : ℕ) → AllDigits (format_uint n)
unfolding format_uint
format_uint-AllDigits n = digits_onto-AllDigits (suc n) n [] tt

pub format_uint-ne_nil : (n : ℕ) → format_uint n ≢ []
unfolding format_uint digits_onto
format_uint-ne_nil n h = ground (arith, digits_onto-ne_nil n (n / 10) (b'0' + n % 10) [])

pub scan_digits-format_uint : (n : ℕ) → scan_digits (format_uint n) 0 ≡ some n
unfolding format_uint scan_digits
scan_digits-format_uint n = scan_digits-digits_onto (suc n) n [] (omega arith)

parse_uint-scan_digits : (s : Bytes) → s ≢ [] → parse_uint s ≡ scan_digits s 0
unfolding parse_uint
parse_uint-scan_digits [] h = absurd (h refl)
parse_uint-scan_digits (c ∷ s) h = refl

pub parse_uint-format_uint : (n : ℕ) → parse_uint (format_uint n) ≡ some n
parse_uint-format_uint n =
    parse_uint-scan_digits (format_uint n) (format_uint-ne_nil n) ∙ scan_digits-format_uint n

atoi_digits : (s : Bytes) → AllDigits s → atoi s ≡ positive (parse_uint s)
unfolding atoi is_digit
atoi_digits [] h = refl
atoi_digits (c ∷ s) h = ground arith

-- Reading back a printed number.
pub atoi-format_uint : (n : ℕ) → n ≤ max_int64 → atoi (format_uint n) ≡ some (pos n)
unfolding positive
atoi-format_uint n h =
    rw (atoi_digits (format_uint n) (format_uint-AllDigits n), parse_uint-format_uint n)
      (ground arith)
