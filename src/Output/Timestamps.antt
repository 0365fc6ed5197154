-- ===== src/Output/Timestamps.antt =====
-- The timestamps of the subtitles of packages/go/backend/output/stub_generator.go, read back.
use streamlation.Prelude.{
  ℕ, ◌≡◌, ◌+◌, ◌*◌, ◌/◌, ◌%◌, arith, refl, ap, ◌∙◌, true, false, Bool-cases, inl, inr, Option, none,
  some, [], ◌∷◌, ◌++◌, ltb, ◌==◌, length, length-append, ◌<◌, ◌≤◌, zero, suc, if◌then◌else◌,
}
use streamlation.Prelude.Text.{Bytes, Lacks}
use streamlation.Prelude.Decimal.{
  digits_onto, format_uint, parse_uint, scan_digits, is_digit, AllDigits, format_uint-AllDigits,
  parse_uint-format_uint, scan_digits-format_uint,
}
use streamlation.Output.{two_digits, three_digits, format_time, format_srt_time, format_vtt_time}

-- The text before the first `b`, and the text behind it.
unfoldable pub split_at : ℕ → Bytes → Bytes × Bytes
split_at b [] = ([], [])
split_at b (c ∷ s) =
    let (before, behind) = split_at b s in if c == b then ([], s) else (c ∷ before, behind)

combine : Option ℕ → Option ℕ → Option ℕ → Option ℕ → Option ℕ
combine (some h) (some m) (some s) (some ms) = some (((h * 60 + m) * 60 + s) * 1000 + ms)
combine _ _ _ _ = none

-- The milliseconds of a timestamp `hours:minutes:seconds`, with the milliseconds behind `point`.
unfoldable pub parse_time : ℕ → Bytes → Option ℕ
unfolding split_at combine
parse_time point s =
    let (hours, behind_hours) = split_at b':' s in
    let (minutes, behind_minutes) = split_at b':' behind_hours in
    let (seconds, millis) = split_at point behind_minutes in
    combine (parse_uint hours) (parse_uint minutes) (parse_uint seconds) (parse_uint millis)

split_at-append : (b : ℕ) (xs ys : Bytes) → Lacks b xs → split_at b (xs ++ b ∷ ys) ≡ (xs, ys)
unfolding split_at
split_at-append b [] ys h = let e : (b == b) ≡ true = ground arith in rw e refl
split_at-append b (x ∷ xs) ys h =
    let e : (x == b) ≡ false = ground (arith, h.0) in rw (e, split_at-append b xs ys h.1) refl

parse_uint-zero : (s : Bytes) → parse_uint (b'0' ∷ s) ≡ scan_digits s 0
unfolding parse_uint scan_digits is_digit
parse_uint-zero s = refl

two_digits-parse : (n : ℕ) → parse_uint (two_digits n) ≡ some n
unfolding two_digits
two_digits-parse n = elim (Bool-cases (ltb n 10)) [
  | inl e ↦ rw e (parse_uint-zero (format_uint n) ∙ scan_digits-format_uint n)
  | inr e ↦ rw e (parse_uint-format_uint n)
]

scan_digits-two_digits : (n : ℕ) → scan_digits (two_digits n) 0 ≡ some n
unfolding two_digits scan_digits is_digit
scan_digits-two_digits n = elim (Bool-cases (ltb n 10)) [
  | inl e ↦ rw e (scan_digits-format_uint n)
  | inr e ↦ rw e (scan_digits-format_uint n)
]

three_digits-parse : (n : ℕ) → parse_uint (three_digits n) ≡ some n
unfolding three_digits
three_digits-parse n = elim (Bool-cases (ltb n 100)) [
  | inl e ↦ rw e (parse_uint-zero (two_digits n) ∙ scan_digits-two_digits n)
  | inr e ↦ rw e (parse_uint-format_uint n)
]

AllDigits-Lacks : (b : ℕ) (s : Bytes) → is_digit b ≡ false → AllDigits s → Lacks b s
AllDigits-Lacks b [] h d = tt
AllDigits-Lacks b (c ∷ s) h d =
    ((λ same. absurd (cc (ap is_digit same, h, d.0))), AllDigits-Lacks b s h d.1)

two_digits-AllDigits : (n : ℕ) → AllDigits (two_digits n)
unfolding two_digits is_digit
two_digits-AllDigits n = elim (Bool-cases (ltb n 10)) [
  | inl e ↦ rw e (refl, format_uint-AllDigits n)
  | inr e ↦ rw e (format_uint-AllDigits n)
]

-- The milliseconds that the digits of a timestamp stand for.
split_up :
    (d : ℕ)
    → ((d / 3600000000000 * 60 + d / 60000000000 % 60) * 60 + d / 1000000000 % 60) * 1000
        + d / 1000000 % 1000
      ≡ d / 1000000
split_up d = omega arith

parse_time-format_time :
    (point d : ℕ)
    → is_digit point ≡ false
    → parse_time point (format_time point d) ≡ some (d / 1000000)
unfolding parse_time format_time combine is_digit
parse_time-format_time point d h =
    rw
      (
        split_at-append b':' (two_digits (d / 3600000000000))
            (two_digits (d / 60000000000 % 60)
              ++ b':'
                ∷ (two_digits (d / 1000000000 % 60) ++ point ∷ three_digits (d / 1000000 % 1000)))
            (AllDigits-Lacks b':' _ refl (two_digits-AllDigits (d / 3600000000000))),
        split_at-append b':' (two_digits (d / 60000000000 % 60))
            (two_digits (d / 1000000000 % 60) ++ point ∷ three_digits (d / 1000000 % 1000))
            (AllDigits-Lacks b':' _ refl (two_digits-AllDigits (d / 60000000000 % 60))),
        split_at-append point (two_digits (d / 1000000000 % 60)) (three_digits (d / 1000000 % 1000))
            (AllDigits-Lacks point _ h (two_digits-AllDigits (d / 1000000000 % 60))),
        two_digits-parse (d / 3600000000000),
        two_digits-parse (d / 60000000000 % 60),
        two_digits-parse (d / 1000000000 % 60),
        three_digits-parse (d / 1000000 % 1000),
      )
      (ap some (split_up d))

length-one_digit : (n : ℕ) → n < 10 → length (format_uint n) ≡ 1
unfolding format_uint digits_onto
length-one_digit n h = let e : ltb n 10 ≡ true = ground arith in rw (digits_onto, e) refl

length-format_uint : (n : ℕ) → 10 ≤ n → n < 100 → length (format_uint n) ≡ 2
unfolding format_uint digits_onto
length-format_uint zero l h = absurd (omega arith)
length-format_uint (suc n) l h =
    let large : ltb (suc n) 10 ≡ false = ground arith in
    let small : ltb (suc n / 10) 10 ≡ true = ground arith in
    rw (digits_onto, large, digits_onto, small) refl

length-format_uint_3 : (n : ℕ) → 100 ≤ n → n < 1000 → length (format_uint n) ≡ 3
unfolding format_uint digits_onto
length-format_uint_3 zero l h = absurd (omega arith)
length-format_uint_3 (suc zero) l h = absurd (omega arith)
length-format_uint_3 (suc (suc n)) l h =
    let large : ltb (suc (suc n)) 10 ≡ false = ground arith in
    let middle : ltb (suc (suc n) / 10) 10 ≡ false = ground arith in
    let small : ltb (suc (suc n) / 10 / 10) 10 ≡ true = ground arith in
    rw (digits_onto, large, digits_onto, middle, digits_onto, small) refl

length-two_digits : (n : ℕ) → n < 100 → length (two_digits n) ≡ 2
unfolding two_digits
length-two_digits n h = elim (Bool-cases (ltb n 10)) [
  | inl e ↦ rw e (ap suc (length-one_digit n (ground (arith, e))))
  | inr e ↦ rw e (length-format_uint n (ground (arith, e)) h)
]

length-three_digits : (n : ℕ) → n < 1000 → length (three_digits n) ≡ 3
unfolding three_digits
length-three_digits n h = elim (Bool-cases (ltb n 100)) [
  | inl e ↦ rw e (ap suc (length-two_digits n (ground (arith, e))))
  | inr e ↦ rw e (length-format_uint_3 n (ground (arith, e)) h)
]

length-format_time : (point d : ℕ) → d < 360000000000000 → length (format_time point d) ≡ 12
unfolding format_time
length-format_time point d h =
    let millis = three_digits (d / 1000000 % 1000) in
    let seconds = two_digits (d / 1000000000 % 60) in
    let minutes = two_digits (d / 60000000000 % 60) in
    omega (
      arith,
      length-append (two_digits (d / 3600000000000))
          (b':' ∷ (minutes ++ b':' ∷ (seconds ++ point ∷ millis))),
      length-append minutes (b':' ∷ (seconds ++ point ∷ millis)),
      length-append seconds (point ∷ millis),
      length-two_digits (d / 3600000000000) (omega arith),
      length-two_digits (d / 60000000000 % 60) (omega arith),
      length-two_digits (d / 1000000000 % 60) (omega arith),
      length-three_digits (d / 1000000 % 1000) (omega arith),
    )

-- Below a hundred hours the timestamps of the SRT and the WebVTT subtitles have twelve bytes, and,
-- read back, they give the time in whole milliseconds.
pub parse_time-format_srt_time :
    (d : ℕ)
    → d < 360000000000000
    → (parse_time b',' (format_srt_time d) ≡ some (d / 1000000))
      × (length (format_srt_time d) ≡ 12)
      × (parse_time b'.' (format_vtt_time d) ≡ some (d / 1000000))
      × (length (format_vtt_time d) ≡ 12)
unfolding format_srt_time format_vtt_time is_digit
parse_time-format_srt_time d h = (
  parse_time-format_time b',' d refl,
  length-format_time b',' d h,
  parse_time-format_time b'.' d refl,
  length-format_time b'.' d h,
)
