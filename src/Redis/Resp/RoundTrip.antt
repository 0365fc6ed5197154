-- ===== src/Redis/Resp/RoundTrip.antt =====
-- Reading an encoded value back with the reader of packages/go/backend/redis/client.go.
use streamlation.Prelude.{
  ℕ, zero, suc, ◌+◌, ◌-◌, ◌^◌, ◌≤◌, ◌<◌, ◌≡◌, refl, ap, List, [], ◌∷◌, ◌++◌, append_assoc, true,
  false, length, leb, some, arith, ◌==◌, ◌||◌, length-append, take-length_append,
}
use streamlation.Prelude.Int.{pos}
use streamlation.Prelude.Text.{Bytes, Lacks}
use streamlation.Prelude.Decimal.{
  format_uint, max_int64, atoi, atoi-format_uint, AllDigits, is_digit, format_uint-AllDigits,
}
use streamlation.Prelude.Result.{ok}
use streamlation.Net.{Conn, Io, line_end, read_string, read_byte}
use streamlation.Net.Laws.{read_full-append}
use streamlation.Redis.Reply.{Reply, reply, Replies, Failure, bulk_read}
use streamlation.Redis.Reply
use streamlation.Redis.Resp.{
  crlf, bulk_string, trim_crlf, line, bulk, array, read_replies, on_prefix, reply_loop, read_reply,
  write_args, write_command,
}
use streamlation.Redis.Resp.Values.{
  simple, error, integer, bulk_value, null_bulk, null_array, array_value, nil, cons, Value, Values,
  encode, encode_all, to_reply, to_replies, depth, depth_all, larger, count, IsWellFormed,
  AreWellFormed,
}

trim_crlf-append : (t : Bytes) → Lacks b'\n' t → trim_crlf (t ++ crlf) ≡ t
unfolding trim_crlf
trim_crlf-append [] h = refl
trim_crlf-append (c ∷ []) h = refl
trim_crlf-append (c ∷ d ∷ []) h = refl
trim_crlf-append (c ∷ d ∷ e ∷ t) h = ap (λ s. c ∷ s) (trim_crlf-append (d ∷ e ∷ t) h.1)

AllDigits→Lacks : (s : Bytes) → AllDigits s → Lacks b'\n' s
unfolding is_digit
AllDigits→Lacks [] h = tt
AllDigits→Lacks (c ∷ s) h = let q = h.0 in (ground arith, AllDigits→Lacks s h.1)

line_end-crlf :
    (t rest : Bytes) → Lacks b'\n' t → line_end (t ++ (crlf ++ rest)) ≡ some (t ++ crlf, rest)
unfolding line_end
line_end-crlf [] rest h = refl
line_end-crlf (c ∷ t) rest h =
    let e : (c == b'\n') ≡ false = ground (arith, h.0) in rw (e, line_end-crlf t rest h.1)

pub line-append :
    (t rest : Bytes) (c : Conn)
    → Lacks b'\n' t
    → line (record c { input = t ++ (crlf ++ rest) }) ≡ (ok t, record c { input = rest })
unfolding line read_string
line-append t rest c h = rw (line, read_string, line_end-crlf t rest h, trim_crlf-append t h)

-- A printed length is read back.
length-append_line :
    (n : ℕ) (rest : Bytes) (c : Conn)
    → line (record c { input = format_uint n ++ (crlf ++ rest) })
      ≡ (ok (format_uint n), record c { input = rest })
length-append_line n rest c =
    line-append (format_uint n) rest c (AllDigits→Lacks (format_uint n) (format_uint-AllDigits n))

bulk-append :
    (v rest : Bytes) (c : Conn)
    → length v + 2 ≤ max_int64
    → bulk (some (pos (length v))) (record c { input = v ++ (crlf ++ rest) })
      ≡ (ok (reply b'$' v Reply.nil false), record c { input = rest })
unfolding bulk
bulk-append v rest c h =
    let n : leb (length v + 2) (2 ^ 63 - 1) ≡ true = ground arith in
    let l : length v + 2 ≡ length (v ++ crlf) = ground (arith, length-append v crlf) in
    rw (
      n,
      l,
      ← append_assoc v crlf rest,
      read_full-append bulk_read c (v ++ crlf) rest,
      take-length_append v crlf,
    )

module _ (next : Io Failure Reply) (rest : Bytes) (c : Conn) where
  simple-append :
      (prefix : ℕ) (t : Bytes)
      → (prefix == b'+' || prefix == b'-' || prefix == b':') ≡ true
      → Lacks b'\n' t
      → on_prefix next prefix (record c { input = (t ++ crlf) ++ rest })
        ≡ (ok (reply prefix t Reply.nil false), record c { input = rest })
  unfolding on_prefix
  simple-append prefix t h k = rw (h, append_assoc t crlf rest, line-append t rest c k)

  array-append :
      (vs : Values)
      → count vs ≤ max_int64
      → read_replies next (count vs) (record c { input = encode_all vs ++ rest })
        ≡ (ok (to_replies vs), record c { input = rest })
      → on_prefix next b'*'
          (record c { input = (format_uint (count vs) ++ (crlf ++ encode_all vs)) ++ rest })
        ≡ (ok (reply b'*' [] (to_replies vs) false), record c { input = rest })
  unfolding on_prefix array
  array-append vs h k = rw (
    append_assoc (format_uint (count vs)) (crlf ++ encode_all vs) rest,
    length-append_line (count vs) (encode_all vs ++ rest) c,
    atoi-format_uint (count vs) h,
    k,
  )

  string-append :
      (v : Bytes)
      → length v + 2 ≤ max_int64
      → on_prefix next b'$'
          (record c { input = (format_uint (length v) ++ (crlf ++ (v ++ crlf))) ++ rest })
        ≡ (ok (reply b'$' v Reply.nil false), record c { input = rest })
  unfolding on_prefix
  string-append v h = rw (
    append_assoc (format_uint (length v)) (crlf ++ (v ++ crlf)) rest,
    append_assoc v crlf rest,
    length-append_line (length v) (v ++ (crlf ++ rest)) c,
    atoi-format_uint (length v) (omega arith),
    bulk-append v rest c h,
  )

  null-append :
      on_prefix next b'$' (record c { input = b'-' ∷ b'1' ∷ (crlf ++ rest) })
      ≡ (ok (reply b'$' [] Reply.nil true), record c { input = rest })
  unfolding on_prefix line read_string line_end trim_crlf bulk atoi
  null-append = refl

  null_array-append :
      on_prefix next b'*' (record c { input = b'-' ∷ b'1' ∷ (crlf ++ rest) })
      ≡ (ok (reply b'*' [] Reply.nil true), record c { input = rest })
  unfolding on_prefix line read_string line_end trim_crlf array atoi
  null_array-append = refl

left≤larger : (a b : ℕ) → a ≤ larger a b
unfolding larger
left≤larger a b = ground arith

right≤larger : (a b : ℕ) → b ≤ larger a b
unfolding larger
right≤larger a b = ground arith

larger≤add : (a b : ℕ) → larger a b ≤ a + b
unfolding larger
larger≤add a b = ground arith

mutual
  unfolding reply_loop encode to_reply read_byte bulk_string depth read_replies count

  loop-encode :
      (v : Value) (fuel : ℕ) (rest : Bytes) (c : Conn)
      → IsWellFormed v
      → depth v < fuel
      → reply_loop fuel (record c { input = encode v ++ rest })
        ≡ (ok (to_reply v), record c { input = rest })
  loop-encode v zero rest c h k = absurd (omega arith)
  loop-encode (simple t) (suc f) rest c h k = simple-append (reply_loop f) rest c b'+' t refl h
  loop-encode (error t) (suc f) rest c h k = simple-append (reply_loop f) rest c b'-' t refl h
  loop-encode (integer t) (suc f) rest c h k = simple-append (reply_loop f) rest c b':' t refl h
  loop-encode (bulk_value v) (suc f) rest c h k = string-append (reply_loop f) rest c v h
  loop-encode null_bulk (suc f) rest c h k = null-append (reply_loop f) rest c
  loop-encode null_array (suc f) rest c h k = null_array-append (reply_loop f) rest c
  loop-encode (array_value vs) (suc f) rest c h k =
      array-append (reply_loop f) rest c vs h.0 (replies-encode vs f rest c h.1 (omega arith))

  replies-encode :
      (vs : Values) (fuel : ℕ) (rest : Bytes) (c : Conn)
      → AreWellFormed vs
      → depth_all vs < fuel
      → read_replies (reply_loop fuel) (count vs) (record c { input = encode_all vs ++ rest })
        ≡ (ok (to_replies vs), record c { input = rest })
  replies-encode nil f rest c h k = refl
  replies-encode (cons v vs) f rest c h k = rw (
    append_assoc (encode v) (encode_all vs) rest,
    loop-encode v f (encode_all vs ++ rest) c h.0
        (omega (arith, left≤larger (depth v) (depth_all vs))),
    replies-encode vs f rest c h.1 (omega (arith, right≤larger (depth v) (depth_all vs))),
  )

zero≤ : (n : ℕ) → 0 ≤ n
zero≤ n = omega arith

mutual
  unfolding encode depth

  depth≤length-encode : (v : Value) → depth v ≤ length (encode v)
  depth≤length-encode (array_value vs) = omega (
    arith,
    depth_all≤length-encode_all vs,
    length-append (format_uint (count vs)) (crlf ++ encode_all vs),
  )
  depth≤length-encode (simple t) = zero≤ _
  depth≤length-encode (error t) = zero≤ _
  depth≤length-encode (integer t) = zero≤ _
  depth≤length-encode (bulk_value t) = zero≤ _
  depth≤length-encode null_bulk = zero≤ _
  depth≤length-encode null_array = zero≤ _

  depth_all≤length-encode_all : (vs : Values) → depth_all vs ≤ length (encode_all vs)
  depth_all≤length-encode_all nil = omega arith
  depth_all≤length-encode_all (cons v vs) = omega (
    arith,
    larger≤add (depth v) (depth_all vs),
    depth≤length-encode v,
    depth_all≤length-encode_all vs,
    length-append (encode v) (encode_all vs),
  )

-- A well-formed value that the server sends is read as the reply that stands for it, whatever bytes
-- follow, and the connection then stands at exactly those bytes.
pub read_reply-encode :
    (v : Value) (rest : Bytes) (c : Conn)
    → IsWellFormed v
    → read_reply (record c { input = encode v ++ rest })
      ≡ (ok (to_reply v), record c { input = rest })
unfolding read_reply
read_reply-encode v rest c h =
    loop-encode v (suc (length (encode v ++ rest))) rest c h
      (omega (arith, depth≤length-encode v, length-append (encode v) rest))

-- The arguments of a command as an array of bulk strings.
unfoldable pub bulks : List Bytes → Values
bulks [] = nil
bulks (arg ∷ args) = cons (bulk_value arg) (bulks args)

write_args-encode_all : (args : List Bytes) → write_args args ≡ encode_all (bulks args)
unfolding write_args encode_all encode bulks
write_args-encode_all [] = refl
write_args-encode_all (arg ∷ args) = ap (λ s. bulk_string arg ++ s) (write_args-encode_all args)

count-bulks : (args : List Bytes) → count (bulks args) ≡ length args
unfolding count bulks
count-bulks [] = refl
count-bulks (arg ∷ args) = ap suc (count-bulks args)

-- A command is written as the encoding of the array of its arguments.
pub write_command-encode :
    (args : List Bytes) → write_command args ≡ encode (array_value (bulks args))
unfolding write_command encode
write_command-encode args = rw (count-bulks args, write_args-encode_all args) refl
