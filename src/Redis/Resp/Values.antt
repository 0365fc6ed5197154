-- ===== src/Redis/Resp/Values.antt =====
-- The values of the Redis protocol and their encoding, from the protocol's description.
use streamlation.Prelude.{ℕ, suc, ◌+◌, ◌≤◌, [], ◌∷◌, ◌++◌, true, false, length, leb, if◌then◌else◌}
use streamlation.Prelude.Text.{Bytes, Lacks}
use streamlation.Prelude.Decimal.{format_uint, max_int64}
use streamlation.Redis.Reply.{Reply, reply, Replies}
use streamlation.Redis.Reply
use streamlation.Redis.Resp.{crlf, bulk_string}

mutual
  pub data Value : Type 0 where
    simple error integer : Bytes → Value
    bulk_value : Bytes → Value
    null_bulk null_array : Value
    array_value : Values → Value

  pub data Values : Type 0 where
    nil : Values
    cons : Value → Values → Values

unfoldable pub count : Values → ℕ
count nil = 0
count (cons v vs) = suc (count vs)

unfoldable mutual
  unfolding count

  pub encode : Value → Bytes
  encode (simple t) = b'+' ∷ (t ++ crlf)
  encode (error t) = b'-' ∷ (t ++ crlf)
  encode (integer t) = b':' ∷ (t ++ crlf)
  encode (bulk_value v) = bulk_string v
  encode null_bulk = b'$' ∷ b'-' ∷ b'1' ∷ crlf
  encode null_array = b'*' ∷ b'-' ∷ b'1' ∷ crlf
  encode (array_value vs) = b'*' ∷ (format_uint (count vs) ++ (crlf ++ encode_all vs))

  pub encode_all : Values → Bytes
  encode_all nil = []
  encode_all (cons v vs) = encode v ++ encode_all vs

-- The reply that stands for a value.
unfoldable mutual
  pub to_reply : Value → Reply
  to_reply (simple t) = reply b'+' t Reply.nil false
  to_reply (error t) = reply b'-' t Reply.nil false
  to_reply (integer t) = reply b':' t Reply.nil false
  to_reply (bulk_value v) = reply b'$' v Reply.nil false
  to_reply null_bulk = reply b'$' [] Reply.nil true
  to_reply null_array = reply b'*' [] Reply.nil true
  to_reply (array_value vs) = reply b'*' [] (to_replies vs) false

  pub to_replies : Values → Replies
  to_replies nil = Reply.nil
  to_replies (cons v vs) = Reply.cons (to_reply v) (to_replies vs)

unfoldable pub larger : ℕ → ℕ → ℕ
larger a b = if leb a b then b else a

-- How deep arrays nest.
unfoldable mutual
  unfolding larger

  pub depth : Value → ℕ
  depth (array_value vs) = suc (depth_all vs)
  depth _ = 0

  pub depth_all : Values → ℕ
  depth_all nil = 0
  depth_all (cons v vs) = larger (depth v) (depth_all vs)

-- Lines hold no newline, and every length is an int.
abbrev mutual
  pub IsWellFormed : Value → Type 0
  IsWellFormed (simple t) = Lacks b'\n' t
  IsWellFormed (error t) = Lacks b'\n' t
  IsWellFormed (integer t) = Lacks b'\n' t
  IsWellFormed (bulk_value v) = length v + 2 ≤ max_int64
  IsWellFormed null_bulk = Unit
  IsWellFormed null_array = Unit
  IsWellFormed (array_value vs) = (count vs ≤ max_int64) × AreWellFormed vs

  pub AreWellFormed : Values → Type 0
  AreWellFormed nil = Unit
  AreWellFormed (cons v vs) = IsWellFormed v × AreWellFormed vs
