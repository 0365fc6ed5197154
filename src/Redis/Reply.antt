-- ===== src/Redis/Reply.antt =====
-- The replies and errors of packages/go/backend/redis/client.go.
use streamlation.Prelude.{ℕ, Bool}
use streamlation.Prelude.Text.{Bytes}
use streamlation.Net.{NetError}

mutual
  -- `type Reply`: the type byte, the text, the array, and whether it is nil.
  pub data Reply : Type 0 where
    reply : ℕ → Bytes → Replies → Bool → Reply

  pub data Replies : Type 0 where
    nil : Replies
    cons : Reply → Replies → Replies

abbrev pub type_of : Reply → ℕ
type_of (reply t text array is_nil) = t

abbrev pub text_of : Reply → Bytes
text_of (reply t text array is_nil) = text

abbrev pub array_of : Reply → Replies
array_of (reply t text array is_nil) = array

abbrev pub nil_of : Reply → Bool
nil_of (reply t text array is_nil) = is_nil

pub data Failure : Type 0 where
  -- io.EOF itself, which `readReply` passes on bare; all other errors of reads are wrapped.
  eof : Failure
  read read_line bulk_read : NetError → Failure
  bulk_length array_length : Failure
  unexpected_type : ℕ → Failure
  dial write deadline : NetError → Failure
  invalid_url missing_host unexpected_subscribe_reply : Failure
  -- An error reply of the server.
  server : Bytes → Failure
  -- No error value: the goroutine panics at a negative length.
  panic : Failure
  -- No error of the program: a model's loop has no rounds left. It is proved not to occur.
  out_of_fuel : Failure
