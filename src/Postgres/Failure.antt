-- ===== src/Postgres/Failure.antt =====
-- The errors that packages/go/backend/postgres returns, one constructor for each place that makes
-- one; what a message quotes is kept where the program looks at it again.
use streamlation.Prelude.{ℕ}
use streamlation.Prelude.Text.{Bytes}
use streamlation.Net.{NetError}

-- `type Error`: what the server reports.
pub record ServerError : Type 0 where
  pub severity : Bytes
  pub code : Bytes
  pub message : Bytes

pub data Failure : Type 0 where
  invalid_url unsupported_scheme unsupported_sslmode connect_failed : Failure
  invalid_authentication : Failure
  unsupported_authentication : ℕ → Failure
  net : NetError → Failure
  invalid_message_length : Failure
  server : ServerError → Failure
  invalid_placeholder missing_parameter unsupported_parameter : Failure
  no_rows column_count_mismatch invalid_integer unsupported_destination : Failure
  scan_out_of_sequence : Failure
  invalid_data_row malformed_data_row malformed_data_row_length : Failure
  session_exists session_not_found : Failure
  -- No error of the program: a model's loop has no rounds left. It is proved not to occur.
  out_of_fuel : Failure
