-- ===== src/Tests/Data.antt =====
-- Data that the tests and witnesses share.
use streamlation.Prelude.{false, none, [], ◌∷◌}
use streamlation.Prelude.Int.{pos}
use streamlation.Net.{NetError, Conn}
use streamlation.Session.{TranslationSession}

-- A connection that works, on which nothing has come or gone.
abbrev pub idle : Conn
idle = record {
  input = [];
  ending = NetError.eof;
  output = [];
  send_fault = none;
  deadline_fault = none;
}

abbrev pub demo : TranslationSession
demo = record {
  id = b's' ∷ b'e' ∷ b's' ∷ b's' ∷ b'-' ∷ b'0' ∷ b'0' ∷ b'1' ∷ [];
  source = record { type = b'h' ∷ b'l' ∷ b's' ∷ []; uri = b'/' ∷ b'a' ∷ [] };
  target_language = b'e' ∷ b'n' ∷ [];
  options = record {
    enable_dubbing = false;
    latency_tolerance_ms = pos 5000;
    model_profile = b'c' ∷ b'p' ∷ b'u' ∷ b'-' ∷ b'b' ∷ b'a' ∷ b's' ∷ b'i' ∷ b'c' ∷ [];
  };
}
