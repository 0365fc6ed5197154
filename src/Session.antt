-- ===== src/Session.antt =====
-- packages/go/backend/session/session.go: the configuration of a translation session.
use streamlation.Prelude.{Bool}
use streamlation.Prelude.Int.{ℤ}
use streamlation.Prelude.Text.{Bytes}

pub record TranslationSource : Type 0 where
  pub type : Bytes
  pub uri : Bytes

pub record TranslationOptions : Type 0 where
  pub enable_dubbing : Bool
  pub latency_tolerance_ms : ℤ
  pub model_profile : Bytes

pub record TranslationSession : Type 0 where
  pub id : Bytes
  pub source : TranslationSource
  pub target_language : Bytes
  pub options : TranslationOptions
