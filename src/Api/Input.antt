-- ===== src/Api/Input.antt =====
-- normalizeAndValidateSession of apps/api/cmd/server/session.go.
pub mod Valid
use streamlation.Prelude.{
  ℕ, ◌≡◌, Bool, true, false, ◌&&◌, ◌||◌, Option, none, some, List, [], ◌∷◌, leb, ltb, ◌==◌,
  if◌then◌else◌, length,
}
use streamlation.Prelude.Int.{ℤ, pos, negsuc}
use streamlation.Prelude.Text.{Bytes, text, equal}
use streamlation.Prelude.Result.{Result, ok, err, ◌>>=◌}
use streamlation.Session.{TranslationSource, TranslationOptions, TranslationSession}

-- `translationOptionsInput`
pub record OptionsInput : Type 0 where
  pub enable_dubbing : Option Bool
  pub latency_tolerance_ms : Option ℤ
  pub model_profile : Option Bytes

-- `translationSessionInput`
pub record SessionInput : Type 0 where
  pub id : Bytes
  pub source : Option TranslationSource
  pub target_language : Bytes
  pub options : Option OptionsInput

pub data InputError : Type 0 where
  bad_id source_required : InputError
  unsupported_source : Bytes → InputError
  bad_uri bad_language bad_latency : InputError
  unsupported_profile : Bytes → InputError

between : ℕ → ℕ → ℕ → Bool
between low high c = leb low c && leb c high

unfoldable pub id_byte : ℕ → Bool
unfolding between
id_byte c =
    between b'a' b'z' c || between b'A' b'Z' c || between b'0' b'9' c || c == b'_' || c == b'-'

unfoldable pub every : (ℕ → Bool) → Bytes → Bool
every p [] = true
every p (c ∷ s) = p c && every p s

-- ^[a-zA-Z0-9_-]{8,64}$
unfoldable pub matches_id : Bytes → Bool
unfolding every id_byte
matches_id s = every id_byte s && leb 8 (length s) && leb (length s) 64

-- ^[a-z]{2}$
unfoldable pub matches_language : Bytes → Bool
unfolding between
matches_language (c ∷ d ∷ []) = between b'a' b'z' c && between b'a' b'z' d
matches_language s = false

abbrev pub allowed_source_types : List Bytes
allowed_source_types = text "hls" ∷ text "dash" ∷ text "rtmp" ∷ text "file" ∷ []

abbrev pub allowed_model_profiles : List Bytes
allowed_model_profiles = text "cpu-basic" ∷ text "cpu-advanced" ∷ text "gpu-accelerated" ∷ []

unfoldable pub member : Bytes → List Bytes → Bool
member s [] = false
member s (t ∷ ts) = equal s t || member s ts

unfoldable pub dubbing : Option Bool → Bool
dubbing none = false
dubbing (some b) = b

unfoldable pub latency : Option ℤ → Result InputError ℤ
latency none = ok (pos 5000)
latency (some (negsuc n)) = err bad_latency
latency (some (pos n)) = if ltb 60000 n then err bad_latency else ok (pos n)

unfoldable pub profile : Option Bytes → Result InputError Bytes
unfolding member text
profile none = ok (text "cpu-basic")
profile (some p) = if member p allowed_model_profiles then ok p else err (unsupported_profile p)

unfoldable pub options_of : Option OptionsInput → Result InputError TranslationOptions
unfolding dubbing latency profile text
options_of none = ok (record {
  enable_dubbing = false;
  latency_tolerance_ms = pos 5000;
  model_profile = text "cpu-basic";
})
options_of (some o) = latency o.latency_tolerance_ms >>= λ tolerance.
    profile o.model_profile >>= λ chosen. ok (record {
      enable_dubbing = dubbing o.enable_dubbing;
      latency_tolerance_ms = tolerance;
      model_profile = chosen;
    })

unfoldable pub source_of : Option TranslationSource → Result InputError TranslationSource
source_of none = err source_required
source_of (some s) = ok s

-- `is_uri`: url.ParseRequestURI returns no error.
module _ (is_uri : Bytes → Bool) where
  unfoldable pub normalize_and_validate_session :
      SessionInput → Result InputError TranslationSession
  unfolding matches_id source_of member matches_language options_of text
  normalize_and_validate_session input =
      if matches_id input.id
      then (source_of input.source >>= λ source.
          if member source.type allowed_source_types
          then if is_uri source.uri
            then if matches_language input.target_language
              then (options_of input.options >>= λ options. ok (record {
                id = input.id;
                source = source;
                target_language = input.target_language;
                options = options;
              }))
              else err bad_language
            else err bad_uri
          else err (unsupported_source source.type))
      else err bad_id
