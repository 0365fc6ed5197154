-- ===== src/Api/Input/Valid.antt =====
-- normalizeAndValidateSession of apps/api/cmd/server/session.go accepts exactly the acceptable
-- sessions.
use streamlation.Prelude.{
  ℕ, ◌≡◌, ◌≤◌, ◌⊎◌, inl, inr, refl, Bool, true, false, Option, none, some, List, [], ◌∷◌, ltb,
  length, All, arith, Bool-cases,
}
use mathlib.Core.Path.{subst}
use streamlation.Prelude.Int.{ℤ, pos, negsuc}
use streamlation.Prelude.Text.{Bytes, text, equal, equal_self, equal_iff}
use streamlation.Prelude.Result.{Result, ok, err, ◌>>=◌}
use streamlation.Session.{TranslationSource, TranslationOptions, TranslationSession}
use streamlation.Api.Input.{
  dubbing, source_of, OptionsInput, SessionInput, InputError, id_byte, every, matches_id,
  matches_language, allowed_source_types, allowed_model_profiles, member, latency, profile,
  options_of, normalize_and_validate_session,
}

abbrev pub Within : ℕ → ℕ → ℕ → Type 0
Within low high c = (low ≤ c) × (c ≤ high)

abbrev pub IsIdByte : ℕ → Type 0
IsIdByte c =
    Within b'a' b'z' c ⊎ (Within b'A' b'Z' c ⊎ (Within b'0' b'9' c ⊎ ((c ≡ b'_') ⊎ (c ≡ b'-'))))

abbrev OneOf : Bytes → List Bytes → Type 0
OneOf s [] = ⊥
OneOf s (t ∷ ts) = (s ≡ t) ⊎ OneOf s ts

abbrev IsLanguage : Bytes → Type 0
IsLanguage s = (length s ≡ 2) × All (Within b'a' b'z') s

abbrev IsTolerance : ℤ → Type 0
IsTolerance (pos n) = n ≤ 60000
IsTolerance (negsuc n) = ⊥

-- The source types and the profiles of packages/schemas/translation-session.schema.json.
abbrev source_types : List Bytes
source_types = text "hls" ∷ text "dash" ∷ text "rtmp" ∷ text "file" ∷ []

abbrev model_profiles : List Bytes
model_profiles = text "cpu-basic" ∷ text "cpu-advanced" ∷ text "gpu-accelerated" ∷ []

-- The sessions that are acceptable, where `is_uri` are the texts that url.ParseRequestURI parses,
-- paths such as /a among them.
abbrev pub IsAcceptable : (Bytes → Bool) → TranslationSession → Type 0
IsAcceptable is_uri s =
    All IsIdByte s.id
    × Within 8 64 (length s.id)
    × OneOf s.source.type source_types
    × (is_uri s.source.uri ≡ true)
    × IsLanguage s.target_language
    × IsTolerance s.options.latency_tolerance_ms
    × OneOf s.options.model_profile model_profiles

id_byte_sound : (c : ℕ) → id_byte c ≡ true → IsIdByte c
unfolding id_byte
id_byte_sound c h = grind arith

id_byte_complete : (c : ℕ) → IsIdByte c → id_byte c ≡ true
unfolding id_byte
id_byte_complete c h = grind arith

every_sound : (s : Bytes) → every id_byte s ≡ true → All IsIdByte s
unfolding every
every_sound [] h = tt
every_sound (c ∷ s) h = (id_byte_sound c (ground arith), every_sound s (ground arith))

every_complete : (s : Bytes) → All IsIdByte s → every id_byte s ≡ true
unfolding every
every_complete [] h = refl
every_complete (c ∷ s) h = rw (id_byte_complete c h.0, every_complete s h.1)

pub matches_id_sound : (s : Bytes) → matches_id s ≡ true → All IsIdByte s × Within 8 64 (length s)
unfolding matches_id
matches_id_sound s h = (every_sound s (ground arith), ground arith)

pub matches_id_complete :
    (s : Bytes) → All IsIdByte s → Within 8 64 (length s) → matches_id s ≡ true
unfolding matches_id
matches_id_complete s h k = let e = every_complete s h in ground (arith, e)

member_sound : (s : Bytes) (ts : List Bytes) → member s ts ≡ true → OneOf s ts
unfolding member
member_sound s [] h = cc
member_sound s (t ∷ ts) h = elim (Bool-cases (equal s t)) [
  | inl e ↦ inl ((equal_iff s t).0 e)
  | inr e ↦ inr (member_sound s ts (ground (arith, h, e)))
]

member_complete : (s : Bytes) (ts : List Bytes) → OneOf s ts → member s ts ≡ true
unfolding member
member_complete s [] m = elim m [ ]
member_complete s (t ∷ ts) (inl e) = rw (e, equal_self t)
member_complete s (t ∷ ts) (inr m) = let k = member_complete s ts m in ground (arith, k)

matches_language-IsLanguage : (s : Bytes) → matches_language s ≡ true → IsLanguage s
unfolding matches_language
matches_language-IsLanguage (c ∷ d ∷ []) h = (refl, ground arith)
matches_language-IsLanguage [] h = cc
matches_language-IsLanguage (c ∷ []) h = cc
matches_language-IsLanguage (c ∷ d ∷ e ∷ s) h = cc

matches_language-of_IsLanguage : (s : Bytes) → IsLanguage s → matches_language s ≡ true
unfolding matches_language
matches_language-of_IsLanguage (c ∷ d ∷ []) h = ground arith
matches_language-of_IsLanguage [] h = absurd (omega (arith, h.0))
matches_language-of_IsLanguage (c ∷ []) h = absurd (omega (arith, h.0))
matches_language-of_IsLanguage (c ∷ d ∷ e ∷ s) h = absurd (omega (arith, h.0))

-- The input that spells a session out.
unfoldable pub input_of : TranslationSession → SessionInput
input_of s = record {
  id = s.id;
  source = some s.source;
  target_language = s.target_language;
  options = some (record {
    enable_dubbing = some s.options.enable_dubbing;
    latency_tolerance_ms = some s.options.latency_tolerance_ms;
    model_profile = some s.options.model_profile;
  });
}

latency_complete : (n : ℤ) → IsTolerance n → latency (some n) ≡ ok n
unfolding latency
latency_complete (pos n) h = let e : ltb 60000 n ≡ false = ground arith in rw e
latency_complete (negsuc n) h = absurd h

profile_complete : (p : Bytes) → OneOf p allowed_model_profiles → profile (some p) ≡ ok p
unfolding profile
profile_complete p h = rw (member_complete p allowed_model_profiles h)

dubbing-some : (b : Bool) → dubbing (some b) ≡ b
unfolding dubbing
dubbing-some b = refl

-- Every acceptable session is accepted as it is when the request spells it out.
pub normalize-input_of :
    (is_uri : Bytes → Bool) (s : TranslationSession)
    → IsAcceptable is_uri s
    → normalize_and_validate_session is_uri (input_of s) ≡ ok s
unfolding normalize_and_validate_session input_of dubbing
normalize-input_of is_uri s h = rw (
  matches_id_complete s.id h.0 h.1,
  member_complete s.source.type allowed_source_types h.2,
  h.3,
  matches_language-of_IsLanguage s.target_language h.4,
  latency_complete s.options.latency_tolerance_ms h.5,
  profile_complete s.options.model_profile h.6,
)

Holds {ℓ κ} : {E A : Type ℓ} → (A → Type κ) → Result E A → Type κ
Holds p (ok a) = p a
Holds p (err e) = Unit

Holds->>= {κ} :
    {A B : Type 0} (p : A → Type κ) (q : B → Type κ) (r : Result InputError A)
    (f : A → Result InputError B)
    → Holds p r
    → ((a : A) → p a → Holds q (f a))
    → Holds q (r >>= f)
unfolding Holds
Holds->>= p q (ok a) f h k = k a h
Holds->>= p q (err e) f h k = tt

latency-IsTolerance : (n : Option ℤ) → Holds IsTolerance (latency n)
unfolding Holds latency
latency-IsTolerance none = omega arith
latency-IsTolerance (some (negsuc n)) = tt
latency-IsTolerance (some (pos n)) = elim (Bool-cases (ltb 60000 n)) [
  | inl h ↦ rw h tt
  | inr h ↦ rw h (ground arith)
]

profile-OneOf : (p : Option Bytes) → Holds (λ q. OneOf q allowed_model_profiles) (profile p)
unfolding Holds profile
profile-OneOf none = inl refl
profile-OneOf (some p) = elim (Bool-cases (member p allowed_model_profiles)) [
  | inl h ↦ rw h (member_sound p allowed_model_profiles h)
  | inr h ↦ rw h tt
]

abbrev GoodOptions : TranslationOptions → Type 0
GoodOptions o = IsTolerance o.latency_tolerance_ms × OneOf o.model_profile allowed_model_profiles

options_of-GoodOptions : (o : Option OptionsInput) → Holds GoodOptions (options_of o)
unfolding Holds options_of
options_of-GoodOptions none = (omega arith, inl refl)
options_of-GoodOptions (some o) =
    Holds->>= IsTolerance GoodOptions (latency o.latency_tolerance_ms) _
      (latency-IsTolerance o.latency_tolerance_ms)
      λ n h.
        Holds->>= (λ q. OneOf q allowed_model_profiles) GoodOptions (profile o.model_profile) _
          (profile-OneOf o.model_profile) λ q k. (h, k)

source_of-Holds : (s : Option TranslationSource) → Holds (λ s. Unit {0}) (source_of s)
unfolding Holds source_of
source_of-Holds none = tt
source_of-Holds (some s) = tt

normalize-Holds :
    (is_uri : Bytes → Bool) (input : SessionInput)
    → Holds (IsAcceptable is_uri) (normalize_and_validate_session is_uri input)
unfolding Holds normalize_and_validate_session
normalize-Holds is_uri input = elim (Bool-cases (matches_id input.id)) [
  | inr i ↦ rw i tt
  | inl i ↦ rw i (
      Holds->>= (λ s. Unit) (IsAcceptable is_uri) (source_of input.source) _
        (source_of-Holds input.source)
        λ source _. elim (Bool-cases (member source.type allowed_source_types)) [
          | inr m ↦ rw m tt
          | inl m ↦ rw m (elim (Bool-cases (is_uri source.uri)) [
            | inr u ↦ rw u tt
            | inl u ↦ rw u (elim (Bool-cases (matches_language input.target_language)) [
              | inr l ↦ rw l tt
              | inl l ↦ rw l (
                  Holds->>= GoodOptions (IsAcceptable is_uri) (options_of input.options) _
                    (options_of-GoodOptions input.options)
                    λ o g.
                      let d = matches_id_sound input.id i in
                      (
                        d.0,
                        d.1,
                        member_sound source.type allowed_source_types m,
                        u,
                        matches_language-IsLanguage input.target_language l,
                        g.0,
                        g.1,
                      ))
            ])
          ])
        ])
]

-- Whatever the input, a session that is accepted is acceptable: its id is 8 to 64 letters, digits,
-- dashes and underscores, its source's type is hls, dash, rtmp or file and its URI one that
-- url.ParseRequestURI parses (`is_uri`), its language is two lowercase letters, its latency
-- tolerance is at most a minute, and its profile is cpu-basic, cpu-advanced or gpu-accelerated.
pub normalize-IsAcceptable :
    (is_uri : Bytes → Bool) (input : SessionInput) (s : TranslationSession)
    → normalize_and_validate_session is_uri input ≡ ok s
    → IsAcceptable is_uri s
unfolding Holds
normalize-IsAcceptable is_uri input s h =
    subst (Holds (IsAcceptable is_uri)) h (normalize-Holds is_uri input)
