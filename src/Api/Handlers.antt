-- ===== src/Api/Handlers.antt =====
-- The handlers of apps/api/cmd/server/session.go, over the interfaces SessionStore,
-- IngestionEnqueuer and StatusPublisher. The world behind them has the type `W`.
pub mod Rollback
pub mod Limits
use streamlation.Prelude.{
  ℕ, ◌≡◌, ◌≢◌, Bool, true, false, ◌&&◌, ◌||◌, Option, none, some, List, [], ◌∷◌, leb, ltb, ◌==◌,
  if◌then◌else◌,
}
use streamlation.Prelude.Int.{ℤ, pos, negsuc}
use streamlation.Prelude.Text.{Bytes, text, equal}
use streamlation.Prelude.Decimal.{atoi}
use streamlation.Prelude.Result.{Result, ok, err}
use streamlation.Session.{TranslationSession}
use streamlation.Api.Input.{SessionInput, InputError, normalize_and_validate_session}

-- What errors.Is tells of a store's error.
pub data StoreError : Type 0 where
  session_exists session_not_found other : StoreError

-- SessionStatusEvent without its timestamp.
pub record SessionStatusEvent : Type 0 where
  pub session_id : Bytes
  pub stage : Bytes
  pub state : Bytes
  pub detail : Bytes

-- The operations of the interfaces. A publisher may be missing.
pub record Backend (W : Type 0) : Type 0 where
  pub create : TranslationSession → W → Result StoreError (Unit {0}) × W
  pub get : Bytes → W → Result StoreError TranslationSession × W
  pub delete : Bytes → W → Result StoreError (Unit {0}) × W
  pub list : ℕ → W → Result StoreError (List TranslationSession) × W
  pub enqueue_ingestion : Bytes → W → Bool × W
  pub publisher : Option (SessionStatusEvent → W → Bool × W)

pub data Body : Type 0 where
  invalid_payload : Body
  invalid_input : InputError → Body
  store_error : StoreError → Body
  enqueue_error missing_id invalid_limit method_not_allowed : Body
  one : TranslationSession → Body
  many : List TranslationSession → Body

-- A status code and a body.
pub record Response : Type 0 where
  pub code : ℕ
  pub body : Body

abbrev pub respond : {W : Type 0} → ℕ → Body → W → Response × W
respond code body w = (record { code = code; body = body }, w)

event : Bytes → Bytes → Bytes → Bytes → SessionStatusEvent
event id stage state detail = record {
  session_id = id;
  stage = stage;
  state = state;
  detail = detail;
}

-- The limit that is asked for, none if it is out of bounds.
unfoldable pub limit_of : Bytes → Option ℕ
limit_of [] = some 50
limit_of (c ∷ s) = elim (atoi (c ∷ s)) [
  | none ↦ none
  | some (negsuc n) ↦ none
  | some (pos n) ↦ if leb n 0 || ltb 100 n then none else some n
]

module _ {W : Type 0} (b : Backend W) where
  publish_to : Option (SessionStatusEvent → W → Bool × W) → SessionStatusEvent → W → W
  publish_to none e w = w
  publish_to (some p) e w = (p e w).1

  -- A publication: its error is only logged.
  unfoldable pub publish : SessionStatusEvent → W → W
  unfolding publish_to
  publish = publish_to b.publisher

  unfoldable pub on_enqueued : TranslationSession → Bool × W → Response × W
  unfolding publish event text
  on_enqueued s (true, w) =
      respond 201 (one s)
        (publish (event s.id (text "ingestion") (text "queued") (text "ingestion job enqueued")) w)
  on_enqueued s (false, w) = respond 500 enqueue_error (
      publish
        (event s.id (text "ingestion") (text "error") (text "failed to enqueue ingestion job"))
        (b.delete s.id w).1)

  unfoldable pub on_created : TranslationSession → Result StoreError (Unit {0}) × W → Response × W
  unfolding on_enqueued publish event text
  on_created s (err session_exists, w) = respond 409 (store_error session_exists) w
  on_created s (err e, w) = respond 500 (store_error e) w
  on_created s (ok _, w) = on_enqueued s (
      b.enqueue_ingestion s.id
        (publish (event s.id (text "session") (text "registered") (text "session persisted")) w))

  unfoldable pub on_input : Result InputError TranslationSession → W → Response × W
  unfolding on_created
  on_input (err e) w = respond 400 (invalid_input e) w
  on_input (ok s) w = on_created s (b.create s w)

  unfoldable pub on_payload : (Bytes → Bool) → Option SessionInput → W → Response × W
  unfolding on_input normalize_and_validate_session
  on_payload is_uri none w = respond 400 invalid_payload w
  on_payload is_uri (some input) w = on_input (normalize_and_validate_session is_uri input) w

  -- `payload` is what the JSON decoder makes of the body.
  unfoldable pub create_session_handler :
      (Bytes → Bool) → Bytes → Option SessionInput → W → Response × W
  unfolding on_payload text
  create_session_handler is_uri method payload w =
      if equal method (text "POST")
      then on_payload is_uri payload w
      else respond 405 method_not_allowed w

  on_got : Result StoreError TranslationSession × W → Response × W
  on_got (ok s, w) = respond 200 (one s) w
  on_got (err session_not_found, w) = respond 404 (store_error session_not_found) w
  on_got (err e, w) = respond 500 (store_error e) w

  unfoldable pub get_session_handler : Bytes → Bytes → W → Response × W
  unfolding on_got text
  get_session_handler method id w =
      if equal method (text "GET")
      then (if equal id [] then respond 400 missing_id w else on_got (b.get id w))
      else respond 405 method_not_allowed w

  on_listed : Result StoreError (List TranslationSession) × W → Response × W
  on_listed (ok ss, w) = respond 200 (many ss) w
  on_listed (err e, w) = respond 500 (store_error e) w

  list_limited : Option ℕ → W → Response × W
  unfolding on_listed
  list_limited none w = respond 400 invalid_limit w
  list_limited (some limit) w = on_listed (b.list limit w)

  unfoldable pub list_sessions_handler : Bytes → Bytes → W → Response × W
  unfolding list_limited limit_of text
  list_sessions_handler method limit_param w =
      if equal method (text "GET")
      then list_limited (limit_of limit_param) w
      else respond 405 method_not_allowed w
