-- ===== src/Api/Handlers/Rollback.antt =====
-- What creating a session over HTTP (apps/api/cmd/server/session.go) does to the stored sessions.
use streamlation.Prelude.{
  ◌≡◌, ◌≢◌, ◌⊎◌, inl, inr, refl, sym, ap, ◌∙◌, Bool, true, false, Option, none, some, arith,
  Bool-cases, if◌then◌else◌,
}
use streamlation.Prelude.Text.{Bytes, text, equal, equal_iff}
use streamlation.Prelude.Result.{Result, ok, err}
use streamlation.Session.{TranslationSession}
use streamlation.Api.Input.{SessionInput, InputError, normalize_and_validate_session}
use streamlation.Api.Handlers.{
  StoreError, session_exists, session_not_found, other, SessionStatusEvent, Backend, Response,
  publish, on_enqueued, on_created, on_input, on_payload, create_session_handler,
}

-- The sessions as the table that `id` is looked up in.
abbrev pub View : Type 0 → Type 0
View W = W → Bytes → Option TranslationSession

module _ {W : Type 0} (view : View W) where
  -- No session is stored, lost or changed.
  abbrev pub Same : W → W → Type 0
  Same w w' = (id : Bytes) → view w' id ≡ view w id

  abbrev pub inserted : TranslationSession → W → Bytes → Option TranslationSession
  inserted s w id = if equal id s.id then some s else view w id

  -- A store whose `create` refuses an id that is taken and leaves the sessions as they are when it
  -- fails, whose `delete` succeeds, and which no queue and no publisher touches.
  pub record IsReliable (b : Backend W) : Type 0 where
    pub create-ok :
        (s : TranslationSession) (w : W)
        → (b.create s w).0 ≡ ok tt
        → (view w s.id ≡ none) × ((id : Bytes) → view (b.create s w).1 id ≡ inserted s w id)
    pub create-err :
        (s : TranslationSession) (w : W) (e : StoreError)
        → (b.create s w).0 ≡ err e
        → Same w (b.create s w).1
    pub delete-view :
        (id : Bytes) (w : W) (j : Bytes)
        → view (b.delete id w).1 j ≡ (if equal j id then none else view w j)
    pub enqueue-Same : (id : Bytes) (w : W) → Same w (b.enqueue_ingestion id w).1
    pub publish-Same : (e : SessionStatusEvent) (w : W) → Same w (publish b e w)

  -- Created: 201 and one more session, under an id that was free. Refused: another code, and the
  -- sessions as before.
  abbrev pub CreatedOrRefused : W → Response × W → Type 0
  CreatedOrRefused w (r, w') =
      ((s : TranslationSession) × (r.code ≡ 201)
        × (view w s.id ≡ none)
        × ((id : Bytes) → view w' id ≡ inserted s w id))
      ⊎ ((r.code ≢ 201) × Same w w')

  module _ (b : Backend W) (reliable : IsReliable b) where
    deleted :
        (s : TranslationSession) (w w' : W)
        → view w s.id ≡ none
        → ((id : Bytes) → view w' id ≡ inserted s w id)
        → Same w (b.delete s.id w').1
    deleted s w w' free k id = reliable.delete-view s.id w' id ∙ elim (Bool-cases (equal id s.id)) [
      | inl e ↦ let i = (equal_iff id s.id).0 e in rw e (sym (ap (view w) i ∙ free))
      | inr e ↦ rw e (k id ∙ rw e refl)
    ]

    on_enqueued-lem :
        (s : TranslationSession) (w : W) (r : Bool × W)
        → view w s.id ≡ none
        → ((id : Bytes) → view r.1 id ≡ inserted s w id)
        → CreatedOrRefused w (on_enqueued b s r)
    unfolding on_enqueued
    on_enqueued-lem s w (true, w') free k =
        inl (s, refl, free, λ id. reliable.publish-Same _ w' id ∙ k id)
    on_enqueued-lem s w (false, w') free k = inr (
      λ e. omega (arith, e),
      λ id. reliable.publish-Same _ (b.delete s.id w').1 id ∙ deleted s w w' free k id,
    )

    on_created-lem :
        (s : TranslationSession) (w : W) (r : Result StoreError (Unit {0}) × W)
        → (r.0 ≡ ok tt → (view w s.id ≡ none) × ((id : Bytes) → view r.1 id ≡ inserted s w id))
        → ((e : StoreError) → r.0 ≡ err e → Same w r.1)
        → CreatedOrRefused w (on_created b s r)
    unfolding on_created
    on_created-lem s w (err session_exists, w') h k =
        inr (λ e. omega (arith, e), k session_exists refl)
    on_created-lem s w (err session_not_found, w') h k =
        inr (λ e. omega (arith, e), k session_not_found refl)
    on_created-lem s w (err other, w') h k = inr (λ e. omega (arith, e), k other refl)
    on_created-lem s w (ok _, w') h k =
        let made = h refl in
        on_enqueued-lem s w _ made.0
          λ id. reliable.enqueue-Same s.id _ id ∙ reliable.publish-Same _ w' id ∙ made.1 id

    on_input-lem :
        (r : Result InputError TranslationSession) (w : W) → CreatedOrRefused w (on_input b r w)
    unfolding on_input
    on_input-lem (err e) w = inr (λ e. omega (arith, e), λ id. refl)
    on_input-lem (ok s) w =
        on_created-lem s w (b.create s w) (reliable.create-ok s w) (reliable.create-err s w)

    on_payload-lem :
        (is_uri : Bytes → Bool) (p : Option SessionInput) (w : W)
        → CreatedOrRefused w (on_payload b is_uri p w)
    unfolding on_payload
    on_payload-lem is_uri none w = inr (λ e. omega (arith, e), λ id. refl)
    on_payload-lem is_uri (some input) w =
        on_input-lem (normalize_and_validate_session is_uri input) w

    -- Over a reliable store, for every method and body and however the queue and the publisher
    -- fail: the answer is 201 and exactly one session is added, under an id that was free, or it is
    -- another one and the stored sessions are as before, also when the session was stored but not
    -- enqueued.
    pub create_session_handler_lem :
        (is_uri : Bytes → Bool) (method : Bytes) (p : Option SessionInput) (w : W)
        → CreatedOrRefused w (create_session_handler b is_uri method p w)
    unfolding create_session_handler
    create_session_handler_lem is_uri method p w = elim (Bool-cases (equal method (text "POST"))) [
      | inl e ↦ rw e (on_payload-lem is_uri p w)
      | inr e ↦ rw e (inr (λ e. omega (arith, e), λ id. refl))
    ]
