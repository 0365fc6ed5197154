-- ===== src/Pipeline/Progress.antt =====
-- The progress that packages/go/backend/pipeline/pipeline.go reports.
use streamlation.Prelude.{
  ℕ, suc, ◌≡◌, ◌≤◌, refl, ap, sym, ◌∙◌, arith, Bool, true, false, some, List, [], ◌∷◌, ◌++◌, map,
  take, length, leb, if◌then◌else◌, append-nil, append_assoc, Bool-cases, inl, inr,
}
use streamlation.Prelude.Result.{Result, ok, err}
use streamlation.Session.{TranslationSession}
use streamlation.Api.Handlers.{SessionStatusEvent}
use streamlation.Pipeline.{
  Step, Ended, context_ended, not_emitted, event_of, emit_steps, sequential_stub, round, delayed,
  on_delayed, on_emitted,
}

-- What a log `before` becomes when the events are reported: some of the first, and all on success.
abbrev pub Reported :
    List SessionStatusEvent
    → List SessionStatusEvent
    → Result Ended (Unit {0})
    → List SessionStatusEvent
    → Type 0
Reported events before r after =
    (k : ℕ) × (k ≤ length events)
    × (after ≡ before ++ take k events)
    × (r ≡ ok tt → k ≡ length events)

module _ {W : Type 0} (ended : W → Bool) (wait : ℕ → W → Bool × W)
    (log : W → List SessionStatusEvent) (emit : SessionStatusEvent → W → Bool × W)
    (log-wait : (delay : ℕ) (w : W) → log (wait delay w).1 ≡ log w)
    (log-emit : (e : SessionStatusEvent) (w : W)
      → log (emit e w).1 ≡ (if (emit e w).0 then log w ++ e ∷ [] else log w)) where
  stopped :
      (events : List SessionStatusEvent) (before after : List SessionStatusEvent) (e : Ended)
      → after ≡ before
      → Reported events before (err e) after
  stopped events before after e h = (0, omega arith, h ∙ sym (append-nil before), λ p. cc)

  emitted :
      (e : SessionStatusEvent) (events before : List SessionStatusEvent)
      (next : W → Result Ended (Unit {0}) × W) (r : Bool × W)
      → log r.1 ≡ (if r.0 then before ++ e ∷ [] else before)
      → ((w : W) → Reported events (log w) (next w).0 (log (next w).1))
      → let s = on_emitted ended wait next r in Reported (e ∷ events) before s.0 (log s.1)
  unfolding on_emitted
  emitted e events before next (true, w) h step =
      let (k, bound, more, all) = step w in
      (
        suc k,
        omega arith,
        more ∙ ap (λ l. l ++ take k events) h ∙ append_assoc before (e ∷ []) (take k events),
        λ p. ap suc (all p),
      )
  emitted e events before next (false, w) h step = stopped (e ∷ events) before (log w) not_emitted h

  after_delay :
      (e : SessionStatusEvent) (events before : List SessionStatusEvent)
      (next : W → Result Ended (Unit {0}) × W) (r : Bool × W)
      → log r.1 ≡ before
      → ((w : W) → Reported events (log w) (next w).0 (log (next w).1))
      → let s = on_delayed ended wait (emit e) next r in Reported (e ∷ events) before s.0 (log s.1)
  unfolding on_delayed
  after_delay e events before next (true, w) h step =
      emitted e events before next (emit e w) (rw (sym h) (log-emit e w)) step
  after_delay e events before next (false, w) h step =
      stopped (e ∷ events) before (log w) context_ended h

  log-delayed : (delay : ℕ) (w : W) → log (delayed ended wait delay w).1 ≡ log w
  unfolding delayed
  log-delayed delay w = elim (Bool-cases (leb delay 0)) [
    | inl h ↦ rw h refl
    | inr h ↦ rw h (log-wait delay w)
  ]

  emit_steps-Reported :
      (session : TranslationSession) (steps : List Step) (w : W)
      → let s = emit_steps ended wait emit session steps w in
        Reported (map (event_of session) steps) (log w) s.0 (log s.1)
  unfolding emit_steps round
  emit_steps-Reported session [] w = (0, omega arith, sym (append-nil (log w)), λ p. refl)
  emit_steps-Reported session (step ∷ steps) w = elim (Bool-cases (ended w)) [
    | inl h ↦ rw h (stopped _ (log w) (log w) context_ended refl)
    | inr h ↦ rw h (
        after_delay (event_of session step) (map (event_of session) steps) (log w)
          (emit_steps ended wait emit session steps) (delayed ended wait step.delay w)
          (log-delayed step.delay w) (emit_steps-Reported session steps))
  ]

  -- Whenever the context ends and whichever event is refused, the stub reports the first of its
  -- steps in their order, each once, and all of them if it returns without an error; where waiting
  -- writes to no log and `emit` adds an event to it exactly if it returns no error.
  pub sequential_stub-Reported :
      (session : TranslationSession) (steps : List Step) (w : W)
      → let s = sequential_stub ended wait steps session (some emit) w in
        Reported (map (event_of session) steps) (log w) s.0 (log s.1)
  unfolding sequential_stub
  sequential_stub-Reported session steps w = emit_steps-Reported session steps w
