-- ===== src/Pipeline.antt =====
-- packages/go/backend/pipeline/pipeline.go: the runner that emits fixed steps.
pub mod Progress
pub mod Testable
pub mod Traces
pub mod Emits
pub mod Runs
use streamlation.Prelude.{
  ℕ, Bool, true, false, Option, none, some, List, [], ◌∷◌, leb, if◌then◌else◌,
}
use streamlation.Prelude.Text.{Bytes}
use streamlation.Prelude.Result.{Result, ok, err}
use streamlation.Session.{TranslationSession}
use streamlation.Api.Handlers.{SessionStatusEvent}

-- The delay is in nanoseconds; one below 0 counts as none.
pub record Step : Type 0 where
  pub stage : Bytes
  pub state : Bytes
  pub detail : Bytes
  pub delay : ℕ

pub data Ended : Type 0 where
  -- ctx.Err()
  context_ended : Ended
  -- The error of `emit`.
  not_emitted : Ended

unfoldable pub event_of : TranslationSession → Step → SessionStatusEvent
event_of session step = record {
  session_id = session.id;
  stage = step.stage;
  state = step.state;
  detail = step.detail;
}

-- `ended` is whether the context is found to have ended; `wait` is whether a delay passes before it
-- ends, and the world behind the wait.
module _ {W : Type 0} (ended : W → Bool) (wait : ℕ → W → Bool × W) where
  unfoldable pub on_emitted :
      (W → Result Ended (Unit {0}) × W) → Bool × W → Result Ended (Unit {0}) × W
  on_emitted next (true, w) = next w
  on_emitted next (false, w) = (err not_emitted, w)

  unfoldable pub delayed : ℕ → W → Bool × W
  delayed delay w = if leb delay 0 then (true, w) else wait delay w

  unfoldable pub on_delayed :
      (W → Bool × W) → (W → Result Ended (Unit {0}) × W) → Bool × W → Result Ended (Unit {0}) × W
  unfolding on_emitted
  on_delayed emit next (true, w) = on_emitted next (emit w)
  on_delayed emit next (false, w) = (err context_ended, w)

  -- One round of the loop; `next` is the rounds behind it.
  unfoldable pub round :
      (W → Bool × W) → ℕ → (W → Result Ended (Unit {0}) × W) → W → Result Ended (Unit {0}) × W
  unfolding delayed on_delayed
  round emit delay next w =
      if ended w then (err context_ended, w) else on_delayed emit next (delayed delay w)

  unfoldable pub emit_steps :
      (SessionStatusEvent → W → Bool × W)
      → TranslationSession
      → List Step
      → W
      → Result Ended (Unit {0}) × W
  unfolding round event_of
  emit_steps emit session [] w = (ok tt, w)
  emit_steps emit session (step ∷ steps) w =
      round (emit (event_of session step)) step.delay (emit_steps emit session steps) w

  -- `SequentialStub.Run`
  unfoldable pub sequential_stub :
      List Step
      → TranslationSession
      → Option (SessionStatusEvent → W → Bool × W)
      → W
      → Result Ended (Unit {0}) × W
  unfolding emit_steps
  sequential_stub steps session none w = (ok tt, w)
  sequential_stub steps session (some emit) w = emit_steps emit session steps w
