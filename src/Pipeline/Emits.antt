-- ===== src/Pipeline/Emits.antt =====
-- What the stages of packages/go/backend/pipeline/testable_runner.go give to `emit`.
use streamlation.Prelude.{◌≡◌, ap, ◌∙◌, List, [], ◌∷◌, ◌++◌, append_assoc}
use streamlation.Prelude.Text.{Bytes, text}
use streamlation.Prelude.Result.{Result, ok, err}
use streamlation.Api.Handlers.{SessionStatusEvent}
use streamlation.Pipeline.Testable.{emit_status, and_then, on_detail, on_worked, run_stage}
use streamlation.Pipeline.Traces.{event, StageTrace, failed, completed}

-- Of the events that are due, the ones given to `emit` with its answers, and the result: either
-- `emit` takes them all and there is no error, or it fails with one, nothing follows that one, and
-- its error is the result.
pub data Given {E : Type 0}
    : List SessionStatusEvent
      → List (SessionStatusEvent × Result E (Unit {0}))
      → Result E (Unit {0})
      → Type 0 where
  all_taken : Given [] [] (ok tt)
  taken :
      {es : List SessionStatusEvent} {given : List (SessionStatusEvent × Result E (Unit {0}))}
      {r : Result E (Unit {0})} (e : SessionStatusEvent)
      → Given es given r
      → Given (e ∷ es) ((e, ok tt) ∷ given) r
  refused :
      (e : SessionStatusEvent) (es : List SessionStatusEvent) (x : E)
      → Given (e ∷ es) ((e, err x) ∷ []) (err x)

-- An `emit` that writes every event that it is given, and its answer, to a log.
module _ {W E : Type 0} (log : W → List (SessionStatusEvent × Result E (Unit {0})))
    (emit : SessionStatusEvent → W → Result E (Unit {0}) × W) where
  -- From `w` on, the events `es` were due, and those of `given` have been given to `emit`.
  pub record Emits (w : W) (r : Result E (Unit {0}) × W) (es : List SessionStatusEvent)
      : Type 0 where
    pub given : List (SessionStatusEvent × Result E (Unit {0}))
    pub written : log r.1 ≡ log w ++ given
    pub outcome : Given es given r.0

  module _
      (logs : (e : SessionStatusEvent) (w : W)
        → log (emit e w).1 ≡ log w ++ (e, (emit e w).0) ∷ []) where
    unfoldable pub Emitting :
        (W → Result E (Unit {0}) × W) → (List SessionStatusEvent → Type 0) → Type 0
    Emitting act Trace = (w : W) → (es : List SessionStatusEvent) × Trace es × Emits w (act w) es

    pub and_then-Emits :
        (w : W) (e : SessionStatusEvent) (es : List SessionStatusEvent)
        (r : Result E (Unit {0}) × W) (next : W → Result E (Unit {0}) × W)
        → log r.1 ≡ log w ++ (e, r.0) ∷ []
        → Emits r.1 (next r.1) es
        → Emits w (and_then emit r next) (e ∷ es)
    unfolding and_then
    and_then-Emits w e es (ok _, w1) next q h = record {
      given = (e, ok tt) ∷ h.given;
      written =
          h.written ∙ ap (λ l. l ++ h.given) q ∙ append_assoc (log w) ((e, ok tt) ∷ []) h.given;
      outcome = taken e h.outcome;
    }
    and_then-Emits w e es (err x, w1) next q h = record {
      given = (e, err x) ∷ [];
      written = q;
      outcome = refused e es x;
    }

    -- The last event of a run: the answer to it is the result.
    last-Emits :
        (w : W) (e : SessionStatusEvent) (r : Result E (Unit {0}) × W)
        → log r.1 ≡ log w ++ (e, r.0) ∷ []
        → Emits w r (e ∷ [])
    last-Emits w e (ok _, w1) q = record {
      given = (e, ok tt) ∷ [];
      written = q;
      outcome = taken e all_taken;
    }
    last-Emits w e (err x, w1) q = record {
      given = (e, err x) ∷ [];
      written = q;
      outcome = refused e [] x;
    }

    -- The world in front of a step that leaves the log.
    at_log :
        (w w' : W) (r : Result E (Unit {0}) × W) (es : List SessionStatusEvent)
        → log w' ≡ log w
        → Emits w' r es
        → Emits w r es
    at_log w w' r es q h = record {
      given = h.given;
      written = h.written ∙ ap (λ l. l ++ h.given) q;
      outcome = h.outcome;
    }

    module _ {A : Type 0} (id stage starting : Bytes) (detail_of : A → W → Bytes × W)
        (next : A → W → Result E (Unit {0}) × W) (Done : Bytes → Type 0)
        (Next : List SessionStatusEvent → Type 0)
        (same_log : (a : A) (w : W) → log (detail_of a w).1 ≡ log w)
        (details : (a : A) (w : W) → Done (detail_of a w).0)
        (nexts : (a : A) → Emitting (next a) Next) where
      -- What follows the event that a stage is running.
      Works : W → Result E (Unit {0}) × W → Type 0
      Works w r =
          (es : List SessionStatusEvent) × StageTrace id stage starting Done Next
            (event id stage (text "running") starting ∷ es)
          × Emits w r es

      on_detail-Works :
          (w : W) (a : A) (r : Bytes × W)
          → log r.1 ≡ log w
          → Done r.0
          → Works w (on_detail emit id stage detail_of next a r)
      unfolding on_detail Works emit_status Emitting
      on_detail-Works w a (detail, w1) q d =
          let (es, trace, h) = nexts a (emit (event id stage (text "completed") detail) w1).1 in
          (
            _,
            completed detail d trace,
            at_log w w1 _ _ q (
                and_then-Emits w1 (event id stage (text "completed") detail) es _ (next a)
                  (logs _ w1) h),
          )

      on_worked-Works :
          (w : W) (r : Result Bytes A × W)
          → log r.1 ≡ log w
          → Works w (on_worked emit id stage detail_of next r)
      unfolding on_worked Works emit_status
      on_worked-Works w (err e, w1) q = (
        _,
        failed e,
        at_log w w1 _ _ q (
            last-Emits w1 (event id stage (text "failed") e) _
              (logs (event id stage (text "failed") e) w1)),
      )
      on_worked-Works w (ok a, w1) q =
          on_detail-Works w a (detail_of a w1) (same_log a w1 ∙ q) (details a w1)

      pub run_stage-Emitting :
          (work : W → Result Bytes A × W)
          → ((w : W) → log (work w).1 ≡ log w)
          → Emitting
              (run_stage emit id stage detail_of next starting work)
              (StageTrace id stage starting Done Next)
      unfolding run_stage Works Emitting emit_status
      run_stage-Emitting work quiet w =
          let started : SessionStatusEvent = event id stage (text "running") starting in
          let (es, trace, h) =
            on_worked-Works (emit started w).1 (work (emit started w).1)
              (quiet (emit started w).1) in
          (_, trace, and_then-Emits w started es (emit started w) _ (logs started w) h)
