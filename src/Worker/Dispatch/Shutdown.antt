-- ===== src/Worker/Dispatch/Shutdown.antt =====
-- The end of Run of apps/worker/cmd/worker/main.go once its context has ended.
use streamlation.Prelude.{
  ℕ, ◌≡◌, ◌≤◌, ◌<◌, ◌+◌, ◌*◌, zero, suc, arith, refl, ap, ◌⊎◌, inl, inr, true, List, [], ◌∷◌, ◌++◌,
  length, length-append,
}
use streamlation.Worker.Dispatch.{
  Phase, looping, popping, returned, closed, sending, Origin, selected, drained, Dispatch, begin,
  back, Step, cancel, go_on, stop, pop_nothing, pop_canceled, pop_job, send, give_up, close_jobs,
  select_job, select_done, select_closed, drain_job, drain_closed, handle, Steps, nil, cons,
}
use streamlation.Worker.Dispatch.Accounts.{IsAccounted, weigh, weigh_held, weigh_sent}
use streamlation.Worker.Dispatch.Kept.{step-IsAccounted, dispatch-IsAccounted}

module _ {Job : Type 0} where
  -- How many steps of shutting down are left, at most.
  abbrev way : Phase Job → ℕ
  way looping = 2
  way popping = 7
  way (sending j) = 6
  way returned = 1
  way closed = 0

  abbrev hands : List (Origin × Job) → ℕ
  hands [] = 0
  hands ((selected, j) ∷ js) = 4 + hands js
  hands ((drained, j) ∷ js) = 3 + hands js

  hands-append : (xs ys : List (Origin × Job)) → hands (xs ++ ys) ≡ hands xs + hands ys
  hands-append [] ys = omega arith
  hands-append ((selected, x) ∷ xs) ys = omega (arith, hands-append xs ys)
  hands-append ((drained, x) ∷ xs) ys = omega (arith, hands-append xs ys)

  abbrev pub left_to_do : Dispatch Job → ℕ
  left_to_do s = way s.phase + 3 * length s.buffer + 2 * s.selecting + s.draining + hands s.busy

  -- When the context has ended, every step brings the end nearer.
  step-left_to_do :
      (capacity : ℕ) (s t : Dispatch Job)
      → Step capacity s t
      → s.canceled ≡ true
      → (t.canceled ≡ true) × (left_to_do t < left_to_do s)
  unfolding back
  step-left_to_do capacity s t (cancel e) c = absurd (cc (e, c))
  step-left_to_do capacity s t (go_on e q) c = absurd (cc (q, c))
  step-left_to_do capacity s t (stop e q) c = (c, omega (arith, ap way e))
  step-left_to_do capacity s t (pop_nothing e) c = (c, omega (arith, ap way e))
  step-left_to_do capacity s t (pop_canceled e q) c = (c, omega (arith, ap way e))
  step-left_to_do capacity s t (pop_job job e) c = (c, omega (arith, ap way e))
  step-left_to_do capacity s t (send job e lt) c =
      (c, omega (arith, ap way e, length-append s.buffer (job ∷ [])))
  step-left_to_do capacity s t (give_up job e q) c = (c, omega (arith, ap way e))
  step-left_to_do capacity s t (close_jobs e) c = (c, omega (arith, ap way e))
  step-left_to_do capacity s t (select_job n job rest e q) c = (c, omega (arith, e, ap length q))
  step-left_to_do capacity s t (select_done n e q) c = (c, omega (arith, e))
  step-left_to_do capacity s t (select_closed n e q r) c = (c, omega (arith, e))
  step-left_to_do capacity s t (drain_job n job rest e q) c = (c, omega (arith, e, ap length q))
  step-left_to_do capacity s t (drain_closed n e q r) c = (c, omega (arith, e))
  step-left_to_do capacity s t (handle selected job before behind e) c = (
    c,
    omega (
      arith,
      ap hands e,
      hands-append before ((selected, job) ∷ behind),
      hands-append before behind,
    ),
  )
  step-left_to_do capacity s t (handle drained job before behind e) c = (
    c,
    omega (
      arith,
      ap hands e,
      hands-append before ((drained, job) ∷ behind),
      hands-append before behind,
    ),
  )

  module _ (capacity workers : ℕ) where
    -- There is a step, or every worker has returned.
    Moves : Dispatch Job → Type 0
    Moves s = ((t : Dispatch Job) × Step capacity s t) ⊎ ((s.phase ≡ closed) × (s.gone ≡ workers))

    closed-Moves :
        (s : Dispatch Job) (busy : List (Origin × Job)) (selecting draining : ℕ) (buffer : List Job)
        → IsAccounted capacity workers s
        → s.canceled ≡ true
        → s.phase ≡ closed
        → s.busy ≡ busy
        → s.selecting ≡ selecting
        → s.draining ≡ draining
        → s.buffer ≡ buffer
        → Moves s
    unfolding Moves
    closed-Moves s ((origin, job) ∷ busy) selecting draining buffer h c p b e d q =
        inl (_, handle origin job [] busy b)
    closed-Moves s [] (suc n) draining buffer h c p b e d q = inl (_, select_done n e c)
    closed-Moves s [] zero (suc n) (job ∷ rest) h c p b e d q = inl (_, drain_job n job rest d q)
    closed-Moves s [] zero (suc n) [] h c p b e d q = inl (_, drain_closed n d p q)
    closed-Moves s [] zero zero buffer h c p b e d q = inr (p, omega (arith, h.staff, ap length b))

    phase-Moves :
        (s : Dispatch Job) (phase : Phase Job)
        → IsAccounted capacity workers s
        → s.canceled ≡ true
        → s.phase ≡ phase
        → Moves s
    unfolding Moves
    phase-Moves s looping h c p = inl (_, stop p c)
    phase-Moves s popping h c p = inl (_, pop_nothing p)
    phase-Moves s (sending job) h c p = inl (_, give_up job p c)
    phase-Moves s returned h c p = inl (_, close_jobs p)
    phase-Moves s closed h c p =
        closed-Moves s s.busy s.selecting s.draining s.buffer h c p refl refl refl refl

    -- Run and all workers have returned, and every popped job is handled or dropped.
    pub record IsOver (s : Dispatch Job) : Type 0 where
      pub closed_jobs : s.phase ≡ closed
      pub all_gone : s.gone ≡ workers
      pub jobs : (f : Job → ℕ) → weigh f s.popped ≡ weigh_held f s.handled + weigh f s.dropped
      pub one : length s.dropped ≤ 1

    emptied : (busy : List (Origin × Job)) (f : Job → ℕ) → length busy ≡ 0 → weigh_held f busy ≡ 0
    emptied [] f e = refl
    emptied (b ∷ busy) f e = absurd (omega arith)

    end-IsOver :
        (s : Dispatch Job)
        → 0 < workers
        → IsAccounted capacity workers s
        → s.phase ≡ closed
        → s.gone ≡ workers
        → IsOver s
    end-IsOver s some_workers h p g = record {
      closed_jobs = p;
      all_gone = g;
      jobs = λ f. elim h.left [
        | inl none_gone ↦ absurd (omega arith)
        | inr (_, q) ↦ omega (
          arith,
          h.jobs f,
          ap (weigh_sent f) p,
          ap (weigh f) q,
          emptied s.busy f (omega (arith, h.staff)),
        )
      ];
      one = omega (arith, h.one);
    }

    shutdown :
        (n : ℕ) (s : Dispatch Job)
        → 0 < workers
        → left_to_do s < n
        → IsAccounted capacity workers s
        → s.canceled ≡ true
        → (t : Dispatch Job) × Steps capacity s t × IsOver t
    unfolding Moves
    shutdown zero s some_workers lt h c = absurd (omega arith)
    shutdown (suc n) s some_workers lt h c = elim (phase-Moves s s.phase h c refl) [
      | inr (p, g) ↦ (s, nil, end-IsOver s some_workers h p g)
      | inl (t, step) ↦
          let (d, less) = step-left_to_do capacity s t step c in
          let (u, steps, over) =
            shutdown n t some_workers (omega arith) (step-IsAccounted capacity workers s t step h)
              d in
          (u, cons step steps, over)
    ]

    -- Wherever the goroutines are when the context has ended, the shutdown cannot get stuck: Run
    -- and all workers can return, and then every popped job is handled or dropped, and at most one
    -- is dropped.
    pub shutdown-IsOver :
        (s : Dispatch Job)
        → 0 < workers
        → Steps capacity (begin workers) s
        → s.canceled ≡ true
        → (t : Dispatch Job) × Steps capacity s t × IsOver t
    shutdown-IsOver s some_workers before c =
        shutdown (suc (left_to_do s)) s some_workers (omega arith)
          (dispatch-IsAccounted capacity workers s before) c

    -- Steps in a row, counted.
    abbrev pub count : {s t : Dispatch Job} → Steps capacity s t → ℕ
    count nil = 0
    count (cons step steps) = suc (count steps)

    -- Nor can it go on for ever: when the context has ended, there are at most as many steps left
    -- as `left_to_do` says, whichever are taken.
    pub count-left_to_do :
        (s t : Dispatch Job) (steps : Steps capacity s t)
        → s.canceled ≡ true
        → count steps + left_to_do t ≤ left_to_do s
    count-left_to_do s t nil c = omega arith
    count-left_to_do a b (cons {t} step steps) c =
        let (d, less) = step-left_to_do capacity a t step c in
        omega (arith, count-left_to_do t b steps d)
