-- ===== src/Worker/Dispatch/Kept.antt =====
-- Each step of Worker/Dispatch keeps the popped jobs and the workers accounted for.
use streamlation.Prelude.{ℕ, arith, refl, ap, inl, inr, [], ◌∷◌, length, length-append}
use streamlation.Worker.Dispatch.{
  looping, popping, sending, selected, drained, Dispatch, begin, back, Step, cancel, go_on, stop,
  pop_nothing, pop_canceled, pop_job, send, give_up, close_jobs, select_job, select_done,
  select_closed, drain_job, drain_closed, handle, Steps, nil, cons,
}
use streamlation.Worker.Dispatch.Accounts.{
  bit, weigh, weigh_held, weigh_sent, running, weigh-append, weigh_held-append, IsAccounted,
  begin-IsAccounted, all_there, all_filled,
}

module _ {Job : Type 0} (capacity workers : ℕ) where
  pub step-IsAccounted :
      (s t : Dispatch Job)
      → Step capacity s t
      → IsAccounted capacity workers s
      → IsAccounted capacity workers t
  unfolding back
  step-IsAccounted s t (cancel e) h = record {
    jobs = h.jobs;
    room = h.room;
    staff = h.staff;
    one = h.one;
    late = omega (arith, h.late, ap bit e);
    ended = omega (arith, h.ended, ap bit e);
    left = h.left;
  }
  step-IsAccounted s t (go_on e q) h = record {
    jobs = λ f. omega (arith, h.jobs f, ap (weigh_sent f) e);
    room = h.room;
    staff = h.staff;
    one = omega (arith, h.one, ap running e);
    late = h.late;
    ended = omega (arith, ap bit q);
    left = inl (all_there capacity workers looping h e refl);
  }
  step-IsAccounted s t (stop e q) h = record {
    jobs = λ f. omega (arith, h.jobs f, ap (weigh_sent f) e);
    room = h.room;
    staff = h.staff;
    one = omega (arith, h.one);
    late = h.late;
    ended = omega (arith, ap bit q);
    left = inl (all_there capacity workers looping h e refl);
  }
  step-IsAccounted s t (pop_nothing e) h = record {
    jobs = λ f. omega (arith, h.jobs f, ap (weigh_sent f) e);
    room = h.room;
    staff = h.staff;
    one = omega (arith, h.one, ap running e);
    late = h.late;
    ended = omega arith;
    left = inl (all_there capacity workers popping h e refl);
  }
  step-IsAccounted s t (pop_canceled e q) h = record {
    jobs = λ f. omega (arith, h.jobs f, ap (weigh_sent f) e);
    room = h.room;
    staff = h.staff;
    one = omega (arith, h.one);
    late = h.late;
    ended = omega (arith, ap bit q);
    left = inl (all_there capacity workers popping h e refl);
  }
  step-IsAccounted s t (pop_job job e) h = record {
    jobs = λ f. omega (arith, h.jobs f, ap (weigh_sent f) e);
    room = h.room;
    staff = h.staff;
    one = omega (arith, h.one, ap running e);
    late = h.late;
    ended = omega arith;
    left = inl (all_there capacity workers popping h e refl);
  }
  step-IsAccounted s t (send job e lt) h = record {
    jobs = λ f. omega (arith, h.jobs f, ap (weigh_sent f) e, weigh-append f s.buffer (job ∷ []));
    room = omega (arith, length-append s.buffer (job ∷ []));
    staff = h.staff;
    one = omega (arith, h.one, ap running e);
    late = h.late;
    ended = omega arith;
    left = inl (all_there capacity workers (sending job) h e refl);
  }
  step-IsAccounted s t (give_up job e q) h = record {
    jobs = λ f. omega (arith, h.jobs f, ap (weigh_sent f) e);
    room = h.room;
    staff = h.staff;
    one = omega (arith, h.one, ap running e);
    late = omega (arith, h.one, ap running e, ap bit q);
    ended = omega (arith, ap bit q);
    left = inl (all_there capacity workers (sending job) h e refl);
  }
  step-IsAccounted s t (close_jobs e) h = record {
    jobs = λ f. omega (arith, h.jobs f, ap (weigh_sent f) e);
    room = h.room;
    staff = h.staff;
    one = omega (arith, h.one);
    late = h.late;
    ended = omega (arith, h.ended, ap running e);
    left = elim h.left [ inl none_gone ↦ inl none_gone | inr (_, q) ↦ inr (refl, q) ];
  }
  step-IsAccounted s t (select_job n job rest e q) h = record {
    jobs = λ f. omega (arith, h.jobs f, ap (weigh f) q);
    room = omega (arith, h.room, ap length q);
    staff = omega (arith, h.staff, e);
    one = h.one;
    late = h.late;
    ended = h.ended;
    left = inl (all_filled capacity workers job rest h q);
  }
  step-IsAccounted s t (select_done n e q) h = record {
    jobs = h.jobs;
    room = h.room;
    staff = omega (arith, h.staff, e);
    one = h.one;
    late = h.late;
    ended = h.ended;
    left = h.left;
  }
  step-IsAccounted s t (select_closed n e q r) h = record {
    jobs = h.jobs;
    room = h.room;
    staff = omega (arith, h.staff, e);
    one = h.one;
    late = h.late;
    ended = h.ended;
    left = inr (q, r);
  }
  step-IsAccounted s t (drain_job n job rest e q) h = record {
    jobs = λ f. omega (arith, h.jobs f, ap (weigh f) q);
    room = omega (arith, h.room, ap length q);
    staff = omega (arith, h.staff, e);
    one = h.one;
    late = h.late;
    ended = h.ended;
    left = inl (all_filled capacity workers job rest h q);
  }
  step-IsAccounted s t (drain_closed n e q r) h = record {
    jobs = h.jobs;
    room = h.room;
    staff = omega (arith, h.staff, e);
    one = h.one;
    late = h.late;
    ended = h.ended;
    left = inr (q, r);
  }
  step-IsAccounted s t (handle selected job before behind e) h = record {
    jobs = λ f. omega (
      arith,
      h.jobs f,
      ap (weigh_held f) e,
      weigh_held-append f before ((selected, job) ∷ behind),
      weigh_held-append f before behind,
    );
    room = h.room;
    staff = omega (
      arith,
      h.staff,
      ap length e,
      length-append before ((selected, job) ∷ behind),
      length-append before behind,
    );
    one = h.one;
    late = h.late;
    ended = h.ended;
    left = h.left;
  }
  step-IsAccounted s t (handle drained job before behind e) h = record {
    jobs = λ f. omega (
      arith,
      h.jobs f,
      ap (weigh_held f) e,
      weigh_held-append f before ((drained, job) ∷ behind),
      weigh_held-append f before behind,
    );
    room = h.room;
    staff = omega (
      arith,
      h.staff,
      ap length e,
      length-append before ((drained, job) ∷ behind),
      length-append before behind,
    );
    one = h.one;
    late = h.late;
    ended = h.ended;
    left = h.left;
  }

  steps-IsAccounted :
      (s t : Dispatch Job)
      → Steps capacity s t
      → IsAccounted capacity workers s
      → IsAccounted capacity workers t
  steps-IsAccounted s t nil h = h
  steps-IsAccounted a b (cons {t} step steps) h =
      steps-IsAccounted t b steps (step-IsAccounted a t step h)

  -- However the goroutines' steps are interleaved and whenever the context ends, each popped job is
  -- at any time in one place: handled, in a worker's hands, in the channel, in front of it, or
  -- dropped; the channel is within its capacity, no worker is lost, none returns before the channel
  -- is closed and empty, and at most one job is dropped, and only when the context has ended and
  -- Run's loop is over.
  pub dispatch-IsAccounted :
      (s : Dispatch Job) → Steps capacity (begin workers) s → IsAccounted capacity workers s
  dispatch-IsAccounted s steps =
      steps-IsAccounted (begin workers) s steps (begin-IsAccounted capacity workers)
