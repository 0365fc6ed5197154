-- ===== src/Worker/Dispatch/Accounts.antt =====
-- What the steps of Worker/Dispatch keep: where the popped jobs and the workers are.
use streamlation.Prelude.{
  ℕ, ◌≡◌, ◌≤◌, ◌+◌, arith, refl, sym, ap, ◌∙◌, ◌⊎◌, inl, inr, Bool, true, false, List, [], ◌∷◌,
  ◌++◌, length,
}
use streamlation.Worker.Dispatch.{Phase, returned, closed, sending, Origin, Dispatch, begin}

abbrev pub bit : Bool → ℕ
bit true = 1
bit false = 0

module _ {Job : Type 0} where
  -- The weight of a list of jobs; with a function that is 1 at one job and 0 at the others, how
  -- often it has that job.
  abbrev pub weigh : (Job → ℕ) → List Job → ℕ
  weigh f [] = 0
  weigh f (j ∷ js) = f j + weigh f js

  abbrev pub weigh_held : (Job → ℕ) → List (Origin × Job) → ℕ
  weigh_held f [] = 0
  weigh_held f ((origin, j) ∷ js) = f j + weigh_held f js

  -- The job in front of the channel.
  abbrev pub weigh_sent : (Job → ℕ) → Phase Job → ℕ
  weigh_sent f (sending j) = f j
  weigh_sent f _ = 0

  -- 1 while Run's loop runs.
  abbrev pub running : Phase Job → ℕ
  running returned = 0
  running closed = 0
  running _ = 1

  pub weigh-append : (f : Job → ℕ) (xs ys : List Job) → weigh f (xs ++ ys) ≡ weigh f xs + weigh f ys
  weigh-append f [] ys = omega arith
  weigh-append f (x ∷ xs) ys = omega (arith, weigh-append f xs ys)

  pub weigh_held-append :
      (f : Job → ℕ) (xs ys : List (Origin × Job))
      → weigh_held f (xs ++ ys) ≡ weigh_held f xs + weigh_held f ys
  weigh_held-append f [] ys = omega arith
  weigh_held-append f (x ∷ xs) ys = omega (arith, weigh_held-append f xs ys)

  -- Every popped job is handled, in a worker's hands, in the channel, in front of it, or dropped,
  -- and in one of these only; the channel is within its capacity, no worker is lost, and none
  -- returns before the channel is closed and empty; and at most one job is dropped, and only when
  -- the context has ended and Run has returned.
  pub record IsAccounted (capacity workers : ℕ) (s : Dispatch Job) : Type 0 where
    pub jobs :
        (f : Job → ℕ)
        → weigh f s.popped
          ≡ weigh_held f s.handled
            + weigh_held f s.busy
            + weigh f s.buffer
            + weigh_sent f s.phase
            + weigh f s.dropped
    pub room : length s.buffer ≤ capacity
    pub staff : s.selecting + s.draining + length s.busy + s.gone ≡ workers
    pub one : length s.dropped + running s.phase ≤ 1
    pub late : length s.dropped ≤ bit s.canceled
    pub ended : 1 ≤ bit s.canceled + running s.phase
    pub left : (s.gone ≡ 0) ⊎ ((s.phase ≡ closed) × (s.buffer ≡ []))

  pub begin-IsAccounted : (capacity workers : ℕ) → IsAccounted capacity workers (begin workers)
  unfolding begin
  begin-IsAccounted capacity workers = record {
    jobs = λ f. refl;
    room = omega arith;
    staff = omega arith;
    one = omega arith;
    late = omega arith;
    ended = omega arith;
    left = inl refl;
  }

  module _ (capacity workers : ℕ) where
    -- While Run's loop runs, every worker is there.
    pub all_there :
        {s : Dispatch Job} (phase : Phase Job)
        → IsAccounted capacity workers s
        → s.phase ≡ phase
        → running phase ≡ 1
        → s.gone ≡ 0
    all_there {s} phase h e r = elim h.left [
      | inl none_gone ↦ none_gone
      | inr (q, _) ↦ absurd (omega (arith, r, ap running (sym e ∙ q)))
    ]

    -- An item in the channel: no worker has returned.
    pub all_filled :
        {s : Dispatch Job} (job : Job) (rest : List Job)
        → IsAccounted capacity workers s
        → s.buffer ≡ job ∷ rest
        → s.gone ≡ 0
    all_filled {s} job rest h e = elim h.left [
      | inl none_gone ↦ none_gone
      | inr (_, q) ↦ absurd (omega (arith, ap length (sym e ∙ q)))
    ]
