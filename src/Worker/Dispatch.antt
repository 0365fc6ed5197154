-- ===== src/Worker/Dispatch.antt =====
-- How Run and processJobs of apps/worker/cmd/worker/main.go pass the popped jobs on to the workers
-- and shut down: the steps that the goroutines take, in any order.
pub mod Accounts
pub mod Kept
pub mod Shutdown
use streamlation.Prelude.{
  ℕ, ◌≡◌, ◌<◌, suc, Bool, true, false, List, [], ◌∷◌, ◌++◌, length, leb, if◌then◌else◌,
}
use streamlation.Prelude.Int.{ℤ, pos, negsuc}

-- Where Run is: in front of its check of the context, inside Pop, inside the select with a job,
-- behind its loop, or behind `close(jobs)`, where it waits for the workers.
pub data Phase (Job : Type 0) : Type 0 where
  looping popping returned closed : Phase Job
  sending : Job → Phase Job

-- A worker that handles a job came to it from its select, or from the loop that drains the channel.
pub data Origin : Type 0 where
  selected drained : Origin

-- `popped`, `handled` and `dropped` are histories, the newest job first. The workers are alike: so
-- many are in front of their select, so many in the loop that drains the channel, and so many have
-- returned.
pub record Dispatch (Job : Type 0) : Type 0 where
  pub canceled : Bool
  pub phase : Phase Job
  pub buffer : List Job
  pub selecting : ℕ
  pub draining : ℕ
  pub busy : List (Origin × Job)
  pub gone : ℕ
  pub popped : List Job
  pub handled : List (Origin × Job)
  pub dropped : List Job

-- The concurrency that Run works with.
unfoldable pub concurrency : ℤ → ℕ
concurrency (pos n) = if leb n 0 then 1 else n
concurrency (negsuc n) = 1

module _ {Job : Type 0} where
  -- The state in which Run has started its `n` workers.
  unfoldable pub begin : ℕ → Dispatch Job
  begin n = record {
    canceled = false;
    phase = looping;
    buffer = [];
    selecting = n;
    draining = 0;
    busy = [];
    gone = 0;
    popped = [];
    handled = [];
    dropped = [];
  }

  -- Where a worker goes on behind a job.
  unfoldable pub back : Origin → Dispatch Job → Dispatch Job
  back selected s = record s { selecting = suc s.selecting }
  back drained s = record s { draining = suc s.draining }

  -- A step of Run, of one of its workers, or the end of the context, for a channel of `capacity`
  -- jobs.
  pub data Step (capacity : ℕ) (s : Dispatch Job) : Dispatch Job → Type 0 where
    cancel : s.canceled ≡ false → Step capacity s (record s { canceled = true })
    -- The check at the head of Run's loop.
    go_on : s.phase ≡ looping → s.canceled ≡ false → Step capacity s (record s { phase = popping })
    stop : s.phase ≡ looping → s.canceled ≡ true → Step capacity s (record s { phase = returned })
    -- Pop returns an error or no job.
    pop_nothing : s.phase ≡ popping → Step capacity s (record s { phase = looping })
    -- Pop fails, and the context is found to have ended.
    pop_canceled :
        s.phase ≡ popping → s.canceled ≡ true → Step capacity s (record s { phase = returned })
    pop_job :
        (job : Job)
        → s.phase ≡ popping
        → Step capacity s (record s { phase = sending job; popped = job ∷ s.popped })
    -- The two cases of the select behind Pop.
    send :
        (job : Job)
        → s.phase ≡ sending job
        → length s.buffer < capacity
        → Step capacity s (record s { phase = looping; buffer = s.buffer ++ job ∷ [] })
    give_up :
        (job : Job)
        → s.phase ≡ sending job
        → s.canceled ≡ true
        → Step capacity s (record s { phase = returned; dropped = job ∷ s.dropped })
    -- The deferred `close(jobs)`.
    close_jobs : s.phase ≡ returned → Step capacity s (record s { phase = closed })
    -- The cases of a worker's select: a job, the end of the context, the closed channel.
    select_job :
        (n : ℕ) (job : Job) (rest : List Job)
        → s.selecting ≡ suc n
        → s.buffer ≡ job ∷ rest
        → Step capacity s
            (record s { buffer = rest; selecting = n; busy = (selected, job) ∷ s.busy })
    select_done :
        (n : ℕ)
        → s.selecting ≡ suc n
        → s.canceled ≡ true
        → Step capacity s (record s { selecting = n; draining = suc s.draining })
    select_closed :
        (n : ℕ)
        → s.selecting ≡ suc n
        → s.phase ≡ closed
        → s.buffer ≡ []
        → Step capacity s (record s { selecting = n; gone = suc s.gone })
    -- The loop that drains the channel.
    drain_job :
        (n : ℕ) (job : Job) (rest : List Job)
        → s.draining ≡ suc n
        → s.buffer ≡ job ∷ rest
        → Step capacity s (record s { buffer = rest; draining = n; busy = (drained, job) ∷ s.busy })
    drain_closed :
        (n : ℕ)
        → s.draining ≡ suc n
        → s.phase ≡ closed
        → s.buffer ≡ []
        → Step capacity s (record s { draining = n; gone = suc s.gone })
    -- handleJob returns, in any of the busy workers.
    handle :
        (origin : Origin) (job : Job) (before behind : List (Origin × Job))
        → s.busy ≡ before ++ (origin, job) ∷ behind
        → Step capacity s (
            back origin (record s { busy = before ++ behind; handled = (origin, job) ∷ s.handled }))

  pub data Steps (capacity : ℕ) : Dispatch Job → Dispatch Job → Type 0 where
    nil : {s : Dispatch Job} → Steps capacity s s
    cons : {s t u : Dispatch Job} → Step capacity s t → Steps capacity t u → Steps capacity s u
