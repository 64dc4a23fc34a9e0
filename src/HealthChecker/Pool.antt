-- ===== src/HealthChecker/Pool.antt =====
-- health-checker/src/health-checker/pool.go, job.go and `RunWorkerPool` of health_checker.go: the
-- worker pool, whose goroutines run interleaved.
pub mod Conserves
pub mod Loses
pub mod Ends
use multichain_liquidator_bo.Base.{ℕ, suc, ◌<◌, ◌≡◌, Bool, true, false, List, [], ◌∷◌, ◌++◌, length}

-- The state shared by the goroutines, over jobs `J` and results `R`: the jobs not yet sent and the
-- buffer of the channel `jobs`; how many workers wait for a job, the results that the others hold
-- and have yet to send, and how many have returned; the buffer of the channel `results`; whether
-- `jobs` and `Done` are closed; what `RunWorkerPool` has received, and whether it has returned.
pub record Pool (J R : Type 0) : Type 0 where
  pub unsent : List J
  pub jobs : List J
  pub jobs_closed : Bool
  pub idle : ℕ
  pub held : List R
  pub stopped : ℕ
  pub results : List R
  pub done : Bool
  pub received : List R
  pub returned : Bool

-- `InitiatePool`, with the workers that `Run` starts.
unfoldable pub start : {J R : Type 0} → ℕ → List J → Pool J R
start workers jobs = record {
  unsent = jobs;
  jobs = [];
  jobs_closed = false;
  idle = workers;
  held = [];
  stopped = 0;
  results = [];
  done = false;
  received = [];
  returned = false;
}

-- One step of one goroutine. Both channels have a buffer of `workers` places; `exec` is the job's
-- `execute`. The context is cancelled only when `RunWorkerPool` returns, so no worker sees it
-- cancelled before. Turns of `select` that change nothing are left out: the default, and an empty
-- receive from `results` once it is closed behind `Done`.
pub data Step {J R : Type 0} (workers : ℕ) (exec : J → R) (s s' : Pool J R) : Type 0 where
  -- `GenerateFrom`: `wp.jobs <- jobsBulk[i]`, and `close(wp.jobs)` behind the loop.
  send_job :
      (j : J) (js : List J)
      → s.unsent ≡ j ∷ js
      → length s.jobs < workers
      → s' ≡ record s { unsent = js; jobs = s.jobs ++ j ∷ [] }
      → Step workers exec s s'
  close_jobs :
      s.unsent ≡ []
      → s.jobs_closed ≡ false
      → s' ≡ record s { jobs_closed = true }
      → Step workers exec s s'
  -- `worker`: it takes a job and executes it.
  take_job :
      (j : J) (js : List J) (n : ℕ)
      → s.jobs ≡ j ∷ js
      → s.idle ≡ suc n
      → s' ≡ record s { jobs = js; idle = n; held = exec j ∷ s.held }
      → Step workers exec s s'
  -- `worker`: `results <- job.execute(ctx)`, by any worker that holds a result.
  send_result :
      (before after : List R) (r : R)
      → s.held ≡ before ++ r ∷ after
      → length s.results < workers
      → s' ≡ record s { held = before ++ after; results = s.results ++ r ∷ []; idle = suc s.idle }
      → Step workers exec s s'
  -- `worker`: the channel `jobs` is closed and empty.
  stop_worker :
      (n : ℕ)
      → s.jobs ≡ []
      → s.jobs_closed ≡ true
      → s.idle ≡ suc n
      → s' ≡ record s { idle = n; stopped = suc s.stopped }
      → Step workers exec s s'
  -- `Run`: all workers have returned, and `Done` is closed, once.
  close_done :
      s.stopped ≡ workers → s.done ≡ false → s' ≡ record s { done = true } → Step workers exec s s'
  -- `RunWorkerPool`: a result is received.
  receive :
      (r : R) (rs : List R)
      → s.results ≡ r ∷ rs
      → s.returned ≡ false
      → s' ≡ record s { results = rs; received = s.received ++ r ∷ [] }
      → Step workers exec s s'
  -- `RunWorkerPool`: `Done` is seen closed. `select` may choose this case though results are waiting.
  return_results :
      s.done ≡ true
      → s.returned ≡ false
      → s' ≡ record s { returned = true }
      → Step workers exec s s'

pub data Reach {J R : Type 0} (workers : ℕ) (exec : J → R) (s : Pool J R) : Pool J R → Type 0 where
  here : Reach workers exec s s
  next : {t u : Pool J R} → Reach workers exec s t → Step workers exec t u → Reach workers exec s u
