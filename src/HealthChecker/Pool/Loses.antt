-- ===== src/HealthChecker/Pool/Loses.antt =====
-- The pool may return with results still in its channel.
use multichain_liquidator_bo.Base.{ℕ, zero, suc, ◌+◌, ◌≡◌, refl, subst, true, false, [], ◌∷◌, arith}
use multichain_liquidator_bo.HealthChecker.Pool.{
  Pool, start, send_job, close_jobs, take_job, send_result, stop_worker, close_done, return_results,
  Reach, here, next,
}

module _ {J R : Type 0} (n : ℕ) (exec : J → R) (j : J) where
  -- The one job is executed and its result sent; `idle` workers wait, and `stopped` have returned.
  abbrev waiting : ℕ → ℕ → Pool J R
  waiting idle stopped = record {
    unsent = [];
    jobs = [];
    jobs_closed = true;
    idle = idle;
    held = [];
    stopped = stopped;
    results = exec j ∷ [];
    done = false;
    received = [];
    returned = false;
  }

  abbrev Leads : Pool J R → Pool J R → Type 0
  Leads = Reach (suc n) exec

  executed : Leads (start (suc n) (j ∷ [])) (waiting (suc n) 0)
  unfolding start
  executed =
      next
        (next (next (next here (send_job j [] refl (omega arith) refl)) (close_jobs refl refl refl))
          (take_job j [] n refl refl refl))
        (send_result [] [] (exec j) refl (omega arith) refl)

  stop_all :
      (idle stopped : ℕ) {s : Pool J R}
      → Leads s (waiting idle stopped)
      → Leads s (waiting 0 (idle + stopped))
  stop_all zero stopped {s} r =
      subst (λ (m : ℕ). Leads s (waiting 0 m)) (let e : stopped ≡ 0 + stopped = omega arith in e) r
  stop_all (suc k) stopped {s} r =
      subst (λ (m : ℕ). Leads s (waiting 0 m))
        (let e : k + suc stopped ≡ suc k + stopped = omega arith in e)
        (stop_all k (suc stopped) (next r (stop_worker k refl refl refl refl)))

  -- For any number of workers and any job there is an interleaving in which the job is executed and
  -- its result sent, and `RunWorkerPool` returns success without it: the result stays in the channel.
  pub pool_loses :
      (s : Pool J R) × Leads (start (suc n) (j ∷ [])) s
      × (s.returned ≡ true)
      × (s.received ≡ [])
      × (s.results ≡ exec j ∷ [])
  pool_loses = (
    record (waiting 0 (suc n)) { done = true; returned = true },
    next
        (next
          (subst (λ (m : ℕ). Leads (start (suc n) (j ∷ [])) (waiting 0 m))
            (let e : suc n + 0 ≡ suc n = omega arith in e) (stop_all (suc n) 0 executed))
          (close_done refl refl refl))
        (return_results refl refl refl),
    refl,
    refl,
    refl,
  )
