-- ===== src/HealthChecker/Jobs.antt =====
-- health-checker/src/health-checker/health_checker.go, `generateJobs`: positions cut into jobs.
pub mod Covers
use multichain_liquidator_bo.Base.{
  ℕ, zero, suc, ◌+◌, ◌-◌, Option, none, some, List, [], ◌∷◌, length, take, drop, ltb, min,
  if◌then◌else◌,
}

-- A job: the descriptor's ID, printed in decimal by the source, and the argument.
pub record Job (P : Type 0) : Type 0 where
  pub id : ℕ
  pub args : List P

module _ {P : Type 0} where
  -- A job is added only if its slice of positions is not empty.
  add_job : ℕ → List P → List (Job P) → List (Job P)
  add_job i [] jobs = jobs
  add_job i (p ∷ ps) jobs = record { id = i; args = p ∷ ps } ∷ jobs

  then_jobs : ℕ → List P → Option (List (Job P)) → Option (List (Job P))
  unfolding add_job
  then_jobs i slice none = none
  then_jobs i slice (some jobs) = some (add_job i slice jobs)

  -- The loop on fuel from index `i`; `none` means that the fuel ran out. Numbers of positions are
  -- below 2^53, where the float64 minimum of the source is exact; the size of a job is 0 or more.
  jobs_loop : ℕ → List P → ℕ → ℕ → Option (List (Job P))
  unfolding then_jobs
  jobs_loop zero positions addresses_per_job i = none
  jobs_loop (suc f) positions addresses_per_job i =
      let rest = jobs_loop f positions addresses_per_job (i + addresses_per_job) in
      let slice_end = i + min (length positions - i) addresses_per_job in
      if ltb i (length positions)
      then then_jobs i (take (slice_end - i) (drop i positions)) rest
      else some []

  unfoldable pub generate_jobs : List P → ℕ → Option (List (Job P))
  unfolding jobs_loop
  generate_jobs positions addresses_per_job =
      jobs_loop (suc (length positions)) positions addresses_per_job 0
