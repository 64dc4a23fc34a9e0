-- ===== src/HealthChecker/Results/Joined.antt =====
-- Every position is answered once, in whichever order the workers run.
use mathlib.Core.List.{Perm}
use mathlib.Core.List.Perm
use multichain_liquidator_bo.Base.{
  ℕ, ◌<◌, ◌≡◌, refl, sym, ap, ◌∙◌, subst, true, some, List, [], ◌∷◌, ◌++◌, map, append-nil, concat,
}
use multichain_liquidator_bo.Base.Perms.{joined, Perm-joined}
use multichain_liquidator_bo.Base.Text.{Text}
use multichain_liquidator_bo.Runtime.Types.{HealthCheckWorkItem}
use multichain_liquidator_bo.HealthChecker.Hive.{UserResult, ContractQuery, HiveApi}
use multichain_liquidator_bo.HealthChecker.Hive.Joins.{Lacks}
use multichain_liquidator_bo.HealthChecker.Hive.Answers.{
  HiveLaws, Apart, answer_for, fetch_batch_answers,
}
use multichain_liquidator_bo.HealthChecker.Jobs.{Job, generate_jobs}
use multichain_liquidator_bo.HealthChecker.Jobs.Covers.{args_of, generate_jobs-IsSplit}
use multichain_liquidator_bo.HealthChecker.Pool.{Pool, start, Reach}
use multichain_liquidator_bo.HealthChecker.Pool.Conserves.{pool_returns}
use multichain_liquidator_bo.HealthChecker.Results.{
  JobResult, failed, fetched, answered, execute_function, execute, user_results,
}

-- What one result adds.
value_of : JobResult → List UserResult
value_of (failed e) = []
value_of (fetched value) = value

user_results-joined : (rs : List JobResult) → user_results rs ≡ joined value_of rs
unfolding user_results value_of
user_results-joined [] = refl
user_results-joined (failed e ∷ rs) = user_results-joined rs
user_results-joined (fetched value ∷ rs) = ap (value ++◌) (user_results-joined rs)

user_results-Perm : {rs ss : List JobResult} → Perm rs ss → Perm (user_results rs) (user_results ss)
user_results-Perm = Perm-joined value_of user_results user_results-joined

user_results-cons :
    (rs : List UserResult) (results : List JobResult)
    → user_results (fetched rs ∷ results) ≡ rs ++ user_results results
unfolding user_results
user_results-cons rs results = refl

map-append :
    (f : HealthCheckWorkItem → UserResult) (xs ys : List HealthCheckWorkItem)
    → map f (xs ++ ys) ≡ map f xs ++ map f ys
map-append f [] ys = refl
map-append f (x ∷ xs) ys = ap (f x ∷◌) (map-append f xs ys)

Lacks-append :
    (address : Text) (xs ys : List HealthCheckWorkItem)
    → Lacks address (xs ++ ys)
    → Lacks address xs
Lacks-append address [] ys h = tt
Lacks-append address (x ∷ xs) ys (h, hs) = (h, Lacks-append address xs ys hs)

Apart-append : (xs ys : List HealthCheckWorkItem) → Apart (xs ++ ys) → Apart xs × Apart ys
Apart-append [] ys h = (tt, h)
Apart-append (x ∷ xs) ys (lacks, h) =
    let (here, there) = Apart-append xs ys h in ((Lacks-append x.address xs ys lacks, here), there)

module _ {W : Type 0} (hive : HiveApi W) (hive_endpoint : Text)
    (query_of : Text → Text → ContractQuery) (laws : HiveLaws hive hive_endpoint query_of)
    (redbank_address : Text) (world : Job HealthCheckWorkItem → W) where
  -- A job of the service.
  abbrev pub run_job : Job HealthCheckWorkItem → JobResult
  run_job = execute (execute_function hive hive_endpoint redbank_address) world

  -- What Hive says of the user of a position, with the debts and the collateral of the position.
  abbrev pub answer : HealthCheckWorkItem → UserResult
  answer = answer_for (query_of redbank_address)

  run_job-fetched :
      (job : Job HealthCheckWorkItem)
      → Apart job.args
      → (rs : List UserResult) × (run_job job ≡ fetched rs) × Perm (map answer job.args) rs
  unfolding execute execute_function
  run_job-fetched job apart =
      let (rs, e, all) =
        fetch_batch_answers hive hive_endpoint query_of laws job.args redbank_address (world job)
          apart in
      (rs, unfold answered in rw e refl, all)

  user_results-jobs :
      (jobs : List (Job HealthCheckWorkItem))
      → Apart (concat (map args_of jobs))
      → Perm (map answer (concat (map args_of jobs))) (user_results (map run_job jobs))
  user_results-jobs [] apart = unfold user_results in Perm.refl []
  user_results-jobs (job ∷ jobs) apart =
      let rest = concat (map args_of jobs) in
      let (here, there) = Apart-append job.args rest apart in
      let (rs, e, all) = run_job-fetched job here in
      subst (λ (ts : List UserResult). Perm ts (user_results (run_job job ∷ map run_job jobs)))
        (sym (map-append answer job.args rest))
        (subst
          (λ (r : JobResult).
            Perm (map answer job.args ++ map answer rest) (user_results (r ∷ map run_job jobs)))
          (sym e)
          (subst (Perm (map answer job.args ++ map answer rest))
            (sym (user_results-cons rs (map run_job jobs)))
            (Perm.trans (Perm.append_right (map answer rest) all)
              (Perm.append_left rs (user_results-jobs jobs there)))))

  -- Where Hive is up and says of a user the same whenever it is asked, the positions have pairwise
  -- different addresses, the number of positions per job and that of workers are above 0, and the
  -- pool, with jobs that ask Hive for their batch, returned and left no result behind, then in
  -- whichever order the workers ran, and in whichever order Hive answers a batch, what `RunWorkerPool`
  -- returns is a rearrangement of the answers for all positions, each with the debts and the
  -- collateral of its own position: each position is answered once.
  pub pool_answers :
      (positions : List HealthCheckWorkItem) (size workers : ℕ)
      (jobs : List (Job HealthCheckWorkItem)) {s : Pool (Job HealthCheckWorkItem) JobResult}
      → Apart positions
      → 0 < size
      → 0 < workers
      → generate_jobs positions size ≡ some jobs
      → Reach workers run_job (start workers jobs) s
      → s.returned ≡ true
      → s.results ≡ []
      → Perm (map answer positions) (user_results s.received)
  pool_answers positions size workers jobs {s} apart p q made run returned drained =
      let (jobs', e, split, _) = generate_jobs-IsSplit positions size p in
      let same : jobs' ≡ jobs = cc in
      let joined : concat (map args_of jobs) ≡ positions =
        subst (λ (js : List (Job HealthCheckWorkItem)). concat (map args_of js) ≡ positions) same
          split.joined in
      let answered : Perm (map answer positions) (user_results (map run_job jobs)) =
        subst
          (λ (ps : List HealthCheckWorkItem).
            Perm (map answer ps) (user_results (map run_job jobs)))
          joined (user_results-jobs jobs (rw joined apart)) in
      let all = user_results-Perm (pool_returns workers run_job jobs q run returned) in
      Perm.trans answered (
        subst (λ (rs : List JobResult). Perm (user_results (map run_job jobs)) (user_results rs))
          (ap (s.received ++◌) drained ∙ append-nil s.received) all)
