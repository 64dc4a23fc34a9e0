-- ===== src/HealthChecker/Results.antt =====
-- health-checker/src/health-checker/job.go, `getExecuteFunction` and `RunWorkerPool` of
-- health_checker.go: what a job gives and what the service keeps of it.
pub mod Joined
use multichain_liquidator_bo.Base.{List, [], ◌∷◌, ◌++◌, ◌⊎◌, inl, inr}
use multichain_liquidator_bo.Base.Action.{Error}
use multichain_liquidator_bo.Runtime.Types.{HealthCheckWorkItem}
use multichain_liquidator_bo.Base.Text.{Text}
use multichain_liquidator_bo.HealthChecker.Hive.{UserResult, HiveApi, fetch_batch}
use multichain_liquidator_bo.HealthChecker.Jobs.{Job}

-- `Result`: its field `Err`, or where that is nil its field `Value`.
pub data JobResult : Type 0 where
  failed : Error → JobResult
  fetched : List UserResult → JobResult

answered : Error ⊎ List UserResult → JobResult
answered (inl e) = failed e
answered (inr results) = fetched results

-- `getExecuteFunction`: the function of every job, on the positions of the job. An argument that is
-- no list of positions is ruled out by its type.
pub execute_function :
    {W : Type 0}
    → HiveApi W
    → Text
    → Text
    → List HealthCheckWorkItem
    → W
    → (Error ⊎ List UserResult) × W
execute_function hive hive_endpoint redbank_address positions =
    fetch_batch hive hive_endpoint positions redbank_address

-- `execute`, with the function of the job and the world that the job finds when a worker executes it;
-- each job is executed by one worker, once.
pub execute :
    {W : Type 0}
    → (List HealthCheckWorkItem → W → (Error ⊎ List UserResult) × W)
    → (Job HealthCheckWorkItem → W)
    → Job HealthCheckWorkItem
    → JobResult
unfolding answered
execute exec world job = answered (exec job.args (world job)).0

-- The loop of `RunWorkerPool` over the results that it receives: one with an error is logged and
-- passed over. A job's ID is a decimal text, which ParseInt can read.
pub user_results : List JobResult → List UserResult
user_results [] = []
user_results (failed e ∷ results) = user_results results
user_results (fetched value ∷ results) = value ++ user_results results
