-- ===== src/HealthChecker/Service.antt =====
-- health-checker/src/health-checker/health_checker.go: the health checker and its `Run`.
pub mod LastItem
pub mod Selects
pub mod Unhealthy
pub mod Round
use Prim.Native.String.{String}
use multichain_liquidator_bo.Base.{
  ℕ, zero, suc, Bool, true, false, Option, none, some, List, [], ◌∷◌, ◌++◌, length, ◌⊎◌, inl, inr,
}
use multichain_liquidator_bo.Base.Int.{ℤ, pos}
use multichain_liquidator_bo.Base.Loop.{Outcome, while_flag, connected}
use multichain_liquidator_bo.Base.Text.{Text, codes}
use multichain_liquidator_bo.Base.Action.{
  Error, message, Result, ok, err, panic, Action, ◌>>=◌, ◌>>◌, return, fail, ignore,
}
use multichain_liquidator_bo.Runtime.Types.{HealthCheckWorkItem}
use multichain_liquidator_bo.Runtime.Interfaces.{Queuer, Cacher}
use multichain_liquidator_bo.HealthChecker.Hive.{UserResult}
use multichain_liquidator_bo.HealthChecker.Jobs.{Job, generate_jobs}

pub record HealthChecker (W F : Type 0) : Type 0 where
  pub queue : Queuer W
  pub metrics_cache : Cacher W F
  pub health_check_queue_name : Text
  pub liquidation_queue_name : Text
  pub jobs_per_worker : ℕ
  pub addresses_per_job : ℕ
  pub batch_size : ℤ
  pub redbank_address : Text

-- `New`; `none` is a nil interface. The names are tested in the order of the source's condition.
pub new_health_checker :
    {W F : Type 0}
    → Option (Queuer W)
    → Option (Cacher W F)
    → Text
    → Text
    → ℕ
    → ℤ
    → ℕ
    → Text
    → Result (HealthChecker W F)
new_health_checker none cache health liquidation jobs batch addresses redbank =
    err (message "queue must be set")
new_health_checker (some q) none health liquidation jobs batch addresses redbank =
    err (message "metricsCache must be set")
new_health_checker (some q) (some c) health [] jobs batch addresses redbank =
    err (message "HealthCheckQueue and liquidationQueue must be set")
new_health_checker (some q) (some c) [] (x ∷ liquidation) jobs batch addresses redbank =
    err (message "HealthCheckQueue and liquidationQueue must be set")
new_health_checker (some q) (some c) (y ∷ health) (x ∷ liquidation) jobs batch zero redbank =
    err (message "AddressesPerJob cannot be 0")
new_health_checker (some q) (some c) (y ∷ health) (x ∷ liquidation) jobs batch (suc n) redbank =
    ok (record {
      queue = q;
      metrics_cache = c;
      health_check_queue_name = y ∷ health;
      liquidation_queue_name = x ∷ liquidation;
      jobs_per_worker = jobs;
      addresses_per_job = suc n;
      batch_size = batch;
      redbank_address = redbank;
    })

-- Foreign code: the JSON decoding of an item and encoding of a result (encoding/json), with an error
-- or a value, and the reading of a decimal text as a float32 (strconv.ParseFloat), as its comparison
-- with 1.
pub record Codec : Type 0 where
  pub unmarshal_item : Text → Error ⊎ HealthCheckWorkItem
  pub marshal_result : UserResult → Error ⊎ Text
  pub parse_below_one : Text → Error ⊎ Bool

error_of : Error ⊎ HealthCheckWorkItem → Option Error
error_of (inl e) = some e
error_of (inr p) = none

add_position :
    Error ⊎ HealthCheckWorkItem
    → List HealthCheckWorkItem × Option Error
    → List HealthCheckWorkItem × Option Error
add_position (inl e) rest = rest
add_position (inr p) (ps, last) = (p ∷ ps, last)

-- The loop that decodes the items: the positions, and what the variable `err` holds at its end. Each
-- item sets that variable anew.
pub decode_items :
    (Text → Error ⊎ HealthCheckWorkItem)
    → List Text
    → Option Error
    → List HealthCheckWorkItem × Option Error
unfolding error_of add_position
decode_items unmarshal [] last = ([], last)
decode_items unmarshal (item ∷ items) last =
    add_position (unmarshal item) (decode_items unmarshal items (error_of (unmarshal item)))

encoded_result : Error ⊎ Text → List Text
encoded_result (inl e) = []
encoded_result (inr text) = text ∷ []

-- A result whose health factor cannot be read, or is not below 1, is passed over, and so is one
-- that cannot be encoded.
unhealthy_result : Error ⊎ Bool → Error ⊎ Text → List Text
unfolding encoded_result
unhealthy_result (inl e) text = []
unhealthy_result (inr true) text = encoded_result text
unhealthy_result (inr false) text = []

-- `produceUnhealthyPositions`.
unfoldable pub produce_unhealthy_positions : Codec → List UserResult → List Text
unfolding unhealthy_result
produce_unhealthy_positions codec [] = []
produce_unhealthy_positions codec (r ∷ results) =
    unhealthy_result (codec.parse_below_one r.contract_query.liquidation_threshold_hf)
      (codec.marshal_result r)
    ++ produce_unhealthy_positions codec results

-- `pool` is a run of the worker pool: the user results and the success flag that `RunWorkerPool`
-- returns for the jobs, which the interleaving decides.
module _ {W F : Type 0} (codec : Codec)
    (pool : List (Job HealthCheckWorkItem) → Action W (List UserResult × Bool))
    (service : HealthChecker W F) where
  push_unhealthy : List Text → Action W (Unit {0})
  push_unhealthy [] = return tt
  push_unhealthy (x ∷ xs) = do
    ignore (
        service.metrics_cache.increment_by (codes "executor.liquidations.total")
          (pos (length (x ∷ xs))))
    ignore (service.queue.push_many service.liquidation_queue_name (x ∷ xs))

  -- `none` would be a cut into jobs that does not end.
  run_jobs : Option (List (Job HealthCheckWorkItem)) → Action W (List UserResult × Bool)
  run_jobs none w = (panic, w)
  run_jobs (some jobs) w = pool jobs w

  -- The rest of the loop's body, once positions are at hand.
  pub check_positions : List HealthCheckWorkItem → Action W (Unit {0})
  unfolding push_unhealthy run_jobs
  check_positions positions = do
    results ← run_jobs (generate_jobs positions service.addresses_per_job)
    ignore (
        service.metrics_cache.increment_by (codes "health_checker.accounts.scanned")
          (pos (length results.0)))
    push_unhealthy (produce_unhealthy_positions codec results.0)
    ignore (
        service.metrics_cache.increment_by (codes "health_checker.unhealthy.total")
          (pos (length (produce_unhealthy_positions codec results.0))))

  check_decoded : List HealthCheckWorkItem × Option Error → Action W (Unit {0})
  unfolding check_positions
  check_decoded (positions, none) = check_positions positions
  check_decoded (positions, some e) = fail e

  -- With no items the source sleeps and goes on.
  check_items : List Text → Action W (Unit {0})
  unfolding check_decoded decode_items
  check_items [] = return tt
  check_items (x ∷ xs) = check_decoded (decode_items codec.unmarshal_item (x ∷ xs) none)

  -- The body of the loop of `Run`.
  pub check_once : Action W (Unit {0})
  unfolding check_items
  check_once = do
    items ← service.queue.fetch_many service.health_check_queue_name service.batch_size
    check_items items

  -- `Run`, with the values that the flag reads.
  pub run : List Bool → W → Outcome × W
  unfolding check_once while_flag connected
  run reads w =
      connected (while_flag check_once service.queue.disconnect reads) (service.queue.connect w)

-- `Stop`, on `continueRunning`, which is atomic.
pub stop : ℕ → Result (Unit {0}) × ℕ
stop running = (ok tt, 0)
