-- ===== src/Manager/Metrics.antt =====
-- manager/src/manager/metrics.go and `Metric` of types.go: the metrics of a block.
pub mod Batches
pub mod Reads
pub mod Groups
pub mod Reports
pub mod Clears
mod Tests
use multichain_liquidator_bo.Base.{ℕ, Option, none, some, List, [], ◌∷◌, ◌++◌}
use multichain_liquidator_bo.Base.Float.{Float, at_least_nought}
use multichain_liquidator_bo.Base.Int.{ℤ}
use multichain_liquidator_bo.Base.Text.{Text, codes}
use multichain_liquidator_bo.Base.Action.{
  Result, ok, err, panic, Action, ◌>>=◌, ◌>>◌, return, ignore,
}
use multichain_liquidator_bo.Manager.Interfaces.{Scaler}
use multichain_liquidator_bo.Manager.Block.{Manager}

-- `Metric`, but for its timestamp.
pub record Metric (F : Type 0) : Type 0 where
  pub name : Text
  pub value : F
  pub chain : Text

-- The two lists that `collectMetrics` appends to.
pub record Batch (F : Type 0) : Type 0 where
  pub metrics : List (Metric F)
  pub metrics_to_clear : List Text

-- The text that `Sprintf` makes of a scaler's name.
abbrev pub count_name : Text → Text
count_name scaler = codes "manager.scaler." ++ scaler ++ codes ".count"

module _ {F : Type 0} where
  pub add_metric : Text → Text → F → Batch F → Batch F
  add_metric chain name x b = record b {
    metrics = b.metrics ++ record { name = name; value = x; chain = chain } ∷ [];
  }

  pub to_clear : Text → Batch F → Batch F
  to_clear name b = record b { metrics_to_clear = b.metrics_to_clear ++ name ∷ [] }

module _ {F : Type 0} (fl : Float F) (chain : Text) where
  -- What is missing of `x` to `total`, where it is not negative.
  pub add_difference : Text → F → F → Batch F → Batch F
  unfolding add_metric to_clear at_least_nought
  add_difference name total x b =
      add_metric chain name (at_least_nought fl (fl.minus total x)) (to_clear name b)

module _ {W F : Type 0} (fl : Float F) (chain : Text) where
  -- The count of a scaler; on an error there is no metric.
  pub counted : Text → Batch F → Result ℤ × W → Result (Batch F) × W
  unfolding add_metric
  counted name b (ok n, w) = (ok (add_metric chain name (fl.of_int n) b), w)
  counted name b (err e, w) = (ok b, w)
  counted name b (panic, w) = (panic, w)

  pub collect_counts : List (Text × Scaler W) → Batch F → Action W (Batch F)
  unfolding counted to_clear
  collect_counts [] b = return b
  collect_counts ((name, scaler) ∷ scalers) b =
      (λ w. counted (count_name name) (to_clear (count_name name) b) (scaler.count w))
      >>= collect_counts scalers

  -- A number of the cache, and the metric that shows it; on an error there is no metric, and the
  -- number that `GetFloat64` gives beside the error is taken to be 0.
  pub got_metric : Text → Batch F → Result F × W → Result (F × Batch F) × W
  unfolding add_metric
  got_metric name b (ok x, w) = (ok (x, add_metric chain name x b), w)
  got_metric name b (err e, w) = (ok (fl.nought, b), w)
  got_metric name b (panic, w) = (panic, w)

module _ {W F : Type 0} (fl : Float F) (service : Manager W F) where
  pub get_metric : Text → Batch F → Action W (F × Batch F)
  unfolding got_metric
  get_metric name b w =
      got_metric fl service.chain_id name b (service.metrics_cache.get_float64 name w)

  -- The total is not cleared.
  pub collect_collector : Batch F → Action W (Batch F)
  unfolding get_metric to_clear add_difference
  collect_collector b = do
    total ← get_metric (codes "collector.contract_items.total") b
    scanned ←
        get_metric (codes "collector.contract_items.scanned")
          (to_clear (codes "collector.contract_items.scanned") total.1)
    return (
        add_difference fl service.chain_id (codes "collector.contract_items.missed") total.0
          scanned.0 scanned.1)

  pub collect_health_checker : Batch F → Action W (Batch F)
  unfolding get_metric to_clear add_difference
  collect_health_checker b = do
    total ←
        get_metric (codes "health_checker.accounts.total")
          (to_clear (codes "health_checker.accounts.total") b)
    scanned ←
        get_metric (codes "health_checker.accounts.scanned")
          (to_clear (codes "health_checker.accounts.scanned") total.1)
    unhealthy ← get_metric (codes "health_checker.unhealthy.total") (
        to_clear (codes "health_checker.unhealthy.total") (
          add_difference fl service.chain_id (codes "health_checker.accounts.missed") total.0
            scanned.0 scanned.1))
    return (
        add_difference fl service.chain_id (codes "health_checker.accounts.healthy") scanned.0
          unhealthy.0 unhealthy.1)

  pub collect_executor : Batch F → Action W (Batch F)
  unfolding get_metric to_clear add_difference
  collect_executor b = do
    total ←
        get_metric (codes "executor.liquidations.total")
          (to_clear (codes "executor.liquidations.total") b)
    performed ←
        get_metric (codes "executor.liquidations.executed")
          (to_clear (codes "executor.liquidations.executed") total.1)
    return (
        add_difference fl service.chain_id (codes "executor.liquidations.missed") total.0
          performed.0 performed.1)

  -- The errors of the deletions are dropped.
  pub clear_metrics : List Text → Action W (Unit {0})
  clear_metrics [] = return tt
  clear_metrics (name ∷ names) = ignore (service.metrics_cache.delete name) >> clear_metrics names

  pub collect_metrics : ℤ → Action W (List (Metric F))
  unfolding add_metric collect_counts collect_collector collect_health_checker collect_executor
      clear_metrics
  collect_metrics height = do
    counts ← collect_counts fl service.chain_id service.scalers (
        add_metric service.chain_id (codes "general.block_height") (fl.of_int height)
          (record { metrics = []; metrics_to_clear = [] }))
    collector ← collect_collector counts
    health_checker ← collect_health_checker collector
    all ← collect_executor health_checker
    clear_metrics all.metrics_to_clear
    return all.metrics

-- What is sent to DataDog of a metric, but for constants and the timestamp.
pub record Payload (F : Type 0) : Type 0 where
  pub metric : Text
  pub value : F
  pub host : Text

-- `submitMetrics`, given the client's `SubmitMetrics`; an error is logged.
pub submit_metrics :
    {W F : Type 0} → (Payload F → Action W (Unit {0})) → List (Metric F) → Action W (Unit {0})
submit_metrics submit [] = return tt
submit_metrics submit (m ∷ metrics) =
    ignore (submit (record { metric = m.name; value = m.value; host = m.chain }))
    >> submit_metrics submit metrics
