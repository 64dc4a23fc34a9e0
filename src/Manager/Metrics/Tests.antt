-- ===== src/Manager/Metrics/Tests.antt =====
-- A collection on a cache held in memory, of whole numbers.
use multichain_liquidator_bo.Base.{ℕ, ◌≡◌, refl, if◌then◌else◌, Option, some, List}
use multichain_liquidator_bo.Base.Int.{ℤ, pos}
use multichain_liquidator_bo.Base.Text.{codes}
use multichain_liquidator_bo.Base.Action.{ok}
use multichain_liquidator_bo.Manager.Sample.{
  floats, numbers_of, cache_laws, manager, counts_only, used,
}
use multichain_liquidator_bo.Manager.Metrics.{collect_metrics}
use multichain_liquidator_bo.Manager.Metrics.Groups.{Readings}
use multichain_liquidator_bo.Manager.Metrics.Reads.{Answers}
use multichain_liquidator_bo.Manager.Metrics.Reports.{
  AreRead, report, cleared, is_in, collect_metrics_reports,
}
use multichain_liquidator_bo.Manager.Metrics.Clears.{
  IsLeft, collect_metrics_clears, collect_metrics-IsLeft,
}

collect_metrics_reports_example :
    (os : List (Option ℤ)) × (r : Readings (Option ℕ)) × Answers numbers_of manager.scalers os
    × AreRead manager.metrics_cache numbers_of (numbers_of used) r
    × ((collect_metrics floats manager (pos 41) used).0
        ≡ ok (report floats (codes "osmosis-1") (pos 41) manager.scalers os r))
collect_metrics_reports_example =
    collect_metrics_reports floats manager numbers_of cache_laws counts_only (pos 41) used

collect_metrics_clears_example :
    (collect_metrics floats manager (pos 41) used).1.1 (codes "executor.liquidations.total") ≡ (
      if is_in (codes "executor.liquidations.total") (cleared manager.scalers)
      then some 0
      else some 7)
collect_metrics_clears_example =
    collect_metrics_clears floats manager numbers_of cache_laws counts_only (λ k c. refl) (pos 41)
      used (codes "executor.liquidations.total")

collect_metrics-IsLeft_example :
    IsLeft floats manager numbers_of cache_laws
      (cleared manager.scalers)
      (numbers_of used)
      (codes "collector.contract_items.total")
      ((collect_metrics floats manager (pos 41) used).1.1 (codes "collector.contract_items.total"))
collect_metrics-IsLeft_example =
    collect_metrics-IsLeft floats manager numbers_of cache_laws counts_only (pos 41) used
      (codes "collector.contract_items.total")
