-- ===== src/Manager/Metrics/Reports.antt =====
-- What is reported of a block, and what is left in the cache.
use multichain_liquidator_bo.Base.{
  ◌≡◌, ◌≢◌, refl, ap, ◌∙◌, sym, Option, List, [], ◌∷◌, ◌++◌, All, Bool, false, ◌||◌,
}
use multichain_liquidator_bo.Base.Float.{Float}
use multichain_liquidator_bo.Base.Int.{ℤ}
use multichain_liquidator_bo.Base.Text.{Text, codes, text_eq}
use multichain_liquidator_bo.Base.Action.{
  Result, ok, err, panic, ◌>>=◌, ◌>>◌, bound, return, ignored,
}
use multichain_liquidator_bo.Runtime.Interfaces.{Cacher}
use multichain_liquidator_bo.Runtime.Numbers.{Numbers, Set, CacherLaws}
use multichain_liquidator_bo.Manager.Interfaces.{Scaler}
use multichain_liquidator_bo.Manager.Block.{Manager}
use multichain_liquidator_bo.Manager.Metrics.{
  Metric, Batch, add_metric, collect_counts, collect_collector, collect_health_checker,
  collect_executor, clear_metrics, collect_metrics,
}
use multichain_liquidator_bo.Manager.Metrics.Batches.{entry, extend}
use multichain_liquidator_bo.Manager.Metrics.Reads.{
  IsRead, Answers, CountsOnly, shown_counts, count_names, collect_counts-extend,
}
use multichain_liquidator_bo.Manager.Metrics.Groups.{
  Readings, collector_cleared, health_checker_cleared, executor_cleared, collector_report,
  health_checker_report, executor_report, collect_collector-extend, collect_health_checker-extend,
  collect_executor-extend,
}

-- Each reading is the number that the cache held, or none where a read of it failed.
pub record AreRead {W F : Type 0} (cache : Cacher W F) (numbers : W → Numbers F) (c : Numbers F)
    (r : Readings F) : Type 0 where
  pub items : IsRead cache numbers c (codes "collector.contract_items.total") r.items
  pub items_scanned :
      IsRead cache numbers c (codes "collector.contract_items.scanned") r.items_scanned
  pub accounts : IsRead cache numbers c (codes "health_checker.accounts.total") r.accounts
  pub accounts_scanned :
      IsRead cache numbers c (codes "health_checker.accounts.scanned") r.accounts_scanned
  pub unhealthy : IsRead cache numbers c (codes "health_checker.unhealthy.total") r.unhealthy
  pub liquidations : IsRead cache numbers c (codes "executor.liquidations.total") r.liquidations
  pub liquidations_executed :
      IsRead cache numbers c (codes "executor.liquidations.executed") r.liquidations_executed

-- The names that are cleared: all but the height and the total number of contract items.
abbrev pub cleared : {W : Type 0} → List (Text × Scaler W) → List Text
cleared scalers =
    ((count_names scalers ++ collector_cleared) ++ health_checker_cleared) ++ executor_cleared

-- The metrics of a height, of the scalers' answers and of the readings.
abbrev pub report :
    {W F : Type 0}
    → Float F
    → Text
    → ℤ
    → List (Text × Scaler W)
    → List (Option ℤ)
    → Readings F
    → List (Metric F)
report fl chain height scalers os r =
    entry chain (codes "general.block_height") (fl.of_int height)
    ∷ (((shown_counts fl chain scalers os ++ collector_report fl chain r.items r.items_scanned)
          ++ health_checker_report fl chain r.accounts r.accounts_scanned r.unhealthy)
        ++ executor_report fl chain r.liquidations r.liquidations_executed)

abbrev pub is_in : Text → List Text → Bool
is_in k [] = false
is_in k (name ∷ names) = text_eq name k || is_in k names

module _ {W F : Type 0} (fl : Float F) (service : Manager W F) (numbers : W → Numbers F)
    (laws : CacherLaws service.metrics_cache fl.nought numbers) where
  pub no_panic : (name : Text) (w : W) → (service.metrics_cache.delete name w).0 ≢ panic
  no_panic name w = go (service.metrics_cache.delete name w) (laws.deletes name w)
    where
      go :
          (r : Result (Unit {0}) × W)
          → Set (numbers w) name fl.nought r.0 (numbers r.1)
          → r.0 ≢ panic
      go (ok a, v) h = λ e. cc
      go (err x, v) h = λ e. cc
      go (panic, v) h = absurd h

  pub clear_metrics_ends :
      (names : List Text) (w : W)
      → clear_metrics fl service names w ≡ (ok tt, (clear_metrics fl service names w).1)
  unfolding clear_metrics
  clear_metrics_ends [] w = refl
  clear_metrics_ends (name ∷ names) w =
      let e =
        ignored (service.metrics_cache.delete name) (clear_metrics fl service names) w
          (no_panic name w) in
      e
      ∙ clear_metrics_ends names (service.metrics_cache.delete name w).1
      ∙ ap (λ (r : Result (Unit {0}) × W). (ok tt, r.1)) (sym e)

  module _ (counts_only : All (CountsOnly numbers) service.scalers) where
    pub collected :
        (height : ℤ) (w : W)
        → (os : List (Option ℤ)) × (r : Readings F) × (v : W) × Answers numbers service.scalers os
          × AreRead service.metrics_cache numbers (numbers w) r
          × (numbers v ≡ numbers w)
          × (collect_metrics fl service height w ≡ (
            ok (report fl service.chain_id height service.scalers os r),
            (clear_metrics fl service (cleared service.scalers) v).1,
          ))
    unfolding collect_metrics add_metric
    collected height w =
        let chain = service.chain_id in
        let c = numbers w in
        let start =
          extend (record { metrics = []; metrics_to_clear = [] })
            (entry chain (codes "general.block_height") (fl.of_int height) ∷ []) [] in
        let (os, v₁, answers, e₁, k₁) =
          collect_counts-extend fl chain numbers service.scalers start w counts_only in
        let b₁ =
          extend start (shown_counts fl chain service.scalers os) (count_names service.scalers) in
        let (t, s, v₂, rt, rs, e₂, k₂) =
          collect_collector-extend fl service numbers laws c b₁ v₁ k₁ in
        let b₂ = extend b₁ (collector_report fl chain t s) collector_cleared in
        let (a, a', u, v₃, ra, ra', ru, e₃, k₃) =
          collect_health_checker-extend fl service numbers laws c b₂ v₂ k₂ in
        let b₃ = extend b₂ (health_checker_report fl chain a a' u) health_checker_cleared in
        let (l, l', v₄, rl, rl', e₄, k₄) =
          collect_executor-extend fl service numbers laws c b₃ v₃ k₃ in
        let b₄ = extend b₃ (executor_report fl chain l l') executor_cleared in
        let finish =
          λ (b : Batch F). clear_metrics fl service b.metrics_to_clear >> return b.metrics in
        (
          os,
          record {
            items = t;
            items_scanned = s;
            accounts = a;
            accounts_scanned = a';
            unhealthy = u;
            liquidations = l;
            liquidations_executed = l';
          },
          v₄,
          answers,
          record {
            items = rt;
            items_scanned = rs;
            accounts = ra;
            accounts_scanned = ra';
            unhealthy = ru;
            liquidations = rl;
            liquidations_executed = rl';
          },
          k₄,
          bound (collect_counts fl chain service.scalers start)
                (λ b. collect_collector fl service b >>= λ b.
                  collect_health_checker fl service b >>= λ b.
                  collect_executor fl service b >>= finish)
                w b₁ v₁ e₁
              ∙ bound (collect_collector fl service b₁)
                  (λ b. collect_health_checker fl service b >>= λ b.
                    collect_executor fl service b >>= finish)
                  v₁ b₂ v₂ e₂
              ∙ bound (collect_health_checker fl service b₂)
                  (λ b. collect_executor fl service b >>= finish) v₂ b₃ v₃ e₃
              ∙ bound (collect_executor fl service b₃) finish v₃ b₄ v₄ e₄
              ∙ bound (clear_metrics fl service b₄.metrics_to_clear) (λ _. return b₄.metrics) v₄ tt
                  (clear_metrics fl service b₄.metrics_to_clear v₄).1
                  (clear_metrics_ends b₄.metrics_to_clear v₄),
        )

    -- Whichever counts and numbers of the cache cannot be read, collecting the metrics gives the
    -- height, the count of each scaler that answers, each number as the cache held it at the start,
    -- where none is left out but for a read of it that failed, and the differences: of the items and accounts that were not scanned, of the
    -- accounts that are healthy and of the liquidations that were not executed. A negative difference
    -- is reported as 0, and a number that cannot be read counts as 0 in it. The cache is taken to keep
    -- its contract, and the scalers' counts not to panic and to leave the cache as it is.
    pub collect_metrics_reports :
        (height : ℤ) (w : W)
        → (os : List (Option ℤ)) × (r : Readings F) × Answers numbers service.scalers os
          × AreRead service.metrics_cache numbers (numbers w) r
          × ((collect_metrics fl service height w).0
              ≡ ok (report fl service.chain_id height service.scalers os r))
    collect_metrics_reports height w =
        let (os, r, v, answers, read, kept, e) = collected height w in
        (os, r, answers, read, ap (λ (x : Result (List (Metric F)) × W). x.0) e)
