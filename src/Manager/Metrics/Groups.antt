-- ===== src/Manager/Metrics/Groups.antt =====
-- The metrics of each kind of service.
use multichain_liquidator_bo.Base.{◌≡◌, ap, ◌∙◌, Option, List, [], ◌∷◌, ◌++◌}
use multichain_liquidator_bo.Base.Float.{Float}
use multichain_liquidator_bo.Base.Text.{Text, codes}
use multichain_liquidator_bo.Base.Action.{ok, Action, ◌>>=◌, bound, return}
use multichain_liquidator_bo.Runtime.Numbers.{Numbers, CacherLaws}
use multichain_liquidator_bo.Manager.Block.{Manager}
use multichain_liquidator_bo.Manager.Metrics.{
  Metric, Batch, to_clear, add_difference, get_metric, collect_collector, collect_health_checker,
  collect_executor,
}
use multichain_liquidator_bo.Manager.Metrics.Batches.{
  single-extend, extend, extend_twice, shown, missing, value_or_nought, pair-extend,
  cleared_pair-extend,
}
use multichain_liquidator_bo.Manager.Metrics.Reads.{IsRead, get_metric-extend}

-- The numbers that a collection read, where it could.
pub record Readings (F : Type 0) : Type 0 where
  pub items : Option F
  pub items_scanned : Option F
  pub accounts : Option F
  pub accounts_scanned : Option F
  pub unhealthy : Option F
  pub liquidations : Option F
  pub liquidations_executed : Option F

abbrev pub collector_cleared : List Text
collector_cleared =
    codes "collector.contract_items.scanned" ∷ codes "collector.contract_items.missed" ∷ []

abbrev pub health_checker_cleared : List Text
health_checker_cleared =
    codes "health_checker.accounts.total"
    ∷ codes "health_checker.accounts.scanned"
    ∷ codes "health_checker.accounts.missed"
    ∷ codes "health_checker.unhealthy.total"
    ∷ codes "health_checker.accounts.healthy"
    ∷ []

abbrev pub executor_cleared : List Text
executor_cleared =
    codes "executor.liquidations.total"
    ∷ codes "executor.liquidations.executed"
    ∷ codes "executor.liquidations.missed"
    ∷ []

module _ {F : Type 0} (fl : Float F) (chain : Text) where
  abbrev pub collector_report : Option F → Option F → List (Metric F)
  collector_report total scanned =
      shown chain (codes "collector.contract_items.total") total
      ++ (shown chain (codes "collector.contract_items.scanned") scanned
          ++ missing fl chain (codes "collector.contract_items.missed") total scanned)

  abbrev pub health_checker_report : Option F → Option F → Option F → List (Metric F)
  health_checker_report total scanned unhealthy =
      (shown chain (codes "health_checker.accounts.total") total
        ++ (shown chain (codes "health_checker.accounts.scanned") scanned
            ++ missing fl chain (codes "health_checker.accounts.missed") total scanned))
      ++ (shown chain (codes "health_checker.unhealthy.total") unhealthy
          ++ missing fl chain (codes "health_checker.accounts.healthy") scanned unhealthy)

  abbrev pub executor_report : Option F → Option F → List (Metric F)
  executor_report total performed =
      shown chain (codes "executor.liquidations.total") total
      ++ (shown chain (codes "executor.liquidations.executed") performed
          ++ missing fl chain (codes "executor.liquidations.missed") total performed)

module _ {W F : Type 0} (fl : Float F) (service : Manager W F) (numbers : W → Numbers F)
    (laws : CacherLaws service.metrics_cache fl.nought numbers) (c : Numbers F) where
  abbrev chain : Text
  chain = service.chain_id

  pub collect_collector-extend :
      (b : Batch F) (w : W)
      → numbers w ≡ c
      → (total : Option F) × (scanned : Option F) × (v : W) × IsRead service.metrics_cache numbers c
          (codes "collector.contract_items.total")
          total
        × IsRead service.metrics_cache numbers c (codes "collector.contract_items.scanned") scanned
        × (collect_collector fl service b w
            ≡ (ok (extend b (collector_report fl chain total scanned) collector_cleared), v))
        × (numbers v ≡ c)
  unfolding collect_collector
  collect_collector-extend b w same =
      let n = codes "collector.contract_items.total" in
      let n' = codes "collector.contract_items.scanned" in
      let m = codes "collector.contract_items.missed" in
      let (o, v, read, e, kept) = get_metric-extend fl service numbers laws c n b w same in
      let b' = to_clear n' (extend b (shown chain n o) []) in
      let (o', v', read', e', kept') = get_metric-extend fl service numbers laws c n' b' v kept in
      let last =
        λ (t : F) (s : F × Batch F). return {W = W} (add_difference fl chain m t s.0 s.1) in
      (
        o,
        o',
        v',
        read,
        read',
        bound (get_metric fl service n b)
              (λ t. get_metric fl service n' (to_clear n' t.1) >>= last t.0) w
              (value_or_nought fl o, extend b (shown chain n o) []) v e
            ∙ bound (get_metric fl service n' b') (last (value_or_nought fl o)) v
                (value_or_nought fl o', extend b' (shown chain n' o') []) v' e'
            ∙ ap (λ (b : Batch F). (ok b, v')) (pair-extend fl chain n n' m o o' b),
        kept',
      )

  -- Two numbers that are cleared, and their difference.
  cleared_pair :
      {A : Type 0} (n n' m : Text) (next : F → F → Batch F → Action W A) (b : Batch F) (w : W)
      → numbers w ≡ c
      → (o : Option F) × (o' : Option F) × (v : W) × IsRead service.metrics_cache numbers c n o
        × IsRead service.metrics_cache numbers c n' o'
        × ((get_metric fl service n (to_clear n b) >>= λ t.
                get_metric fl service n' (to_clear n' t.1) >>= λ s.
                next t.0 s.0 (add_difference fl chain m t.0 s.0 s.1))
              w
            ≡ next
                (value_or_nought fl o)
                (value_or_nought fl o')
                (extend b
                  (shown chain n o ++ (shown chain n' o' ++ missing fl chain m o o'))
                  (n ∷ n' ∷ m ∷ []))
                v)
        × (numbers v ≡ c)
  cleared_pair {A} n n' m next b w same =
      let (o, v, read, e, kept) =
        get_metric-extend fl service numbers laws c n (to_clear n b) w same in
      let b₁ = extend (to_clear n b) (shown chain n o) [] in
      let b' = to_clear n' b₁ in
      let (o', v', read', e', kept') = get_metric-extend fl service numbers laws c n' b' v kept in
      let last = λ (t : F) (s : F × Batch F). next t s.0 (add_difference fl chain m t s.0 s.1) in
      (
        o,
        o',
        v',
        read,
        read',
        bound (get_metric fl service n (to_clear n b))
              (λ t. get_metric fl service n' (to_clear n' t.1) >>= last t.0) w
              (value_or_nought fl o, b₁) v e
            ∙ bound (get_metric fl service n' b') (last (value_or_nought fl o)) v
                (value_or_nought fl o', extend b' (shown chain n' o') []) v' e'
            ∙ ap (λ (b : Batch F). next (value_or_nought fl o) (value_or_nought fl o') b v')
                (cleared_pair-extend fl chain n n' m o o' b),
        kept',
      )

  pub collect_executor-extend :
      (b : Batch F) (w : W)
      → numbers w ≡ c
      → (total : Option F) × (performed : Option F) × (v : W) × IsRead service.metrics_cache numbers
          c
          (codes "executor.liquidations.total")
          total
        × IsRead service.metrics_cache numbers c (codes "executor.liquidations.executed") performed
        × (collect_executor fl service b w
            ≡ (ok (extend b (executor_report fl chain total performed) executor_cleared), v))
        × (numbers v ≡ c)
  unfolding collect_executor
  collect_executor-extend b w same =
      cleared_pair (codes "executor.liquidations.total") (codes "executor.liquidations.executed")
        (codes "executor.liquidations.missed") (λ t s b. return b) b w same

  pub collect_health_checker-extend :
      (b : Batch F) (w : W)
      → numbers w ≡ c
      → (total : Option F) × (scanned : Option F) × (unhealthy : Option F) × (v : W) × IsRead
          service.metrics_cache numbers c
          (codes "health_checker.accounts.total")
          total
        × IsRead service.metrics_cache numbers c (codes "health_checker.accounts.scanned") scanned
        × IsRead service.metrics_cache numbers c (codes "health_checker.unhealthy.total") unhealthy
        × (collect_health_checker fl service b w ≡ (
          ok (
              extend b
                (health_checker_report fl chain total scanned unhealthy)
                health_checker_cleared),
          v,
        ))
        × (numbers v ≡ c)
  unfolding collect_health_checker
  collect_health_checker-extend b w same =
      let u = codes "health_checker.unhealthy.total" in
      let h = codes "health_checker.accounts.healthy" in
      let last =
        λ (s : F) (r : F × Batch F). return {W = W} (add_difference fl chain h s r.0 r.1) in
      let (o, o', v, read, read', e, kept) =
        cleared_pair (codes "health_checker.accounts.total")
          (codes "health_checker.accounts.scanned") (codes "health_checker.accounts.missed")
          (λ t s b. get_metric fl service u (to_clear u b) >>= last s) b w same in
      let b₁ =
        extend b
          (shown chain (codes "health_checker.accounts.total") o
            ++ (shown chain (codes "health_checker.accounts.scanned") o'
                ++ missing fl chain (codes "health_checker.accounts.missed") o o'))
          (codes "health_checker.accounts.total"
            ∷ codes "health_checker.accounts.scanned"
            ∷ codes "health_checker.accounts.missed"
            ∷ []) in
      let (o'', v', read'', e', kept') =
        get_metric-extend fl service numbers laws c u (to_clear u b₁) v kept in
      (
        o,
        o',
        o'',
        v',
        read,
        read',
        read'',
        e
            ∙ bound (get_metric fl service u (to_clear u b₁)) (last (value_or_nought fl o')) v
                (value_or_nought fl o'', extend (to_clear u b₁) (shown chain u o'') []) v' e'
            ∙ ap (λ (b : Batch F). (ok b, v'))
                (single-extend fl chain u h o' o'' b₁ ∙ extend_twice b _ _ _ _),
        kept',
      )
