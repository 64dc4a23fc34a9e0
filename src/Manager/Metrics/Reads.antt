-- ===== src/Manager/Metrics/Reads.antt =====
-- Reading the counts of the scalers and the numbers of the cache into a batch.
use multichain_liquidator_bo.Base.{
  subst, ◌≡◌, ◌≢◌, refl, ap, ◌∙◌, sym, Option, none, some, List, [], ◌∷◌, ◌++◌, All,
}
use multichain_liquidator_bo.Base.Float.{Float}
use multichain_liquidator_bo.Base.Int.{ℤ}
use multichain_liquidator_bo.Base.Text.{Text}
use multichain_liquidator_bo.Base.Action.{Error, Result, ok, err, panic, bound}
use multichain_liquidator_bo.Runtime.Interfaces.{Cacher}
use multichain_liquidator_bo.Runtime.Numbers.{Numbers, Got, CacherLaws}
use multichain_liquidator_bo.Manager.Interfaces.{Scaler}
use multichain_liquidator_bo.Manager.Block.{Manager}
use multichain_liquidator_bo.Manager.Metrics.{
  Metric, Batch, count_name, add_metric, to_clear, counted, collect_counts, got_metric, get_metric,
}
use multichain_liquidator_bo.Manager.Metrics.Batches.{
  extend, extend_nothing, extend_twice, to_clear-extend, entry, shown, value_or_nought,
  add_metric-extend,
}

-- What was read under `k` from a cache that holds the numbers `c`: the number itself, and none only
-- where a read of `k` failed while the cache held `c`.
abbrev pub IsRead :
    {W F : Type 0} → Cacher W F → (W → Numbers F) → Numbers F → Text → Option F → Type 0
IsRead {W} cache numbers c k none =
    (w : W) × (e : Error) × (numbers w ≡ c) × ((cache.get_float64 k w).0 ≡ err e)
IsRead cache numbers c k (some x) = x ≡ c k

abbrev answer_of : Result ℤ → Option ℤ
answer_of (ok n) = some n
answer_of _ = none

module _ {W F : Type 0} (numbers : W → Numbers F) where
  -- The count that a scaler answered at some moment, if it did not fail.
  abbrev pub Answers : List (Text × Scaler W) → List (Option ℤ) → Type 0
  Answers [] [] = Unit
  Answers ((name, scaler) ∷ scalers) (o ∷ os) =
      ((w : W) × (answer_of (scaler.count w).0 ≡ o)) × Answers scalers os
  Answers _ _ = ⊥

  -- A count does not panic and leaves the cache as it is.
  abbrev pub CountsOnly : Text × Scaler W → Type 0
  CountsOnly (name, scaler) =
      (w : W) → ((scaler.count w).0 ≢ panic) × (numbers (scaler.count w).1 ≡ numbers w)

-- The metric that shows a count.
abbrev pub shown_count : {F : Type 0} → Float F → Text → Text → Option ℤ → List (Metric F)
shown_count fl chain name none = []
shown_count fl chain name (some n) = entry chain (count_name name) (fl.of_int n) ∷ []

abbrev pub count_names : {W : Type 0} → List (Text × Scaler W) → List Text
count_names [] = []
count_names ((name, scaler) ∷ scalers) = count_name name ∷ count_names scalers

module _ {W F : Type 0} (fl : Float F) (chain : Text) where
  abbrev pub shown_counts : List (Text × Scaler W) → List (Option ℤ) → List (Metric F)
  shown_counts ((name, scaler) ∷ scalers) (o ∷ os) =
      shown_count fl chain name o ++ shown_counts scalers os
  shown_counts _ _ = []

  counted-extend :
      (name : Text) (b : Batch F) (r : Result ℤ × W)
      → r.0 ≢ panic
      → counted fl chain (count_name name) (to_clear (count_name name) b) r
        ≡ (ok (extend b (shown_count fl chain name (answer_of r.0)) (count_name name ∷ [])), r.1)
  unfolding counted add_metric to_clear
  counted-extend name b (ok n, w) p = refl
  counted-extend name b (err e, w) p =
      ap (λ (b' : Batch F). (ok b', w)) (unfold to_clear in to_clear-extend (count_name name) b)
  counted-extend name b (panic, w) p = absurd (p refl)

  -- Each scaler adds its count, if it gives one, and the name of its metric to be cleared.
  pub collect_counts-extend :
      (numbers : W → Numbers F) (scalers : List (Text × Scaler W)) (b : Batch F) (w : W)
      → All (CountsOnly numbers) scalers
      → (os : List (Option ℤ)) × (v : W) × Answers numbers scalers os
        × (collect_counts fl chain scalers b w
            ≡ (ok (extend b (shown_counts scalers os) (count_names scalers)), v))
        × (numbers v ≡ numbers w)
  unfolding collect_counts
  collect_counts-extend numbers [] b w h =
      ([], w, tt, ap (λ (b' : Batch F). (ok b', w)) (sym (extend_nothing b)), refl)
  collect_counts-extend numbers ((name, scaler) ∷ scalers) b w (h, hs) =
      let o = answer_of (scaler.count w).0 in
      let u = (scaler.count w).1 in
      let b' = extend b (shown_count fl chain name o) (count_name name ∷ []) in
      let (os, v, answers, e, kept) = collect_counts-extend numbers scalers b' u hs in
      (
        o ∷ os,
        v,
        ((w, refl), answers),
        bound
              (λ (w : W).
                counted fl chain (count_name name) (to_clear (count_name name) b) (scaler.count w))
              (collect_counts fl chain scalers) w b' u
              (counted-extend name b (scaler.count w) (h w).0)
            ∙ e
            ∙ ap (λ (b : Batch F). (ok b, v))
                (extend_twice b (shown_count fl chain name o) (shown_counts scalers os)
                  (count_name name ∷ []) (count_names scalers)),
        kept ∙ (h w).1,
      )

module _ {W F : Type 0} (fl : Float F) (service : Manager W F) (numbers : W → Numbers F)
    (laws : CacherLaws service.metrics_cache fl.nought numbers) where
  got_metric-extend :
      (name : Text) (b : Batch F) (c : Numbers F) (r : Result F × W)
      → Got c name r.0 (numbers r.1)
      → ((e : Error) → r.0 ≡ err e → IsRead service.metrics_cache numbers c name none)
      → (o : Option F) × IsRead service.metrics_cache numbers c name o
        × (got_metric fl service.chain_id name b r
            ≡ (ok (value_or_nought fl o, extend b (shown service.chain_id name o) []), r.1))
        × (numbers r.1 ≡ c)
  unfolding got_metric
  got_metric-extend name b c (ok x, w) (read, kept) failing = (
    some x,
    read,
    ap (λ (b' : Batch F). (ok (x, b'), w)) (add_metric-extend service.chain_id name x b),
    kept,
  )
  got_metric-extend name b c (err e, w) kept failing = (
    none,
    failing e refl,
    ap (λ (b' : Batch F). (ok (fl.nought, b'), w)) (sym (extend_nothing b)),
    kept,
  )
  got_metric-extend name b c (panic, w) h failing = absurd h

  -- A number of a cache that holds `c`, and the metric that shows it if it could be read.
  pub get_metric-extend :
      (c : Numbers F) (name : Text) (b : Batch F) (w : W)
      → numbers w ≡ c
      → (o : Option F) × (v : W) × IsRead service.metrics_cache numbers c name o
        × (get_metric fl service name b w
            ≡ (ok (value_or_nought fl o, extend b (shown service.chain_id name o) []), v))
        × (numbers v ≡ c)
  unfolding get_metric
  get_metric-extend c name b w same =
      let r = service.metrics_cache.get_float64 name w in
      let (o, read, e, kept) =
        got_metric-extend name b c r
          (subst (λ (c : Numbers F). Got c name r.0 (numbers r.1)) same (laws.gets name w))
          (λ e failed. (w, e, same, failed)) in
      (o, r.1, read, e, kept)
