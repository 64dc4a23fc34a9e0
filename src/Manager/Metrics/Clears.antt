-- ===== src/Manager/Metrics/Clears.antt =====
-- What collecting the metrics leaves in the cache.
use multichain_liquidator_bo.Base.{
  Bool-cases, arith, subst, ◌≡◌, refl, ap, ◌∙◌, sym, List, [], ◌∷◌, All, ◌⊎◌, inl, inr, Bool, true,
  ◌||◌, if◌then◌else◌,
}
use multichain_liquidator_bo.Base.Float.{Float}
use multichain_liquidator_bo.Base.Int.{ℤ}
use multichain_liquidator_bo.Base.Text.{Text, text_eq}
use multichain_liquidator_bo.Base.Action.{Result, ok, err, panic, ignored}
use multichain_liquidator_bo.Runtime.Numbers.{Numbers, Set, CacherLaws, put}
use multichain_liquidator_bo.Manager.Block.{Manager}
use multichain_liquidator_bo.Manager.Metrics.{Metric, clear_metrics, collect_metrics}
use multichain_liquidator_bo.Manager.Metrics.Reads.{CountsOnly}
use multichain_liquidator_bo.Manager.Metrics.Reports.{cleared, is_in, no_panic, collected}

module _ {W F : Type 0} (fl : Float F) (service : Manager W F) (numbers : W → Numbers F)
    (laws : CacherLaws service.metrics_cache fl.nought numbers) where
  -- What a key may hold once `names` are cleared.
  abbrev pub IsLeft : List Text → Numbers F → Text → F → Type 0
  IsLeft names c k x = (x ≡ c k) ⊎ ((is_in k names ≡ true) × (x ≡ fl.nought))

  put-IsLeft :
      (name : Text) (c c' : Numbers F) (k : Text)
      → c' ≡ put c name fl.nought
      → (c' k ≡ c k) ⊎ ((text_eq name k ≡ true) × (c' k ≡ fl.nought))
  put-IsLeft name c c' k h = elim (Bool-cases (text_eq name k)) [
    | inl e ↦ inr (e, ap (λ (c : Numbers F). c k) h ∙ rw e refl)
    | inr e ↦ inl (ap (λ (c : Numbers F). c k) h ∙ rw e refl)
  ]

  Set-IsLeft :
      {A : Type 0} (name : Text) (c c' : Numbers F) (k : Text) (r : Result A)
      → Set c name fl.nought r c'
      → (c' k ≡ c k) ⊎ ((text_eq name k ≡ true) × (c' k ≡ fl.nought))
  Set-IsLeft name c c' k (ok a) h = put-IsLeft name c c' k h
  Set-IsLeft name c c' k (err x) (inl h) = inl (ap (λ (c : Numbers F). c k) h)
  Set-IsLeft name c c' k (err x) (inr h) = put-IsLeft name c c' k h
  Set-IsLeft name c c' k panic h = absurd h

  clear_metrics-IsLeft :
      (names : List Text) (w : W) (k : Text)
      → IsLeft names (numbers w) k (numbers (clear_metrics fl service names w).1 k)
  unfolding clear_metrics
  clear_metrics-IsLeft [] w k = inl refl
  clear_metrics-IsLeft (name ∷ names) w k =
      let r = service.metrics_cache.delete name w in
      let e =
        ignored (service.metrics_cache.delete name) (clear_metrics fl service names) w
          (no_panic fl service numbers laws name w) in
      subst (λ (r : Result (Unit {0}) × W). IsLeft (name ∷ names) (numbers w) k (numbers r.1 k))
        (sym e)
        (join (Set-IsLeft name (numbers w) (numbers r.1) k r.0 (laws.deletes name w))
          (clear_metrics-IsLeft names r.1 k))
    where
      join :
          {a b x : F} {p q : Bool}
          → (b ≡ a) ⊎ ((p ≡ true) × (b ≡ fl.nought))
          → (x ≡ b) ⊎ ((q ≡ true) × (x ≡ fl.nought))
          → (x ≡ a) ⊎ ((p || q ≡ true) × (x ≡ fl.nought))
      join {p = p} {q = q} f (inr (e, h)) = inr (ground arith, h)
      join (inl f) (inl h) = inl (h ∙ f)
      join {p = p} {q = q} (inr (e, f)) (inl h) = inr (ground arith, h ∙ f)

  clear_metrics-is_in :
      ((k : Text) (w : W) → (service.metrics_cache.delete k w).0 ≡ ok tt)
      → (names : List Text) (w : W) (k : Text)
      → numbers (clear_metrics fl service names w).1 k
        ≡ (if is_in k names then fl.nought else numbers w k)
  unfolding clear_metrics
  clear_metrics-is_in deletes [] w k = refl
  clear_metrics-is_in deletes (name ∷ names) w k =
      let r = service.metrics_cache.delete name w in
      let e =
        ignored (service.metrics_cache.delete name) (clear_metrics fl service names) w
          (no_panic fl service numbers laws name w) in
      let set : numbers r.1 ≡ put (numbers w) name fl.nought =
        subst (λ (x : Result (Unit {0})). Set (numbers w) name fl.nought x (numbers r.1))
          (deletes name w) (laws.deletes name w) in
      ap (λ (r : Result (Unit {0}) × W). numbers r.1 k) e
      ∙ clear_metrics-is_in deletes names r.1 k
      ∙ ap (λ (c : Numbers F). if is_in k names then fl.nought else c k) set
      ∙ cases (text_eq name k) (is_in k names) (numbers w k)
    where
      cases :
          (p q : Bool) (x : F)
          → (if q then fl.nought else (if p then fl.nought else x))
            ≡ (if p || q then fl.nought else x)
      cases p q x = ground arith

  module _ (counts_only : All (CountsOnly numbers) service.scalers) where
    -- Where the cache keeps its contract, the deletions succeed and the scalers' counts do not panic
    -- and leave the cache as it is, collecting the metrics sets the numbers of the scalers and of the
    -- ten metrics other than the height and the total of contract items to 0, and leaves every other
    -- number of the cache as it was.
    pub collect_metrics_clears :
        ((k : Text) (w : W) → (service.metrics_cache.delete k w).0 ≡ ok tt)
        → (height : ℤ) (w : W) (k : Text)
        → numbers (collect_metrics fl service height w).1 k
          ≡ (if is_in k (cleared service.scalers) then fl.nought else numbers w k)
    collect_metrics_clears deletes height w k =
        let (os, r, v, answers, read, kept, e) =
          collected fl service numbers laws counts_only height w in
        ap (λ (x : Result (List (Metric F)) × W). numbers x.1 k) e
        ∙ clear_metrics-is_in deletes (cleared service.scalers) v k
        ∙ ap (λ (c : Numbers F). if is_in k (cleared service.scalers) then fl.nought else c k) kept

    -- Whichever deletions fail, each number of the cache is kept or is one of those that are cleared
    -- and is 0.
    pub collect_metrics-IsLeft :
        (height : ℤ) (w : W) (k : Text)
        → IsLeft
            (cleared service.scalers)
            (numbers w)
            k
            (numbers (collect_metrics fl service height w).1 k)
    collect_metrics-IsLeft height w k =
        let (os, r, v, answers, read, kept, e) =
          collected fl service numbers laws counts_only height w in
        subst
          (λ (c : Numbers F).
            IsLeft (cleared service.scalers) c k
              (numbers (collect_metrics fl service height w).1 k))
          kept
          (subst
            (λ (x : Result (List (Metric F)) × W).
              IsLeft (cleared service.scalers) (numbers v) k (numbers x.1 k))
            (sym e) (clear_metrics-IsLeft (cleared service.scalers) v k))
