-- ===== src/Manager/Metrics/Batches.antt =====
-- What a group of metrics adds to a batch.
use multichain_liquidator_bo.Base.{
  ◌≡◌, refl, ap₂, sym, Option, none, some, List, [], ◌∷◌, ◌++◌, append-nil, append_assoc,
}
use multichain_liquidator_bo.Base.Float.{Float, at_least_nought}
use multichain_liquidator_bo.Base.Text.{Text}
use multichain_liquidator_bo.Manager.Metrics.{Metric, Batch, add_metric, to_clear, add_difference}

module _ {F : Type 0} where
  abbrev batch : List (Metric F) → List Text → Batch F
  batch ms names = record { metrics = ms; metrics_to_clear = names }

  abbrev pub extend : Batch F → List (Metric F) → List Text → Batch F
  extend b ms names = batch (b.metrics ++ ms) (b.metrics_to_clear ++ names)

  pub extend_nothing : (b : Batch F) → extend b [] [] ≡ b
  extend_nothing b = ap₂ batch (append-nil b.metrics) (append-nil b.metrics_to_clear)

  pub extend_twice :
      (b : Batch F) (ms ms' : List (Metric F)) (names names' : List Text)
      → extend (extend b ms names) ms' names' ≡ extend b (ms ++ ms') (names ++ names')
  extend_twice b ms ms' names names' =
      ap₂ batch (append_assoc b.metrics ms ms') (append_assoc b.metrics_to_clear names names')

  pub to_clear-extend : (name : Text) (b : Batch F) → to_clear name b ≡ extend b [] (name ∷ [])
  unfolding to_clear
  to_clear-extend name b = ap₂ batch (sym (append-nil b.metrics)) refl

module _ {F : Type 0} (chain : Text) where
  abbrev pub entry : Text → F → Metric F
  entry name x = record { name = name; value = x; chain = chain }

  -- What a number of the cache adds, if it could be read.
  abbrev pub shown : Text → Option F → List (Metric F)
  shown name none = []
  shown name (some x) = entry name x ∷ []

  pub add_metric-extend :
      (name : Text) (x : F) (b : Batch F)
      → add_metric chain name x b ≡ extend b (entry name x ∷ []) []
  unfolding add_metric
  add_metric-extend name x b = ap₂ batch refl (sym (append-nil b.metrics_to_clear))

-- What a number counts as.
abbrev pub value_or_nought : {F : Type 0} → Float F → Option F → F
value_or_nought fl none = fl.nought
value_or_nought fl (some x) = x

module _ {F : Type 0} (fl : Float F) (chain : Text) where
  -- What is missing, at least 0.
  abbrev pub missing : Text → Option F → Option F → List (Metric F)
  missing name total x =
      entry chain name
        (at_least_nought fl (fl.minus (value_or_nought fl total) (value_or_nought fl x)))
      ∷ []

  -- A number that is not cleared and one that is, with their difference.
  pub pair-extend :
      (total_name name missing_name : Text) (total x : Option F) (b : Batch F)
      → add_difference fl chain missing_name (value_or_nought fl total) (value_or_nought fl x) (
          extend
            (to_clear name (extend b (shown chain total_name total) []))
            (shown chain name x)
            [])
        ≡ extend b
            (shown chain total_name total ++ (shown chain name x ++ missing missing_name total x))
            (name ∷ missing_name ∷ [])
  unfolding add_difference add_metric to_clear
  pair-extend total_name name missing_name total x b =
      ap₂ batch (simp append_assoc) (simp (append_assoc, append-nil))

  -- Two numbers that are cleared, with their difference.
  pub cleared_pair-extend :
      (total_name name missing_name : Text) (total x : Option F) (b : Batch F)
      → add_difference fl chain missing_name (value_or_nought fl total) (value_or_nought fl x) (
          extend
            (to_clear name (extend (to_clear total_name b) (shown chain total_name total) []))
            (shown chain name x)
            [])
        ≡ extend b
            (shown chain total_name total ++ (shown chain name x ++ missing missing_name total x))
            (total_name ∷ name ∷ missing_name ∷ [])
  unfolding add_difference add_metric to_clear
  cleared_pair-extend total_name name missing_name total x b =
      ap₂ batch (simp append_assoc) (simp (append_assoc, append-nil))

  -- A number that is cleared, with what it leaves of another.
  pub single-extend :
      (name missing_name : Text) (total x : Option F) (b : Batch F)
      → add_difference fl chain missing_name
          (value_or_nought fl total)
          (value_or_nought fl x)
          (extend (to_clear name b) (shown chain name x) [])
        ≡ extend b (shown chain name x ++ missing missing_name total x) (name ∷ missing_name ∷ [])
  unfolding add_difference add_metric to_clear
  single-extend name missing_name total x b =
      ap₂ batch (simp append_assoc) (simp (append_assoc, append-nil))
