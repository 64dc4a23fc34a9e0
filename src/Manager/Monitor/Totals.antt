-- ===== src/Manager/Monitor/Totals.antt =====
-- The total that the monitor stores, and the metrics.
use multichain_liquidator_bo.Base.{
  ℕ, ◌≡◌, refl, ap, ◌∙◌, sym, subst, false, List, [], ◌∷◌, All, inl, inr,
}
use multichain_liquidator_bo.Base.Int.{ℤ, pos}
use multichain_liquidator_bo.Base.Float.{Float}
use multichain_liquidator_bo.Base.Text.{Text, codes, text_eq, text_eq_refl}
use multichain_liquidator_bo.Base.Action.{
  bound_inv, Result, ok, Action, ◌>>=◌, return, ignored, ok-ne-panic, bound_inv,
}
use multichain_liquidator_bo.Runtime.Numbers.{Numbers, Set, CacherLaws}
use multichain_liquidator_bo.Manager.Interfaces.{Scaler}
use multichain_liquidator_bo.Manager.Block.{Manager}
use multichain_liquidator_bo.Manager.Metrics.{collect_metrics}
use multichain_liquidator_bo.Manager.Metrics.Reads.{CountsOnly}
use multichain_liquidator_bo.Manager.Metrics.Reports.{cleared, is_in}
use multichain_liquidator_bo.Manager.Metrics.Clears.{collect_metrics-IsLeft}
use multichain_liquidator_bo.Manager.Monitor.{StateQuery, total_name, store_total, fetch_total}

-- No scaler's metric and no cleared one has the name of the total.
total_not_cleared :
    {W : Type 0} (scalers : List (Text × Scaler W)) → is_in total_name (cleared scalers) ≡ false
unfolding text_eq
total_not_cleared [] = refl
total_not_cleared ((name, scaler) ∷ scalers) = total_not_cleared scalers

module _ {W F : Type 0} (fl : Float F) (service : Manager W F) (numbers : W → Numbers F)
    (laws : CacherLaws service.metrics_cache fl.nought numbers)
    (counts_only : All (CountsOnly numbers) service.scalers) where
  -- However the scalers are named and whichever deletions fail, collecting the metrics leaves the
  -- total of contract items in the cache.
  pub total_survives :
      (height : ℤ) (w : W)
      → numbers (collect_metrics fl service height w).1 total_name ≡ numbers w total_name
  total_survives height w =
      elim (collect_metrics-IsLeft fl service numbers laws counts_only height w total_name) [
        | inl kept ↦ kept
        | inr (listed, nought) ↦
            absurd (let e = total_not_cleared service.scalers in let c : ⊥ = cc in c)
      ]

  -- The cache behind a collection of the metrics of each height.
  abbrev pub collect_each : List ℤ → W → W
  collect_each [] w = w
  collect_each (height ∷ heights) w = collect_each heights (collect_metrics fl service height w).1

  collect_each-total_name :
      (heights : List ℤ) (w : W)
      → numbers (collect_each heights w) total_name ≡ numbers w total_name
  collect_each-total_name [] w = refl
  collect_each-total_name (height ∷ heights) w =
      collect_each-total_name heights (collect_metrics fl service height w).1
      ∙ total_survives height w

  module _ {C : Type 0} (remote : StateQuery W C)
      (sets : (k : Text) (x : F) (w : W) → (service.metrics_cache.set k x w).0 ≡ ok tt) where
    stored :
        (n : ℕ) (w : W)
        → numbers (service.metrics_cache.set total_name (fl.of_int (pos n)) w).1 total_name
          ≡ fl.of_int (pos n)
    stored n w =
        let x = fl.of_int (pos n) in
        let r = service.metrics_cache.set total_name x w in
        ap (λ (c : Numbers F). c total_name)
          (subst (λ (q : Result (Unit {0})). Set (numbers w) total_name x q (numbers r.1))
            (sets total_name x w) (laws.sets total_name x w))
        ∙ rw (text_eq_refl total_name) refl

    store_total_stores :
        (total n : ℕ) (w v : W)
        → store_total fl remote service total w ≡ (ok n, v)
        → numbers v total_name ≡ fl.of_int (pos n)
    unfolding store_total
    store_total_stores total n w v h =
        let set = service.metrics_cache.set total_name (fl.of_int (pos total)) in
        let done = sym (ignored set (return total) w (ok-ne-panic (set w).0 tt (sets _ _ w))) ∙ h in
        subst (λ (n : ℕ). numbers v total_name ≡ fl.of_int (pos n)) (value_of done)
          (ap (λ (r : Result ℕ × W). numbers r.1 total_name) (sym done) ∙ stored total w)
      where
        value_of : {a b : ℕ} {x y : W} → ◌≡◌ {A = Result ℕ × W} (ok a, x) (ok b, y) → a ≡ b
        value_of e = cc

    fetch_total_stores :
        (n : ℕ) (w v : W)
        → fetch_total fl remote service w ≡ (ok n, v)
        → numbers v total_name ≡ fl.of_int (pos n)
    unfolding fetch_total
    fetch_total_stores n w v h =
        let read : Text → Action W ℕ = λ response w. (remote.unmarshal_total response, w) in
        let query = λ (client : C) (request : Text).
          remote.abci_query client (codes "/cosmwasm.wasm.v1.Query/AllContractState") request in
        let encode : Action W Text =
          λ w. (remote.marshal_count_request service.target.collector_contract, w) in
        let store = store_total fl remote service in
        let (client, w₁, _, h₁) =
          bound_inv (remote.new_rpc_client service.target.rpc_endpoint)
            (λ c. encode >>= λ r. query c r >>= λ a. read a >>= store) w n v h in
        let (request, w₂, _, h₂) =
          bound_inv encode (λ r. query client r >>= λ a. read a >>= store) w₁ n v h₁ in
        let (response, w₃, _, h₃) =
          bound_inv (query client request) (λ a. read a >>= store) w₂ n v h₂ in
        let (total, w₄, _, h₄) = bound_inv (read response) store w₃ n v h₃ in
        store_total_stores total n w₄ v h₄

    -- Where the cache keeps its contract and takes what it is given, and the scalers' counts do not
    -- panic and leave it as it is, a round of the monitor that ends without an error stores the total
    -- that it also hands to the loop over the pages, and however many blocks follow, with whatever
    -- deletions failing, the metrics find that total in the cache.
    pub fetched_total_stays :
        (n : ℕ) (heights : List ℤ) (w v : W)
        → fetch_total fl remote service w ≡ (ok n, v)
        → numbers (collect_each heights v) total_name ≡ fl.of_int (pos n)
    fetched_total_stays n heights w v h =
        collect_each-total_name heights v ∙ fetch_total_stores n w v h
