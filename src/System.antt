-- ===== src/System.antt =====
-- Facts about two services together.
pub mod Pipeline
mod Tests
use multichain_liquidator_bo.Base.{
  ℕ, ◌≡◌, ◌≢◌, refl, sym, ap, ◌∙◌, Bool, true, false, some, List, [], ◌∷◌, ◌++◌, arith, Bool-cases,
  inl, inr, All,
}
use multichain_liquidator_bo.Base.Text.{Text, text_eq, text_eq_sound, contains}
use multichain_liquidator_bo.Base.Action.{Result, panic}
use multichain_liquidator_bo.Manager.Pages.{Target, work_item}
use multichain_liquidator_bo.Collector.Keys.{Key, skip, malformed, entry, parse_key}
use multichain_liquidator_bo.Collector.Keys.RoundTrip.{parse_key_wanted}
use multichain_liquidator_bo.Collector.Accounts.{
  Model, Accounts, debts_map, collaterals_map, gather,
}
use multichain_liquidator_bo.Collector.Accounts.Groups.{
  asset_of_key, assets, collateral_of, IsWellFormed, gather_groups,
}

debts_not_collaterals : contains debts_map collaterals_map ≡ false
unfolding contains
debts_not_collaterals = refl

wanted_not_collaterals :
    (name : Text) → contains debts_map name ≡ true → text_eq name collaterals_map ≡ false
wanted_not_collaterals name h = elim (Bool-cases (text_eq name collaterals_map)) [
  | inl same ↦
      let e : contains debts_map collaterals_map ≡ true =
        ap (contains debts_map) (sym (text_eq_sound name collaterals_map same)) ∙ h in
      cc debts_not_collaterals
  | inr other ↦ other
]

no_collateral_of_key :
    (address : Text) (key : Key) (value : Result Text)
    → ((name a d : Text) → key ≡ entry name a d → contains debts_map name ≡ true)
    → asset_of_key collaterals_map address key value ≡ []
no_collateral_of_key address skip value h = refl
no_collateral_of_key address malformed value h = refl
no_collateral_of_key address (entry name a d) value h =
    rw (wanted_not_collaterals name (h name a d refl)) refl

module _ (t : Target) (offset limit : ℕ) (unmarshal : Text → Result Text) where
  no_collateral :
      (address : Text) (ms : List Model)
      → assets (work_item t offset limit) unmarshal collaterals_map address ms ≡ []
  unfolding work_item
  no_collateral address [] = refl
  no_collateral address (m ∷ ms) =
      rw
        (no_collateral_of_key address (parse_key debts_map m.key) (unmarshal m.value)
          (parse_key_wanted debts_map m.key))
        (no_collateral address ms)

  -- The manager asks each collector for the map "debts" alone. For such a work item the collector
  -- passes over every key of the map "collaterals": of each page of well-formed keys every account
  -- is gathered without collateral.
  pub pages_without_collateral :
      (ms : List Model)
      → All (IsWellFormed (work_item t offset limit) unmarshal) ms
      → ((v : Text) → unmarshal v ≢ panic)
      → (after : Accounts) × (gather (work_item t offset limit) unmarshal ms [] ≡ some after)
        × ((address : Text) → collateral_of address after ≡ [])
  pages_without_collateral ms h g =
      let (after, e, groups) = gather_groups (work_item t offset limit) unmarshal ms h g in
      (after, e, λ address. (groups address).1 ∙ no_collateral address ms)
