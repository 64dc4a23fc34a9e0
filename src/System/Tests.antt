-- ===== src/System/Tests.antt =====
-- A page of the map "collaterals", as the manager asks for it.
use multichain_liquidator_bo.Base.{◌≡◌, refl, some, List, [], ◌∷◌, All}
use multichain_liquidator_bo.Base.Text.{Text, codes, contains}
use multichain_liquidator_bo.Base.Action.{ok}
use multichain_liquidator_bo.Manager.Pages.{Target, work_item}
use multichain_liquidator_bo.Collector.Keys.{parse_key, section, skip}
use multichain_liquidator_bo.Collector.Keys.RoundTrip.{build_key}
use multichain_liquidator_bo.Collector.Accounts.{Model, Accounts, gather}
use multichain_liquidator_bo.Collector.Accounts.Groups.{IsWellFormed, collateral_of}
use multichain_liquidator_bo.System.{pages_without_collateral}

abbrev target : Target
target = record {
  rpc_endpoint = [];
  hive_endpoint = [];
  lcd_endpoint = [];
  collector_contract = [];
}

abbrev atom_key : Text
atom_key =
    build_key (codes "collaterals") (codes "osmo1cyyzpxplxdzkeea7kwsydadg87357qnahakaks")
      (codes "uatom")

abbrev page : List Model
page = record { key = atom_key; value = codes "7" } ∷ []

parse_atom_key : parse_key (codes "debts") atom_key ≡ skip
unfolding parse_key section contains
parse_atom_key = refl

page_well : All (IsWellFormed (work_item target 0 10) (λ v. ok v)) page
unfolding work_item
page_well = (λ e. cc parse_atom_key, tt)

pages_without_collateral_example :
    (after : Accounts) × (gather (work_item target 0 10) (λ v. ok v) page [] ≡ some after)
    × ((address : Text) → collateral_of address after ≡ [])
pages_without_collateral_example =
    pages_without_collateral target 0 10 (λ v. ok v) page page_well (λ v e. cc)
