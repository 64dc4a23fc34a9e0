-- ===== src/Collector/Accounts.antt =====
-- collector/src/collector/collector.go: the loop of `fetchContractItems` that gathers the debts and
-- the collateral of each account.
pub mod Groups
pub mod Malformed
use multichain_liquidator_bo.Base.{ℕ, Bool, Option, none, some, List, [], ◌∷◌, ◌++◌, if◌then◌else◌}
use multichain_liquidator_bo.Base.Text.{Text, codes, text_eq}
use multichain_liquidator_bo.Base.Action.{Result, ok, err, panic}
use multichain_liquidator_bo.Runtime.Types.{WorkItem, Asset, HealthCheckWorkItem}
use multichain_liquidator_bo.Collector.Keys.{Key, skip, malformed, entry, parse_key}

-- A key and its value in the contract's storage.
pub record Model : Type 0 where
  pub key : Text
  pub value : Text

-- The map `accounts`, from addresses. A Go map has no order: that of a range over it is a parameter
-- of what uses it.
abbrev pub Accounts : Type 0
Accounts = List (Text × HealthCheckWorkItem)

abbrev pub debts_map : Text
debts_map = codes "debts"

abbrev pub collaterals_map : Text
collaterals_map = codes "collaterals"

-- The account as it is first put into the map.
pub new_account : WorkItem → Text → HealthCheckWorkItem
new_account item address = record {
  address = address;
  debts = [];
  collateral = [];
  endpoints = record {
    hive = item.hive_endpoint;
    lcd = item.lcd_endpoint;
    rpc = item.rpc_endpoint;
  };
}

append_debt : Text → Asset → HealthCheckWorkItem → HealthCheckWorkItem
append_debt name asset h =
    if text_eq name debts_map then record h { debts = h.debts ++ asset ∷ [] } else h

append_collateral : Text → Asset → HealthCheckWorkItem → HealthCheckWorkItem
append_collateral name asset h =
    if text_eq name collaterals_map then record h { collateral = h.collateral ++ asset ∷ [] } else h

append_asset : Text → Asset → HealthCheckWorkItem → HealthCheckWorkItem
unfolding append_debt append_collateral
append_asset name asset h = append_collateral name asset (append_debt name asset h)

-- `accounts[address]` is made where it is missing, changed and put back.
pub track : WorkItem → Text → Text → Asset → Accounts → Accounts
unfolding new_account append_asset
track item name address asset [] =
    (address, append_asset name asset (new_account item address)) ∷ []
track item name address asset ((a, h) ∷ accounts) =
    let rest = track item name address asset accounts in
    if text_eq address a then (a, append_asset name asset h) ∷ accounts else (a, h) ∷ rest

-- A value whose JSON cannot be read is logged and passed over.
track_value : WorkItem → Text → Text → Text → Result Text → Accounts → Option Accounts
unfolding track
track_value item name address denom (ok amount) accounts =
    some (track item name address (record { token = denom; amount = amount }) accounts)
track_value item name address denom (err e) accounts = some accounts
track_value item name address denom panic accounts = none

-- The JSON decoding of a value (encoding/json) to its field `amount_scaled`.
module _ (item : WorkItem) (unmarshal : Text → Result Text) where
  track_key : Key → Text → Accounts → Option Accounts
  unfolding track_value
  track_key skip value accounts = some accounts
  track_key malformed value accounts = none
  track_key (entry name address denom) value accounts =
      track_value item name address denom (unmarshal value) accounts

  -- The loop over the models of the page; `none` is a panic, which ends the service.
  unfoldable pub gather : List Model → Accounts → Option Accounts
  unfolding track_key
  gather [] accounts = some accounts
  gather (m ∷ ms) accounts =
      elim (track_key (parse_key item.contract_item_prefix m.key) m.value accounts) [
        | none ↦ none
        | some accounts' ↦ gather ms accounts'
      ]
