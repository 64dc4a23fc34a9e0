-- ===== src/Collector/Tests.antt =====
-- A page of two keys of one account.
use multichain_liquidator_bo.Base.{
  ◌<◌, ◌≤◌, ◌≡◌, refl, Bool, true, ◌&&◌, none, some, List, [], ◌∷◌, arith, length, All, ltb, leb→le,
  ltb→lt, drop,
}
use multichain_liquidator_bo.Base.Text.{Text, codes, contains}
use multichain_liquidator_bo.Base.Action.{Result, ok}
use multichain_liquidator_bo.Runtime.Types.{WorkItem}
use multichain_liquidator_bo.Collector.Keys.{entry, parse_key}
use multichain_liquidator_bo.Collector.Keys.RoundTrip.{
  build_key, parse_key-build_key, parse_key_inv,
}
use multichain_liquidator_bo.Collector.Accounts.{
  Model, Accounts, debts_map, collaterals_map, gather,
}
use multichain_liquidator_bo.Collector.Accounts.Groups.{
  debts_of, collateral_of, assets, IsWellFormed, gather_groups,
}
use multichain_liquidator_bo.Collector.Accounts.Malformed.{name_cut, gather_malformed}

abbrev account : Text
account = codes "osmo1cyyzpxplxdzkeea7kwsydadg87357qnahakaks"

abbrev osmo_key : Text
osmo_key = build_key debts_map account (codes "uosmo")

contains_debts : contains debts_map debts_map ≡ true
unfolding contains
contains_debts = refl

parse_key-build_key_example : parse_key debts_map osmo_key ≡ entry debts_map account (codes "uosmo")
parse_key-build_key_example =
    parse_key-build_key debts_map debts_map account (codes "uosmo")
      (leb→le 50 (length osmo_key) refl) contains_debts

abbrev all_bytes : Text → Bool
all_bytes [] = true
all_bytes (b ∷ s) = ltb b 256 && all_bytes s

all_bytes_lem : (s : Text) → all_bytes s ≡ true → All (λ b. b < 256) s
all_bytes_lem [] h = tt
all_bytes_lem (b ∷ s) h = ground (arith, all_bytes_lem s)

parse_osmo_key : parse_key debts_map osmo_key ≡ entry debts_map account (codes "uosmo")
parse_osmo_key =
    parse_key-build_key debts_map debts_map account (codes "uosmo")
      (leb→le 50 (length osmo_key) refl) contains_debts

parse_key_inv_example :
    (osmo_key ≡ build_key debts_map account (codes "uosmo"))
    × (50 ≤ length osmo_key)
    × (contains debts_map debts_map ≡ true)
parse_key_inv_example =
    parse_key_inv debts_map osmo_key debts_map account (codes "uosmo") (all_bytes_lem osmo_key refl)
      parse_osmo_key

abbrev item : WorkItem
item = record {
  hive_endpoint = [];
  rpc_endpoint = [];
  lcd_endpoint = [];
  contract_address = [];
  contract_item_prefix = debts_map;
  contract_page_offset = 0;
  contract_page_limit = 10;
}

abbrev amount_of : Text → Result Text
amount_of value = ok value

abbrev page : List Model
page = record { key = osmo_key; value = codes "100" } ∷ []

page_well : All (IsWellFormed item amount_of) page
page_well = (λ e. cc parse_osmo_key, tt)

gather_groups_example :
    (after : Accounts) × (gather item amount_of page [] ≡ some after)
    × ((address : Text)
        → (debts_of address after ≡ assets item amount_of debts_map address page)
          × (collateral_of address after ≡ assets item amount_of collaterals_map address page))
gather_groups_example = gather_groups item amount_of page page_well (λ v e. cc)

-- Sixty bytes of which the first two announce a name of 31,354 bytes.
abbrev bad_key : Text
bad_key = codes "zzzzzzzzzzzzzzzzzzzzzzzzzzzzzzzzzzzzzzzzzzzzzzzzzzzzzzzzzzzz"

gather_malformed_example :
    gather item amount_of
      (record { key = osmo_key; value = codes "100" } ∷ record { key = bad_key; value = [] } ∷ page)
      []
    ≡ none
gather_malformed_example =
    gather_malformed item amount_of page (record { key = bad_key; value = [] }) page []
      (leb→le 50 (length bad_key) refl)
      (name_cut 122 122 (drop 2 bad_key) (ltb→lt (length (drop 2 bad_key)) 31354 refl))
