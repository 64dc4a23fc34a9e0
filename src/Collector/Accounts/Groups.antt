-- ===== src/Collector/Accounts/Groups.antt =====
-- What the collector gathers for each account.
use multichain_liquidator_bo.Base.{
  ◌≡◌, ◌≢◌, refl, sym, ap, ◌∙◌, some, List, [], ◌∷◌, ◌++◌, append-nil, append_assoc, arith, All,
  if◌then◌else◌,
}
use multichain_liquidator_bo.Base.Text.{Text, text_eq, text_eq_iff}
use multichain_liquidator_bo.Base.Action.{Error, Result, ok, err, panic}
use multichain_liquidator_bo.Runtime.Types.{WorkItem, Asset}
use multichain_liquidator_bo.Collector.Keys.{Key, skip, malformed, entry, parse_key}
use multichain_liquidator_bo.Collector.Accounts.{
  Model, Accounts, debts_map, collaterals_map, track, track_value, track_key, gather,
}

-- What an account holds under an address: its debts and its collateral, empty where it is missing.
abbrev pub debts_of : Text → Accounts → List Asset
debts_of address [] = []
debts_of address ((a, h) ∷ accounts) =
    let rest = debts_of address accounts in if text_eq address a then h.debts else rest

abbrev pub collateral_of : Text → Accounts → List Asset
collateral_of address [] = []
collateral_of address ((a, h) ∷ accounts) =
    let rest = collateral_of address accounts in if text_eq address a then h.collateral else rest

-- The assets of the keys of one map and one address.
abbrev pub asset_of_value : Text → Result Text → List Asset
asset_of_value denom (ok amount) = record { token = denom; amount = amount } ∷ []
asset_of_value denom (err e) = []
asset_of_value denom panic = []

abbrev pub asset_of_entry : Text → Text → Text → Text → Text → Result Text → List Asset
asset_of_entry wanted name address a denom value =
    if text_eq name wanted
    then (if text_eq address a then asset_of_value denom value else [])
    else []

abbrev pub asset_of_key : Text → Text → Key → Result Text → List Asset
asset_of_key wanted address skip value = []
asset_of_key wanted address malformed value = []
asset_of_key wanted address (entry name a denom) value =
    asset_of_entry wanted name address a denom value

no_asset :
    (wanted name address a denom : Text) (e : Error)
    → asset_of_entry wanted name address a denom (err e) ≡ []
no_asset wanted name address a denom e = ground arith

track-debts :
    (item : WorkItem) (name address a : Text) (asset : Asset) (accounts : Accounts)
    → debts_of address (track item name a asset accounts)
      ≡ debts_of address accounts
        ++ (if text_eq name debts_map then (if text_eq address a then asset ∷ [] else []) else [])
unfolding track
track-debts item name address a asset [] = ground arith
track-debts item name address a asset ((b, h) ∷ accounts) = ground (
  arith,
  text_eq_iff a b,
  text_eq_iff address b,
  text_eq_iff address a,
  append-nil h.debts,
  append-nil (debts_of address accounts),
  track-debts item name address a asset accounts,
)

track-collateral :
    (item : WorkItem) (name address a : Text) (asset : Asset) (accounts : Accounts)
    → collateral_of address (track item name a asset accounts)
      ≡ collateral_of address accounts
        ++ (if text_eq name collaterals_map
            then (if text_eq address a then asset ∷ [] else [])
            else [])
unfolding track
track-collateral item name address a asset [] = ground arith
track-collateral item name address a asset ((b, h) ∷ accounts) = ground (
  arith,
  text_eq_iff a b,
  text_eq_iff address b,
  text_eq_iff address a,
  append-nil h.collateral,
  append-nil (collateral_of address accounts),
  track-collateral item name address a asset accounts,
)

module _ (item : WorkItem) (unmarshal : Text → Result Text) where
  -- The assets of one map and one address, in the order of the models.
  abbrev pub assets : Text → Text → List Model → List Asset
  assets wanted address [] = []
  assets wanted address (m ∷ ms) =
      asset_of_key wanted address (parse_key item.contract_item_prefix m.key) (unmarshal m.value)
      ++ assets wanted address ms

  -- What one model adds to the accounts.
  abbrev Adds : Key → Text → Accounts → Accounts → Type 0
  Adds key value before after =
      (address : Text)
      → (debts_of address after
          ≡ debts_of address before ++ asset_of_key debts_map address key (unmarshal value))
        × (collateral_of address after
            ≡ collateral_of address before
              ++ asset_of_key collaterals_map address key (unmarshal value))

  nothing-Adds :
      (before : Accounts) (address : Text)
      → (debts_of address before ≡ debts_of address before ++ [])
        × (collateral_of address before ≡ collateral_of address before ++ [])
  nothing-Adds before address =
      (sym (append-nil (debts_of address before)), sym (append-nil (collateral_of address before)))

  track_key-Adds :
      (key : Key) (value : Text) (before : Accounts)
      → key ≢ malformed
      → unmarshal value ≢ panic
      → (after : Accounts) × (track_key item unmarshal key value before ≡ some after)
        × Adds key value before after
  unfolding track_key
  track_key-Adds skip value before h g = (before, refl, nothing-Adds before)
  track_key-Adds malformed value before h g = absurd (h refl)
  track_key-Adds (entry name a denom) value before h g = go (unmarshal value) g
    where
      go :
          (r : Result Text)
          → r ≢ panic
          → (after : Accounts) × (track_value item name a denom r before ≡ some after)
            × ((address : Text)
                → (debts_of address after
                    ≡ debts_of address before ++ asset_of_entry debts_map name address a denom r)
                  × (collateral_of address after
                      ≡ collateral_of address before
                        ++ asset_of_entry collaterals_map name address a denom r))
      go (ok amount) p =
          let asset : Asset = record { token = denom; amount = amount } in
          (
            track item name a asset before,
            refl,
            λ address. (
              track-debts item name address a asset before,
              track-collateral item name address a asset before,
            ),
          )
      go (err e) p = (
        before,
        refl,
        λ address. (
          sym (append-nil (debts_of address before))
              ∙ ap (debts_of address before ++◌) (sym (no_asset debts_map name address a denom e)),
          sym (append-nil (collateral_of address before))
              ∙ ap (collateral_of address before ++◌)
                  (sym (no_asset collaterals_map name address a denom e)),
        ),
      )
      go panic p = absurd (p refl)

  -- No key panics the loop.
  abbrev pub IsWellFormed : Model → Type 0
  IsWellFormed m = parse_key item.contract_item_prefix m.key ≢ malformed

  abbrev Gathers : List Model → Accounts → Accounts → Type 0
  Gathers ms before after =
      (address : Text)
      → (debts_of address after ≡ debts_of address before ++ assets debts_map address ms)
        × (collateral_of address after
            ≡ collateral_of address before ++ assets collaterals_map address ms)

  gather_step :
      (m : Model) (ms : List Model) (before middle : Accounts)
      → track_key item unmarshal (parse_key item.contract_item_prefix m.key) m.value before
        ≡ some middle
      → gather item unmarshal (m ∷ ms) before ≡ gather item unmarshal ms middle
  unfolding gather
  gather_step m ms before middle e = rw (e, gather) refl

  gather-Gathers :
      (ms : List Model) (before : Accounts)
      → All IsWellFormed ms
      → ((v : Text) → unmarshal v ≢ panic)
      → (after : Accounts) × (gather item unmarshal ms before ≡ some after)
        × Gathers ms before after
  gather-Gathers [] before h g =
      (before, unfold gather in refl, λ address. nothing-Adds before address)
  gather-Gathers (m ∷ ms) before h g =
      let key = parse_key item.contract_item_prefix m.key in
      let (middle, e, adds) = track_key-Adds key m.value before h.0 (g m.value) in
      let (after, f, rest) = gather-Gathers ms middle h.1 g in
      (
        after,
        gather_step m ms before middle e ∙ f,
        λ address. (
          (rest address).0
              ∙ ap (◌++ assets debts_map address ms) (adds address).0
              ∙ append_assoc (debts_of address before)
                  (asset_of_key debts_map address key (unmarshal m.value))
                  (assets debts_map address ms),
          (rest address).1
              ∙ ap (◌++ assets collaterals_map address ms) (adds address).1
              ∙ append_assoc (collateral_of address before)
                  (asset_of_key collaterals_map address key (unmarshal m.value))
                  (assets collaterals_map address ms),
        ),
      )

  -- Where no key is malformed and the JSON decoding does not panic, the loop over a page ends
  -- without a panic, and each address has, in the order of the page, exactly the debts and exactly
  -- the collateral of its keys whose value could be read.
  pub gather_groups :
      (ms : List Model)
      → All IsWellFormed ms
      → ((v : Text) → unmarshal v ≢ panic)
      → (after : Accounts) × (gather item unmarshal ms [] ≡ some after)
        × ((address : Text)
            → (debts_of address after ≡ assets debts_map address ms)
              × (collateral_of address after ≡ assets collaterals_map address ms))
  gather_groups ms h g = gather-Gathers ms [] h g
