-- ===== src/HealthChecker/Hive.antt =====
-- health-checker/src/health-checker/hive.go: asking Hive for the health of a batch of positions.
pub mod Joins
pub mod Answers
use multichain_liquidator_bo.Base.{
  ℕ, Bool, Option, none, some, List, [], ◌∷◌, ◌++◌, map, ◌==◌, if◌then◌else◌, ◌⊎◌, inl, inr,
}
use multichain_liquidator_bo.Base.Text.{Text, text_eq}
use multichain_liquidator_bo.Base.Action.{Error, message}
use multichain_liquidator_bo.Runtime.Types.{Asset, HealthCheckWorkItem}

-- The part of Hive's answer about one account; the health factors are decimal texts.
pub record ContractQuery : Type 0 where
  pub total_collateral_in_base_asset : Text
  pub total_debt_in_base_asset : Text
  pub max_ltv_hf : Text
  pub liquidation_threshold_hf : Text

pub record UserResult : Type 0 where
  pub address : Text
  pub contract_query : ContractQuery
  pub debts : List Asset
  pub collateral : List Asset

-- One query of the batch: its alias is the user's address, which is also a variable.
pub record BatchQuery : Type 0 where
  pub contract_address : Text
  pub user_address : Text

-- The field `data` of one element of Hive's answer, in the order in which Go ranges over the map.
abbrev pub Event : Type 0
Event = List (Text × ContractQuery)

-- Foreign code: encoding/json for the queries and the answer, and net/http for the call, which gives
-- the status and the body.
pub record HiveApi (W : Type 0) : Type 0 where
  pub marshal_queries : List BatchQuery → Error ⊎ Text
  pub post : Text → Text → W → (Error ⊎ (ℕ × Text)) × W
  pub decode_events : Text → Error ⊎ List Event

-- `positonMap`: the last position of an address is the one that stays.
pub position_of : Text → List HealthCheckWorkItem → Option HealthCheckWorkItem
position_of address [] = none
position_of address (p ∷ positions) = elim (position_of address positions) [
  | some q ↦ some q
  | none ↦ (if text_eq address p.address then some p else none)
]

-- Reading a missing key of the map gives a position with no debts and no collateral.
user_result : Text → ContractQuery → Option HealthCheckWorkItem → UserResult
user_result address query none = record {
  address = address;
  contract_query = query;
  debts = [];
  collateral = [];
}
user_result address query (some p) = record {
  address = address;
  contract_query = query;
  debts = p.debts;
  collateral = p.collateral;
}

pub join_event : List HealthCheckWorkItem → Event → List UserResult
unfolding user_result position_of
join_event positions [] = []
join_event positions ((address, query) ∷ event) =
    user_result address query (position_of address positions) ∷ join_event positions event

pub join_events : List HealthCheckWorkItem → List Event → List UserResult
unfolding join_event
join_events positions [] = []
join_events positions (event ∷ events) = join_event positions event ++ join_events positions events

batch_query : Text → HealthCheckWorkItem → BatchQuery
batch_query contract p = record { contract_address = contract; user_address = p.address }

module _ {W : Type 0} (api : HiveApi W) (hive_endpoint : Text)
    (positions : List HealthCheckWorkItem) where
  decoded : Error ⊎ List Event → Error ⊎ List UserResult
  unfolding join_events
  decoded (inl e) = inl e
  decoded (inr events) = inr (join_events positions events)

  -- Only status 200 is an answer. The error of the source also shows the status.
  answered : Error ⊎ (ℕ × Text) → Error ⊎ List UserResult
  unfolding decoded
  answered (inl e) = inl e
  answered (inr (status, body)) =
      if status == 200 then decoded (api.decode_events body) else inl (message "not found")

  posted : Error ⊎ Text → W → (Error ⊎ List UserResult) × W
  unfolding answered
  posted (inl e) w = (inl e, w)
  posted (inr body) w = let (r, v) = api.post hive_endpoint body w in (answered r, v)

  -- `FetchBatch`.
  pub fetch_batch : Text → W → (Error ⊎ List UserResult) × W
  unfolding posted batch_query
  fetch_batch contract_address w =
      posted (api.marshal_queries (map (batch_query contract_address) positions)) w
