-- ===== src/Manager/Monitor.antt =====
-- The two monitors of manager/src/manager/manager.go.
pub mod Totals
mod Tests
use multichain_liquidator_bo.Base.{
  ℕ, Bool, true, false, Option, none, some, List, [], ◌∷◌, leb, if◌then◌else◌,
}
use multichain_liquidator_bo.Base.Int.{ℤ, pos}
use multichain_liquidator_bo.Base.Float.{Float}
use multichain_liquidator_bo.Base.Text.{Text, codes}
use multichain_liquidator_bo.Base.Action.{
  Error, message, Result, ok, err, panic, Action, ◌>>=◌, ◌>>◌, return, ignore,
}
use multichain_liquidator_bo.Manager.Block.{Manager}

-- `monitorBlocksReceived`, with what the flag reads and the seconds since the last block; `none`
-- while it goes on. The error also shows the time.
pub monitor_blocks_received : List (Bool × ℕ) → Option (Result (Unit {0}))
monitor_blocks_received [] = none
monitor_blocks_received ((false, age) ∷ rounds) = some (ok tt)
monitor_blocks_received ((true, age) ∷ rounds) =
    if leb 60 age
    then some (err (message "no new block received"))
    else monitor_blocks_received rounds

-- Foreign code: the RPC client of lens with its clients `C`, and protobuf for the two messages of
-- query.pb.go: the request for one item with a count of the total, and the total in the response,
-- where a response without pagination panics.
pub record StateQuery (W C : Type 0) : Type 0 where
  pub new_rpc_client : Text → Action W C
  pub marshal_count_request : Text → Result Text
  pub abci_query : C → Text → Text → Action W Text
  pub unmarshal_total : Text → Result ℕ

abbrev pub total_name : Text
total_name = codes "collector.contract_items.total"

module _ {W F C : Type 0} (fl : Float F) (remote : StateQuery W C) (service : Manager W F) where
  -- The total for the cache, where the error of `Set` is dropped, and for
  -- `collectorTotalContractItems`.
  store_total : ℕ → Action W ℕ
  store_total total =
      ignore (service.metrics_cache.set total_name (fl.of_int (pos total))) >> return total

  -- A round of `monitorContractStorageSize`.
  pub fetch_total : Action W ℕ
  unfolding store_total
  fetch_total = do
    client ← remote.new_rpc_client service.target.rpc_endpoint
    request ← λ w. (remote.marshal_count_request service.target.collector_contract, w)
    response ← remote.abci_query client (codes "/cosmwasm.wasm.v1.Query/AllContractState") request
    total ← λ w. (remote.unmarshal_total response, w)
    store_total total

  after_round :
      (ℕ → W → Option (Result (Unit {0}) × (ℕ × W)))
      → ℕ
      → Result ℕ × W
      → Option (Result (Unit {0}) × (ℕ × W))
  after_round next total (ok n, w) = next n w
  after_round next total (err e, w) = some (err e, (total, w))
  after_round next total (panic, w) = some (panic, (total, w))

  -- The loop, with what the flag reads, from a value of `collectorTotalContractItems`; `none` while it
  -- goes on.
  pub monitor_contract_storage_size : List Bool → ℕ → W → Option (Result (Unit {0}) × (ℕ × W))
  unfolding fetch_total after_round
  monitor_contract_storage_size [] total w = none
  monitor_contract_storage_size (false ∷ reads) total w = some (ok tt, (total, w))
  monitor_contract_storage_size (true ∷ reads) total w =
      after_round (monitor_contract_storage_size reads) total (fetch_total w)
