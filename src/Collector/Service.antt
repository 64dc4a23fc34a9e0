-- ===== src/Collector/Service.antt =====
-- collector/src/collector/collector.go: the collector, its query of the contract's state and `Run`.

pub mod Pushes
pub mod Drains
mod Tests
use multichain_liquidator_bo.Base.{ℕ, Bool, Option, none, some, List, [], ◌∷◌, length}
use multichain_liquidator_bo.Base.Int.{pos}
use multichain_liquidator_bo.Base.Text.{Text, codes}
use multichain_liquidator_bo.Base.Action.{
  message, Result, ok, err, panic, Action, ◌>>=◌, ◌>>◌, return, ignore,
}
use multichain_liquidator_bo.Base.Loop.{Outcome, while_flag, connected}
use multichain_liquidator_bo.Runtime.Types.{WorkItem, HealthCheckWorkItem}
use multichain_liquidator_bo.Runtime.Interfaces.{Queuer, Cacher}
use multichain_liquidator_bo.Collector.Accounts.{Model, Accounts, gather}

pub record Collector (W F : Type 0) : Type 0 where
  pub queue : Queuer W
  pub metrics_cache : Cacher W F
  pub collector_queue_name : Text
  pub health_check_queue_name : Text

-- `New`; `none` is a nil interface.
pub new_collector :
    {W F : Type 0} → Option (Queuer W) → Option (Cacher W F) → Text → Text → Result (Collector W F)
new_collector none cache collector health = err (message "queue must be set")
new_collector (some q) none collector health = err (message "metricsCache must be set")
new_collector (some q) (some c) [] health =
    err (message "collectorQueueName and healthCheckQueueName must not be blank")
new_collector (some q) (some c) (x ∷ collector) [] =
    err (message "collectorQueueName and healthCheckQueueName must not be blank")
new_collector (some q) (some c) (x ∷ collector) (y ∷ health) = ok (record {
  queue = q;
  metrics_cache = c;
  collector_queue_name = x ∷ collector;
  health_check_queue_name = y ∷ health;
})

-- The request for a page, QueryAllContractStateRequest.
pub record StateRequest : Type 0 where
  pub address : Text
  pub offset : ℕ
  pub limit : ℕ

-- Foreign code: the RPC client (strangelove-ventures/lens), the protobuf encoding
-- (gogo/protobuf), encoding/json, and the order in which Go ranges over the map of accounts.
pub record Remote (W : Type 0) : Type 1 where
  pub Client : Type 0
  pub new_rpc_client : Text → Action W Client
  pub marshal_request : StateRequest → Result Text
  pub abci_query : Client → Text → Text → Action W Text
  pub unmarshal_response : Text → Result (List Model)
  pub unmarshal_work_item : Text → Result WorkItem
  pub unmarshal_value : Text → Result Text
  pub marshal_health_check : HealthCheckWorkItem → Result Text
  pub range : Accounts → Accounts

abbrev pub query_path : Text
query_path = codes "/cosmwasm.wasm.v1.Query/AllContractState"

abbrev pure_step : {W A : Type 0} → Result A → Action W A
pure_step r w = (r, w)

-- A page that panics the loop panics the call.
gathered : Option Accounts → Result Accounts
gathered none = panic
gathered (some accounts) = ok accounts

-- An account that cannot be encoded is logged, and its nil bytes are appended all the same.
encoded : Result Text → Text
encoded (ok bytes) = bytes
encoded (err e) = []
encoded panic = []

module _ {W F : Type 0} (remote : Remote W) (service : Collector W F) where
  open remote use {
    new_rpc_client, marshal_request, abci_query, unmarshal_response, unmarshal_work_item,
    unmarshal_value, marshal_health_check, range,
  }

  health_check_items : Accounts → List Text
  unfolding encoded
  health_check_items [] = []
  health_check_items ((address, item) ∷ accounts) =
      encoded (marshal_health_check item) ∷ health_check_items accounts

  -- The items for the health checker, and how many models were scanned.
  unfoldable pub fetch_contract_items : WorkItem → Action W (List Text × ℕ)
  unfolding gathered health_check_items
  fetch_contract_items item = do
    client ← new_rpc_client item.rpc_endpoint
    request ← pure_step (
        marshal_request (record {
          address = item.contract_address;
          offset = item.contract_page_offset;
          limit = item.contract_page_limit;
        }))
    response ← abci_query client query_path request
    models ← pure_step (unmarshal_response response)
    accounts ← pure_step (gathered (gather item unmarshal_value models []))
    return (health_check_items (range accounts), length models)

  -- What the loop does with a work item. Errors of the queue and of the cache are dropped.
  handle_item : WorkItem → Action W (Unit {0})
  unfolding fetch_contract_items
  handle_item item = do
    found ← fetch_contract_items item
    ignore (service.queue.push_many service.health_check_queue_name found.0)
    ignore (
        service.metrics_cache.increment_by (codes "collector.contract_items.scanned") (pos found.1))
    ignore (
        service.metrics_cache.increment_by (codes "health_checker.accounts.total")
          (pos (length found.0)))

  handle_fetched : Option Text → Action W (Unit {0})
  unfolding handle_item
  handle_fetched none = return tt
  handle_fetched (some bytes) = do item ← pure_step (unmarshal_work_item bytes); handle_item item

  -- The body of the loop of `Run`.
  pub collect_once : Action W (Unit {0})
  unfolding handle_fetched
  collect_once = do
    fetched ← service.queue.fetch service.collector_queue_name
    handle_fetched fetched

  -- `Run`, with the values that the flag reads.
  pub run : List Bool → W → Outcome × W
  unfolding collect_once while_flag connected
  run reads w =
      connected (while_flag collect_once service.queue.disconnect reads) (service.queue.connect w)

-- `Stop`, on `continueRunning`, which is atomic.
pub stop : ℕ → Result (Unit {0}) × ℕ
stop running = (ok tt, 0)
