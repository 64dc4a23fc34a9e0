-- ===== src/Manager/Block.antt =====
-- manager/src/manager/manager.go: the manager, the handling of a new block in `Run`, and `Stop`.
pub mod Fills
mod Tests
use multichain_liquidator_bo.Base.{ℕ, Bool, true, false, Option, none, some, List, [], ◌∷◌, ◌||◌}
use multichain_liquidator_bo.Base.Int.{ℤ, to_word}
use multichain_liquidator_bo.Base.Text.{Text}
use multichain_liquidator_bo.Base.Action.{
  Error, message, Result, ok, err, panic, Action, ◌>>=◌, ◌>>◌, return, fail, ignore,
}
use multichain_liquidator_bo.Runtime.Types.{WorkItem}
use multichain_liquidator_bo.Runtime.Interfaces.{Queuer, Cacher}
use multichain_liquidator_bo.Manager.Interfaces.{Direction, Scaled, Scaler}
use multichain_liquidator_bo.Manager.Pages.{Target, u64_mod, send_pages}

-- The fields that do not change. The scalers, by name, are listed in the order in which Go ranges
-- over the map.
pub record Manager (W F : Type 0) : Type 0 where
  pub chain_id : Text
  pub rpc_websocket_endpoint : Text
  pub queue : Queuer W
  pub metrics_cache : Cacher W F
  pub collector_queue_name : Text
  pub health_check_queue_name : Text
  pub executor_queue_name : Text
  pub scalers : List (Text × Scaler W)
  pub target : Target
  pub collector_items_per_packet : ℤ
  pub metrics_enabled : Bool

abbrev pub blank : Text → Bool
blank [] = true
blank (c ∷ s) = false

module _ {W : Type 0} where
  scale_result : Action W (Unit {0}) → Scaled → Action W (Unit {0})
  scale_result next (direction, should_scale, none) = next
  scale_result next (direction, should_scale, some e) = fail e

  -- The loop over the scalers returns the first error.
  unfoldable pub scale_each : List (Text × Scaler W) → Action W (Unit {0})
  unfolding scale_result
  scale_each [] = return tt
  scale_each ((name, scaler) ∷ scalers) =
      scaler.scale_automatic >>= scale_result (scale_each scalers)

  unfoldable pub then_pages :
      (W → Option (Result (Unit {0}) × W)) → Result (Unit {0}) × W → Option (Result (Unit {0}) × W)
  then_pages next (ok _, w) = next w
  then_pages next (err e, w) = some (err e, w)
  then_pages next (panic, w) = some (panic, w)

  -- `Stop`, behind the clearing of the flag; errors of the scalers are dropped.
  pub stop : List (Text × Scaler W) → Action W (Unit {0})
  stop [] = return tt
  stop ((name, scaler) ∷ scalers) = ignore scaler.scale_to_zero >> stop scalers

  -- `if condition { return nil, errors.New(...) }`.
  guard : Bool → Error → Action W (Unit {0})
  guard true e = fail e
  guard false e = return tt

  -- The guard against a nil interface or map.
  present : {A : Type 0} → Option A → Error → Action W A
  present none e = fail e
  present (some a) e = return a

module _ {W F : Type 0} where
  -- `continueRunning` is atomic and read as a Boolean: a call is given what it reads.
  unfoldable pub scale_running : Bool → Manager W F → Action W (Unit {0})
  unfolding scale_each
  scale_running true service = scale_each service.scalers
  scale_running false service = return tt

  pub purge_queues : Manager W F → Action W (Unit {0})
  purge_queues service =
      service.queue.purge service.collector_queue_name
      >> (service.queue.purge service.health_check_queue_name
          >> service.queue.purge service.executor_queue_name)

  -- The page size as a uint64.
  abbrev pub page_size : Manager W F → ℕ
  page_size service = to_word u64_mod service.collector_items_per_packet

  -- A block, behind the submission of metrics: scaling, clearing the queues, and handing out the
  -- pages, on fuel for the loop over the pages. `total` is `collectorTotalContractItems`.
  pub process_block :
      (WorkItem → Result Text) → Manager W F → ℕ → Bool → ℕ → W → Option (Result (Unit {0}) × W)
  unfolding scale_running purge_queues then_pages
  process_block marshal service fuel running total w =
      then_pages
        (send_pages service.queue marshal service.collector_queue_name service.target
          (page_size service) fuel total 0)
        ((scale_running running service >> purge_queues service) w)

  -- `New`, which leaves the world as it is.
  pub new_manager :
      Text
      → Text
      → Text
      → Text
      → Text
      → Option (Queuer W)
      → Option (Cacher W F)
      → Text
      → Text
      → Text
      → Option (List (Text × Scaler W))
      → Text
      → ℤ
      → Bool
      → Action W (Manager W F)
  unfolding guard present
  new_manager chain rpc websocket lcd hive queue cache collector health executor scalers contract
        items_per_packet metrics =
      do
        guard (blank rpc || blank websocket)
            (message "rpcEndpoint and rpcWebsocketEndpoint must not be blank")
        q ← present queue (message "queue must be set")
        c ← present cache (message "metricsCache must be set")
        guard (blank collector || blank health || blank executor) (
            message
              "collectorQueueName, healthCheckQueueName and executorQueueName must not be blank")
        s ← present scalers (message "you must provide scalers to the manager")
        guard (blank contract) (message "you must provide the contract to be monitored")
        return (record {
          chain_id = chain;
          rpc_websocket_endpoint = websocket;
          queue = q;
          metrics_cache = c;
          collector_queue_name = collector;
          health_check_queue_name = health;
          executor_queue_name = executor;
          scalers = s;
          target = record {
            rpc_endpoint = rpc;
            hive_endpoint = hive;
            lcd_endpoint = lcd;
            collector_contract = contract;
          };
          collector_items_per_packet = items_per_packet;
          metrics_enabled = metrics;
        })
