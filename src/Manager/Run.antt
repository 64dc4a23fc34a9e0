-- ===== src/Manager/Run.antt =====
-- The loop of `Run` of manager/src/manager/manager.go over the new blocks.
pub mod Fills
pub mod Closes
mod Tests
use multichain_liquidator_bo.Base.{ℕ, Bool, true, false, Option, none, some, List, [], ◌∷◌}
use multichain_liquidator_bo.Base.Int.{ℤ, dec_int}
use multichain_liquidator_bo.Base.Float.{Float}
use multichain_liquidator_bo.Base.Text.{Text}
use multichain_liquidator_bo.Base.Action.{Error, Result, ok, err, panic, Action}
use multichain_liquidator_bo.Runtime.Types.{WorkItem}
use multichain_liquidator_bo.Manager.Block.{Manager, process_block, then_pages}
use multichain_liquidator_bo.Manager.Metrics.{Metric, Payload, collect_metrics, submit_metrics}
use multichain_liquidator_bo.Manager.Receiver.{BlockResult, Websocket, subscribe}

-- Foreign code: `parse_int` is the number that strconv.ParseInt gives beside whatever error,
-- `submit` sends to DataDog, and `start` starts a goroutine. `wait` is `waitGroup.Wait()`: the world once
-- both monitors have returned, or none where they never do.
pub record Surroundings (W F : Type 0) : Type 0 where
  pub marshal : WorkItem → Result Text
  pub parse_int : Text → ℤ
  pub submit : Payload F → Action W (Unit {0})
  pub start : Action W (Unit {0}) → Action W (Unit {0})
  pub wait : W → Option W

-- A block of the channel, with what `continueRunning` and `collectorTotalContractItems` read while it
-- is handled; both belong to other goroutines.
pub record Arrival (T : Type 0) : Type 0 where
  pub block : BlockResult T
  pub running : Bool
  pub total : ℕ

-- A call that may run out of fuel.
abbrev Fueled : Type 0 → Type 0
Fueled W = W → Option (Result (Unit {0}) × W)

module _ {W : Type 0} where
  after_block : Fueled W → Option (Result (Unit {0}) × W) → Option (Result (Unit {0}) × W)
  unfolding then_pages
  after_block next none = none
  after_block next (some r) = then_pages next r

  -- What a function returns once its deferred call is made.
  deferred : Action W (Unit {0}) → Option (Result (Unit {0}) × W) → Option (Result (Unit {0}) × W)
  deferred disconnect none = none
  deferred disconnect (some (r, w)) = some (r, (disconnect w).1)

  pub connected : {A : Type 0} → Fueled W → Result A × W → Option (Result (Unit {0}) × W)
  connected next (ok _, w) = next w
  connected next (err e, w) = some (err e, w)
  connected next (panic, w) = some (panic, w)

module _ {W F : Type 0} (fl : Float F) (env : Surroundings W F) (service : Manager W F) where
  -- An error of `collectMetrics` leaves no metrics to submit.
  submit_collected : Result (List (Metric F)) × W → Result (Unit {0}) × W
  submit_collected (ok metrics, w) = env.start (submit_metrics env.submit metrics) w
  submit_collected (err e, w) = env.start (submit_metrics env.submit []) w
  submit_collected (panic, w) = (panic, w)

  report_metrics : Bool → ℤ → Action W (Unit {0})
  unfolding submit_collected
  report_metrics true height w = submit_collected (collect_metrics fl service (dec_int height) w)
  report_metrics false height w = (ok tt, w)

  -- The body of the loop. `fuel` bounds the loop over the pages by their total.
  pub handle_block : {T : Type 0} → (ℕ → ℕ) → Arrival T → Fueled W
  unfolding report_metrics then_pages
  handle_block fuel a w =
      then_pages (process_block env.marshal service (fuel a.total) a.running a.total)
        (report_metrics service.metrics_enabled (env.parse_int a.block.height) w)

  pub handle_blocks : {T : Type 0} → (ℕ → ℕ) → List (Arrival T) → Fueled W
  unfolding handle_block after_block
  handle_blocks fuel [] w = some (ok tt, w)
  handle_blocks fuel (a ∷ arrivals) w =
      after_block (handle_blocks fuel arrivals) (handle_block fuel a w)

  waited : Option W → Option (Result (Unit {0}) × W)
  waited none = none
  waited (some w) = some (ok tt, w)

  -- What follows the loop: behind an error or a panic nothing is waited for.
  then_wait : Option (Result (Unit {0}) × W) → Option (Result (Unit {0}) × W)
  unfolding waited
  then_wait none = none
  then_wait (some (ok _, w)) = waited (env.wait w)
  then_wait (some (err e, w)) = some (err e, w)
  then_wait (some (panic, w)) = some (panic, w)

  -- `Run`, but for the goroutines that it starts: the receiver, whose blocks are given, and the
  -- monitors. `none` is a `Run` that does not return, or fuel that ran out.
  pub run : {C T : Type 0} → Websocket W C T → (ℕ → ℕ) → List (Arrival T) → Fueled W
  unfolding connected deferred handle_blocks then_wait
  run ws fuel arrivals w =
      connected
        (λ w. deferred service.queue.disconnect (
          connected
            (λ w. deferred service.metrics_cache.disconnect (
              connected (λ w. then_wait (handle_blocks fuel arrivals w))
                (subscribe ws service.rpc_websocket_endpoint w)))
            (service.metrics_cache.connect w)))
        (service.queue.connect w)
