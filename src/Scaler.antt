-- ===== src/Scaler.antt =====
-- manager/src/scaler/queue_watermark.go: scaling a service by the length of its queue.
pub mod Bounds
pub mod Sustained
pub mod Contract
pub mod Floor
pub mod Gap
mod Tests
use multichain_liquidator_bo.Base.{
  ℕ, suc, [], ◌∷◌, Bool, true, false, Option, none, some, leb, if◌then◌else◌, ◌||◌, ◌&&◌,
}
use multichain_liquidator_bo.Base.Int.{ℤ, pos, ltb_ℤ, leb_ℤ, dec_int}
use multichain_liquidator_bo.Base.Text.{Text, text_eq}
use multichain_liquidator_bo.Base.Action.{Error, message, Result, ok, err, panic, Action}
use multichain_liquidator_bo.Runtime.Interfaces.{Queuer}
use multichain_liquidator_bo.Manager.Interfaces.{
  Deployer, Direction, unchanged, up, down, Scaled, Scaler,
}

-- The two violation counts and their maximum are of type int. They start at 0 and only go up by 1.
pub record QueueWatermark (S : Type 0) : Type 0 where
  pub queue : Queuer S
  pub queue_name : Text
  pub deployer : Deployer S
  pub high_violation_count : ℕ
  pub low_violation_count : ℕ
  pub violation_max : ℕ
  pub low_water_mark : ℤ
  pub high_water_mark : ℤ
  pub minimum_service_count : ℤ

abbrev pub is_zero : ℤ → Bool
is_zero (pos n) = leb n 0
is_zero _ = false

-- What a call of `ScaleAutomatic` leaves: its results, the scaler's fields and the rest.
abbrev pub Step : Type 0 → Type 0
Step S = Result Scaled × (QueueWatermark S × S)

module _ {S : Type 0} where
  -- `NewQueueWatermark`; `none` is a nil interface.
  unfoldable pub new_queue_watermark :
      Option (Queuer S) → Text → Option (Deployer S) → ℤ → ℤ → ℤ → Result (QueueWatermark S)
  new_queue_watermark none name dep low high minimum = err (message "a queue must be provided")
  new_queue_watermark (some q) [] dep low high minimum = err (message "queueName must not be blank")
  new_queue_watermark (some q) (c ∷ name) none low high minimum =
      err (message "a deployer must be provided")
  new_queue_watermark (some q) (c ∷ name) (some dep) low high minimum =
      if is_zero high
      then err (message "high watermarks must be larger than zero")
      else ok (record {
        queue = q;
        queue_name = c ∷ name;
        deployer = dep;
        high_violation_count = 0;
        low_violation_count = 0;
        violation_max = 10;
        low_water_mark = low;
        high_water_mark = high;
        minimum_service_count = minimum;
      })

  pub scale_up : QueueWatermark S → Action S (Unit {0})
  scale_up q = q.deployer.increase

  decrease_above : QueueWatermark S → Result ℤ × S → Result (Unit {0}) × S
  decrease_above q (ok current, s) =
      if ltb_ℤ (dec_int current) q.minimum_service_count then (ok tt, s) else q.deployer.decrease s
  decrease_above q (err e, s) = (err e, s)
  decrease_above q (panic, s) = (panic, s)

  pub scale_down : QueueWatermark S → Action S (Unit {0})
  unfolding decrease_above
  scale_down q s = decrease_above q (q.deployer.count s)

  pub scale_to_zero : QueueWatermark S → S → Result (Unit {0}) × (QueueWatermark S × S)
  scale_to_zero q s =
      let (r, s') = q.deployer.remove_all s in (r, (record q { minimum_service_count = pos 0 }, s'))

  -- `return direction, true, f()`.
  pub scaled : Direction → QueueWatermark S → Result (Unit {0}) × S → Step S
  scaled d q (ok _, s) = (ok (d, true, none), (q, s))
  scaled d q (err e, s) = (ok (d, true, some e), (q, s))
  scaled d q (panic, s) = (panic, (q, s))

  -- `return "none", false, err`.
  pub not_scaled : Option Error → QueueWatermark S → S → Step S
  not_scaled e q s = (ok (unchanged, false, e), (q, s))

  pub high_mark : QueueWatermark S → ℤ → S → Step S
  unfolding scaled not_scaled scale_up
  high_mark q items s =
      let count = suc q.high_violation_count in
      if leb_ℤ q.high_water_mark items
      then (if leb q.violation_max count
          then scaled up (record q { high_violation_count = 0 }) (scale_up q s)
          else not_scaled none (record q { high_violation_count = count }) s)
      else not_scaled none q s

  pub low_mark : QueueWatermark S → ℤ → S → Step S
  unfolding scaled high_mark scale_down
  low_mark q items s =
      let count = suc q.low_violation_count in
      if leb_ℤ items q.low_water_mark
      then (if leb q.violation_max count
          then scaled down (record q { low_violation_count = 0 }) (scale_down q s)
          else high_mark (record q { low_violation_count = count }) items s)
      else high_mark q items s

  after_items : QueueWatermark S → Result ℤ × S → Step S
  unfolding low_mark not_scaled
  after_items q (ok items, s) = low_mark q items s
  after_items q (err e, s) = not_scaled (some e) q s
  after_items q (panic, s) = (panic, (q, s))

  check_queue : QueueWatermark S → S → Step S
  unfolding after_items
  check_queue q s = after_items q (q.queue.count_items q.queue_name s)

  after_count : QueueWatermark S → Result ℤ × S → Step S
  unfolding scaled scale_up check_queue not_scaled
  after_count q (ok current, s) =
      if ltb_ℤ current q.minimum_service_count then scaled up q (scale_up q s) else check_queue q s
  after_count q (err e, s) = not_scaled (some e) q s
  after_count q (panic, s) = (panic, (q, s))

  after_deploying : QueueWatermark S → Option Bool × S → Step S
  unfolding after_count check_queue not_scaled
  after_deploying q (some true, s) = not_scaled none q s
  after_deploying q (some false, s) =
      if ltb_ℤ (pos 0) q.minimum_service_count
      then after_count q (q.deployer.count s)
      else check_queue q s
  after_deploying q (none, s) = (panic, (q, s))

  pub scale_automatic : QueueWatermark S → S → Step S
  unfolding after_deploying
  scale_automatic q s = after_deploying q (q.deployer.is_deploying s)

  pub count : QueueWatermark S → Action S ℤ
  count q = q.deployer.count

-- The scaler as the manager holds it: its own fields are part of the state.
pub watermark_scaler : {S : Type 0} → Scaler (QueueWatermark S × S)
unfolding scale_automatic scale_up scale_down scale_to_zero count
watermark_scaler = record {
  scale_automatic = λ (q, s). scale_automatic q s;
  scale_up = λ (q, s). let (r, s') = scale_up q s in (r, (q, s'));
  scale_down = λ (q, s). let (r, s') = scale_down q s in (r, (q, s'));
  scale_to_zero = λ (q, s). scale_to_zero q s;
  count = λ (q, s). let (r, s') = count q s in (r, (q, s'));
}
