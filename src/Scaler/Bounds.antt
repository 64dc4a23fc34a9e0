-- ===== src/Scaler/Bounds.antt =====
-- The violation counts of the scaler stay below their maximum, so that their `int` never overflows.
use multichain_liquidator_bo.Base.{◌<◌, ◌≡◌, refl, Option, none, some, arith, Bool, true, false}
use multichain_liquidator_bo.Base.Int.{ℤ}
use multichain_liquidator_bo.Base.Action.{Result, ok, err, panic}
use multichain_liquidator_bo.Manager.Interfaces.{Direction, up}
use multichain_liquidator_bo.Base.Text.{Text}
use multichain_liquidator_bo.Base.{[], ◌∷◌}
use multichain_liquidator_bo.Runtime.Interfaces.{Queuer}
use multichain_liquidator_bo.Manager.Interfaces.{Deployer}
use multichain_liquidator_bo.Scaler.{
  new_queue_watermark, QueueWatermark, scaled, high_mark, low_mark, after_items, check_queue,
  after_count, after_deploying, scale_automatic, scale_up,
}

pub record IsBounded {S : Type 0} (q : QueueWatermark S) : Type 0 where
  pub max_ten : q.violation_max ≡ 10
  pub low_below : q.low_violation_count < 10
  pub high_below : q.high_violation_count < 10

module _ {S : Type 0} where
  scaled-fields :
      (d : Direction) (q : QueueWatermark S) (r : Result (Unit {0}) × S) → (scaled d q r).1.0 ≡ q
  unfolding scaled
  scaled-fields d q (ok x, s) = refl
  scaled-fields d q (err e, s) = refl
  scaled-fields d q (panic, s) = refl

  high_mark-IsBounded :
      (q : QueueWatermark S) (n : ℤ) (s : S) → IsBounded q → IsBounded (high_mark q n s).1.0
  unfolding high_mark
  high_mark-IsBounded q n s h =
      ground (arith, scaled-fields up (record q { high_violation_count = 0 }) (scale_up q s))

  low_mark-IsBounded :
      (q : QueueWatermark S) (n : ℤ) (s : S) → IsBounded q → IsBounded (low_mark q n s).1.0
  unfolding low_mark
  low_mark-IsBounded q n s h = grind (arith, high_mark-IsBounded, scaled-fields)

  after_items-IsBounded :
      (q : QueueWatermark S) (r : Result ℤ × S) → IsBounded q → IsBounded (after_items q r).1.0
  unfolding after_items
  after_items-IsBounded q (ok n, s) h = low_mark-IsBounded q n s h
  after_items-IsBounded q (err e, s) h = h
  after_items-IsBounded q (panic, s) h = h

  check_queue-IsBounded :
      (q : QueueWatermark S) (s : S) → IsBounded q → IsBounded (check_queue q s).1.0
  unfolding check_queue
  check_queue-IsBounded q s h = after_items-IsBounded q (q.queue.count_items q.queue_name s) h

  after_count-IsBounded :
      (q : QueueWatermark S) (r : Result ℤ × S) → IsBounded q → IsBounded (after_count q r).1.0
  unfolding after_count
  after_count-IsBounded q (ok c, s) h = grind (arith, check_queue-IsBounded, scaled-fields)
  after_count-IsBounded q (err e, s) h = h
  after_count-IsBounded q (panic, s) h = h

  after_deploying-IsBounded :
      (q : QueueWatermark S) (r : Option Bool × S)
      → IsBounded q
      → IsBounded (after_deploying q r).1.0
  unfolding after_deploying
  after_deploying-IsBounded q (some true, s) h = h
  after_deploying-IsBounded q (some false, s) h =
      grind (arith, check_queue-IsBounded, after_count-IsBounded)
  after_deploying-IsBounded q (none, s) h = h

  -- Every call, on every branch and with any deployer and queue, keeps both violation counts below
  -- the maximum of ten, at which `NewQueueWatermark` sets it.
  pub scale_automatic-IsBounded :
      (q : QueueWatermark S) (s : S) → IsBounded q → IsBounded (scale_automatic q s).1.0
  unfolding scale_automatic
  scale_automatic-IsBounded q s h = after_deploying-IsBounded q (q.deployer.is_deploying s) h

  -- A scaler that `NewQueueWatermark` returns is bounded.
  pub new_queue_watermark-IsBounded :
      (queue : Option (Queuer S)) (name : Text) (dep : Option (Deployer S)) (low high minimum : ℤ)
      {q : QueueWatermark S}
      → new_queue_watermark queue name dep low high minimum ≡ ok q
      → IsBounded q
  unfolding new_queue_watermark
  new_queue_watermark-IsBounded none name dep low high minimum e = cc
  new_queue_watermark-IsBounded (some queue) [] dep low high minimum e = cc
  new_queue_watermark-IsBounded (some queue) (c ∷ name) none low high minimum e = cc
  new_queue_watermark-IsBounded (some queue) (c ∷ name) (some dep) low high minimum e = ground arith
