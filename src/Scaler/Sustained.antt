-- ===== src/Scaler/Sustained.antt =====
-- How long a queue has to stand above or below its marks before the scaler acts.
use multichain_liquidator_bo.Base.{
  ℕ, zero, suc, ◌+◌, ◌<◌, ◌≡◌, refl, ap, ◌∙◌, List, [], ◌∷◌, true, false, none, some, arith,
}
use multichain_liquidator_bo.Base.Int.{ℤ, pos, ltb_ℤ, leb_ℤ}
use multichain_liquidator_bo.Base.Action.{Result, ok}
use multichain_liquidator_bo.Manager.Interfaces.{unchanged, up, down, Scaled}
use multichain_liquidator_bo.Scaler.{
  QueueWatermark, scaled, not_scaled, high_mark, low_mark, scale_automatic, scale_up, scale_down,
}

module _ {S : Type 0} where
  -- What `n` calls of `ScaleAutomatic` return, one to a block, and the state after them.
  pub calls : ℕ → QueueWatermark S → S → List (Result Scaled) × (QueueWatermark S × S)
  calls zero q s = ([], (q, s))
  calls (suc n) q s =
      let (r, (q', s')) = scale_automatic q s in let (rs, last) = calls n q' s' in (r ∷ rs, last)

  -- Nothing is being deployed, there are services enough, and the queue holds `items` items. The
  -- reads leave the state as it is.
  pub record IsSteady (q : QueueWatermark S) (s : S) (current items : ℤ) : Type 0 where
    pub settled : q.deployer.is_deploying s ≡ (some false, s)
    pub counted : q.deployer.count s ≡ (ok current, s)
    pub enough : ltb_ℤ current q.minimum_service_count ≡ false
    pub queued : q.queue.count_items q.queue_name s ≡ (ok items, s)

abbrev pub quiet : Result Scaled
quiet = ok (unchanged, false, none)

abbrev pub quiets : ℕ → List (Result Scaled)
quiets zero = []
quiets (suc n) = quiet ∷ quiets n

module _ {S : Type 0} (s : S) (current items : ℤ) where
  pub high-IsSteady :
      (q : QueueWatermark S) (n : ℕ)
      → IsSteady q s current items
      → IsSteady (record q { high_violation_count = n }) s current items
  high-IsSteady q n h = record {
    settled = h.settled;
    counted = h.counted;
    enough = h.enough;
    queued = h.queued;
  }

  pub low-IsSteady :
      (q : QueueWatermark S) (n : ℕ)
      → IsSteady q s current items
      → IsSteady (record q { low_violation_count = n }) s current items
  low-IsSteady q n h = record {
    settled = h.settled;
    counted = h.counted;
    enough = h.enough;
    queued = h.queued;
  }

  -- With enough services the scaler goes on to the queue's length, whether or not there is a
  -- minimum.
  pub steady_step :
      (q : QueueWatermark S) → IsSteady q s current items → scale_automatic q s ≡ low_mark q items s
  unfolding scale_automatic
  steady_step q h = ground (arith, h.settled, h.counted, h.enough, h.queued)

  busy_quiet :
      (q : QueueWatermark S)
      → IsSteady q s current items
      → leb_ℤ items q.low_water_mark ≡ false
      → leb_ℤ q.high_water_mark items ≡ true
      → suc q.high_violation_count < q.violation_max
      → scale_automatic q s
        ≡ (quiet, (record q { high_violation_count = suc q.high_violation_count }, s))
  busy_quiet q h over high below = steady_step q h ∙ unfold low_mark not_scaled in ground arith

  busy_scales_last :
      (q : QueueWatermark S)
      → IsSteady q s current items
      → leb_ℤ items q.low_water_mark ≡ false
      → leb_ℤ q.high_water_mark items ≡ true
      → suc q.high_violation_count ≡ q.violation_max
      → scale_automatic q s ≡ scaled up (record q { high_violation_count = 0 }) (scale_up q s)
  busy_scales_last q h over high e = steady_step q h ∙ unfold low_mark not_scaled in ground arith

  idle_quiet :
      (q : QueueWatermark S)
      → IsSteady q s current items
      → leb_ℤ items q.low_water_mark ≡ true
      → leb_ℤ q.high_water_mark items ≡ false
      → suc q.low_violation_count < q.violation_max
      → scale_automatic q s
        ≡ (quiet, (record q { low_violation_count = suc q.low_violation_count }, s))
  idle_quiet q h low under below =
      steady_step q h ∙ unfold low_mark high_mark not_scaled in ground arith

  idle_scales_last :
      (q : QueueWatermark S)
      → IsSteady q s current items
      → leb_ℤ items q.low_water_mark ≡ true
      → suc q.low_violation_count ≡ q.violation_max
      → scale_automatic q s ≡ scaled down (record q { low_violation_count = 0 }) (scale_down q s)
  idle_scales_last q h low e = steady_step q h ∙ unfold low_mark not_scaled in ground arith

  calls-suc :
      (k : ℕ) (q q' : QueueWatermark S)
      → scale_automatic q s ≡ (quiet, (q', s))
      → (last : QueueWatermark S × S) → calls k q' s ≡ (quiets k, last)
      → calls (suc k) q s ≡ (quiets (suc k), last)
  unfolding calls
  calls-suc k q q' e last h = rw e (rw h refl)

  busy_calls :
      (k : ℕ) (q : QueueWatermark S)
      → IsSteady q s current items
      → leb_ℤ items q.low_water_mark ≡ false
      → leb_ℤ q.high_water_mark items ≡ true
      → q.high_violation_count + k < q.violation_max
      → calls k q s
        ≡ (quiets k, (record q { high_violation_count = q.high_violation_count + k }, s))
  busy_calls zero q h over high below =
      unfold calls in
      ap (λ (n : ℕ). ([], (record q { high_violation_count = n }, s)))
        (let e : q.high_violation_count ≡ q.high_violation_count + 0 = omega arith in e)
  busy_calls (suc k) q h over high below =
      let q' = record q { high_violation_count = suc q.high_violation_count } in
      calls-suc k q q' (busy_quiet q h over high (omega arith))
        (record q { high_violation_count = q.high_violation_count + suc k }, s)
        (busy_calls k q' (high-IsSteady q (suc q.high_violation_count) h) over high (omega arith)
          ∙ ap (λ (n : ℕ). (quiets k, (record q { high_violation_count = n }, s)))
              (let e : suc q.high_violation_count + k ≡ q.high_violation_count + suc k =
                  omega arith in
                e))

  idle_calls :
      (k : ℕ) (q : QueueWatermark S)
      → IsSteady q s current items
      → leb_ℤ items q.low_water_mark ≡ true
      → leb_ℤ q.high_water_mark items ≡ false
      → q.low_violation_count + k < q.violation_max
      → calls k q s ≡ (quiets k, (record q { low_violation_count = q.low_violation_count + k }, s))
  idle_calls zero q h low under below =
      unfold calls in
      ap (λ (n : ℕ). ([], (record q { low_violation_count = n }, s)))
        (let e : q.low_violation_count ≡ q.low_violation_count + 0 = omega arith in e)
  idle_calls (suc k) q h low under below =
      let q' = record q { low_violation_count = suc q.low_violation_count } in
      calls-suc k q q' (idle_quiet q h low under (omega arith))
        (record q { low_violation_count = q.low_violation_count + suc k }, s)
        (idle_calls k q' (low-IsSteady q (suc q.low_violation_count) h) low under (omega arith)
          ∙ ap (λ (n : ℕ). (quiets k, (record q { low_violation_count = n }, s)))
              (let e : suc q.low_violation_count + k ≡ q.low_violation_count + suc k =
                  omega arith in
                e))

  -- While nothing is being deployed, the count of services can be read and is not below the minimum,
  -- the length of the queue can be read, and these three reads leave the state as it is, a queue
  -- above its low and at least at its high mark makes the scaler act exactly when the violation count
  -- reaches its maximum: the calls before return "none" and change only that count, and the next one
  -- sets the count back to 0 and calls the deployer's Increase once, whose result it hands on.
  pub busy_scales :
      (k : ℕ) (q : QueueWatermark S)
      → IsSteady q s current items
      → leb_ℤ items q.low_water_mark ≡ false
      → leb_ℤ q.high_water_mark items ≡ true
      → q.high_violation_count + suc k ≡ q.violation_max
      → let last = record q { high_violation_count = q.high_violation_count + k } in
        (calls k q s ≡ (quiets k, (last, s)))
        × (scale_automatic last s
            ≡ scaled up (record q { high_violation_count = 0 }) (q.deployer.increase s))
  busy_scales k q h over high e =
      let last = record q { high_violation_count = q.high_violation_count + k } in
      (
        busy_calls k q h over high (omega arith),
        busy_scales_last last (high-IsSteady q (q.high_violation_count + k) h) over high
              (omega arith)
            ∙ unfold scale_up in refl,
      )

  -- While nothing is being deployed, the count of services can be read and is not below the minimum,
  -- the length of the queue can be read, and these three reads leave the state as it is, a queue
  -- at most at its low and below its high mark makes the scaler act exactly when the low violation
  -- count reaches its maximum: the calls before return "none" and change only that count, and the
  -- next one sets the count back to 0 and makes the call of `ScaleDown`, which removes nothing at
  -- the minimum.
  pub idle_scales :
      (k : ℕ) (q : QueueWatermark S)
      → IsSteady q s current items
      → leb_ℤ items q.low_water_mark ≡ true
      → leb_ℤ q.high_water_mark items ≡ false
      → q.low_violation_count + suc k ≡ q.violation_max
      → let last = record q { low_violation_count = q.low_violation_count + k } in
        (calls k q s ≡ (quiets k, (last, s)))
        × (scale_automatic last s
            ≡ scaled down (record q { low_violation_count = 0 }) (scale_down q s))
  idle_scales k q h low under e =
      let last = record q { low_violation_count = q.low_violation_count + k } in
      (
        idle_calls k q h low under (omega arith),
        idle_scales_last last (low-IsSteady q (q.low_violation_count + k) h) low (omega arith)
            ∙ unfold scale_down in refl,
      )

module _ {S : Type 0} where
  deploying_call :
      (q : QueueWatermark S) (s : S)
      → q.deployer.is_deploying s ≡ (some true, s)
      → scale_automatic q s ≡ (quiet, (q, s))
  unfolding scale_automatic not_scaled
  deploying_call q s h = rw h refl

  -- While the deployer says that it is deploying, and the question changes nothing, every call
  -- returns "none" and changes nothing.
  pub deploying_calls :
      (k : ℕ) (q : QueueWatermark S) (s : S)
      → q.deployer.is_deploying s ≡ (some true, s)
      → calls k q s ≡ (quiets k, (q, s))
  deploying_calls zero q s h = unfold calls in refl
  deploying_calls (suc k) q s h =
      calls-suc s (pos 0) (pos 0) k q q (deploying_call q s h) (q, s) (deploying_calls k q s h)
