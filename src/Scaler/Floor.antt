-- ===== src/Scaler/Floor.antt =====
-- What the scaler does to the number of services, for any deployer that counts them.
use multichain_liquidator_bo.Base.{
  suc, ◌≡◌, refl, ◌∙◌, Bool, true, false, Bool-cases, inl, inr, Option, none, some, sym, subst, leb,
}
use multichain_liquidator_bo.Base.Int.{ℤ, pos, ltb_ℤ, leb_ℤ, dec_int}
use multichain_liquidator_bo.Base.Action.{Result, ok, err, panic}
use multichain_liquidator_bo.Manager.Interfaces.{Deployer, Direction}
use multichain_liquidator_bo.Scaler.{
  QueueWatermark, scaled, not_scaled, high_mark, low_mark, after_items, check_queue, after_count,
  after_deploying, scale_automatic, scale_up, decrease_above, scale_down,
}
use multichain_liquidator_bo.Scaler.Contract.{
  IsRoom, Counting, IsSafe, same-IsSafe, inc-IsSafe, dec-IsSafe,
}

module _ {S : Type 0} (services : S → ℤ) where
  abbrev Safe : QueueWatermark S → ℤ → S → Type 0
  Safe q n s = IsSafe q.minimum_service_count n (services s)

  scaled-state :
      (d : Direction) (q : QueueWatermark S) (r : Result (Unit {0}) × S) → (scaled d q r).1.1 ≡ r.1
  unfolding scaled
  scaled-state d q (ok x, s) = refl
  scaled-state d q (err e, s) = refl
  scaled-state d q (panic, s) = refl

  module _ (d : Deployer S) (counting : Counting d services) where
    scale_up-Safe :
        (q : QueueWatermark S) (s : S)
        → q.deployer ≡ d
        → IsRoom (services s)
        → Safe q (services s) (scale_up q s).1
    unfolding scale_up
    scale_up-Safe q s same room = rw same (elim (counting.ups s room) [
      | inl e ↦ rw e (inc-IsSafe q.minimum_service_count (services s) room)
      | inr e ↦ rw e (same-IsSafe q.minimum_service_count (services s))
    ])

    decrease_above-Safe :
        (q : QueueWatermark S) (r : Result ℤ × S)
        → q.deployer ≡ d
        → ((n : ℤ) → r.0 ≡ ok n → n ≡ services r.1)
        → IsRoom (services r.1)
        → Safe q (services r.1) (decrease_above q r).1
    unfolding decrease_above
    decrease_above-Safe q (ok n, s) same h room =
        elim (Bool-cases (ltb_ℤ (dec_int n) q.minimum_service_count)) [
          | inl below ↦ rw below (same-IsSafe q.minimum_service_count (services s))
          | inr above ↦
              rw (above, same)
                (elim (counting.downs s room) [
                  | inl e ↦
                      rw e (
                        dec-IsSafe q.minimum_service_count (services s) room
                          (rw (← h n refl) above))
                  | inr e ↦ rw e (same-IsSafe q.minimum_service_count (services s))
                ])
        ]
    decrease_above-Safe q (err e, s) same h room = same-IsSafe q.minimum_service_count (services s)
    decrease_above-Safe q (panic, s) same h room = same-IsSafe q.minimum_service_count (services s)

    scale_down-Safe :
        (q : QueueWatermark S) (s : S)
        → q.deployer ≡ d
        → IsRoom (services s)
        → Safe q (services s) (scale_down q s).1
    unfolding scale_down
    scale_down-Safe q s same room =
        let k = counting.keeps s in
        subst (λ (n : ℤ). Safe q n (decrease_above q (q.deployer.count s)).1) (rw same k)
          (decrease_above-Safe q (q.deployer.count s) same
            (λ n e. rw same (counting.counts s n (rw same at e) ∙ sym k)) (rw (same, k) room))

    high_mark-Safe :
        (q : QueueWatermark S) (n : ℤ) (s : S)
        → q.deployer ≡ d
        → IsRoom (services s)
        → Safe q (services s) (high_mark q n s).1.1
    unfolding high_mark not_scaled
    high_mark-Safe q n s same room = elim (Bool-cases (leb_ℤ q.high_water_mark n)) [
      | inl over ↦ elim (Bool-cases (leb q.violation_max (suc q.high_violation_count))) [
        | inl full ↦ rw (over, full, scaled-state) (scale_up-Safe q s same room)
        | inr less ↦ rw (over, less) (same-IsSafe q.minimum_service_count (services s))
      ]
      | inr under ↦ rw under (same-IsSafe q.minimum_service_count (services s))
    ]

    low_mark-Safe :
        (q : QueueWatermark S) (n : ℤ) (s : S)
        → q.deployer ≡ d
        → IsRoom (services s)
        → Safe q (services s) (low_mark q n s).1.1
    unfolding low_mark
    low_mark-Safe q n s same room = elim (Bool-cases (leb_ℤ n q.low_water_mark)) [
      | inl under ↦ elim (Bool-cases (leb q.violation_max (suc q.low_violation_count))) [
        | inl full ↦ rw (under, full, scaled-state) (scale_down-Safe q s same room)
        | inr less ↦
            rw (under, less)
              (high_mark-Safe (record q { low_violation_count = suc q.low_violation_count }) n s
                same room)
      ]
      | inr over ↦ rw over (high_mark-Safe q n s same room)
    ]

    -- Counting the queue's items leaves the services alone.
    abbrev KeepsServices : QueueWatermark S → Type 0
    KeepsServices q = (s : S) → services (q.queue.count_items q.queue_name s).1 ≡ services s

    after_items-Safe :
        (q : QueueWatermark S) (r : Result ℤ × S)
        → q.deployer ≡ d
        → IsRoom (services r.1)
        → Safe q (services r.1) (after_items q r).1.1
    unfolding after_items not_scaled
    after_items-Safe q (ok n, s) same room = low_mark-Safe q n s same room
    after_items-Safe q (err e, s) same room = same-IsSafe q.minimum_service_count (services s)
    after_items-Safe q (panic, s) same room = same-IsSafe q.minimum_service_count (services s)

    check_queue-Safe :
        (q : QueueWatermark S) (s : S)
        → q.deployer ≡ d
        → KeepsServices q
        → IsRoom (services s)
        → Safe q (services s) (check_queue q s).1.1
    unfolding check_queue
    check_queue-Safe q s same keep room =
        subst (λ (n : ℤ). Safe q n (check_queue q s).1.1) (keep s)
          (after_items-Safe q (q.queue.count_items q.queue_name s) same (rw (keep s) room))

    after_count-Safe :
        (q : QueueWatermark S) (r : Result ℤ × S)
        → q.deployer ≡ d
        → KeepsServices q
        → IsRoom (services r.1)
        → Safe q (services r.1) (after_count q r).1.1
    unfolding after_count not_scaled
    after_count-Safe q (ok n, s) same keep room =
        elim (Bool-cases (ltb_ℤ n q.minimum_service_count)) [
          | inl few ↦ rw (few, scaled-state) (scale_up-Safe q s same room)
          | inr many ↦ rw many (check_queue-Safe q s same keep room)
        ]
    after_count-Safe q (err e, s) same keep room = same-IsSafe q.minimum_service_count (services s)
    after_count-Safe q (panic, s) same keep room = same-IsSafe q.minimum_service_count (services s)

    after_deploying-Safe :
        (q : QueueWatermark S) (r : Option Bool × S)
        → q.deployer ≡ d
        → KeepsServices q
        → IsRoom (services r.1)
        → Safe q (services r.1) (after_deploying q r).1.1
    unfolding after_deploying not_scaled
    after_deploying-Safe q (some true, s) same keep room =
        same-IsSafe q.minimum_service_count (services s)
    after_deploying-Safe q (some false, s) same keep room =
        elim (Bool-cases (ltb_ℤ (pos 0) q.minimum_service_count)) [
          | inl enforced ↦ rw enforced (
              subst (λ (n : ℤ). Safe q n (after_count q (q.deployer.count s)).1.1)
                (rw same (counting.keeps s))
                (after_count-Safe q (q.deployer.count s) same keep
                  (rw (same, counting.keeps s) room)))
          | inr free ↦ rw free (check_queue-Safe q s same keep room)
        ]
    after_deploying-Safe q (none, s) same keep room =
        same-IsSafe q.minimum_service_count (services s)

    -- Where the deployer counts its services rightly or fails, its reads leave them, and each increase adds one of them or
    -- none and each decrease removes one or none, where asking the queue for its length leaves them
    -- as they are, and where their number and the next one are in the range of an int, a call of
    -- the scaler changes the number of services by one at most, and never from at least the minimum
    -- to below it: whatever the queue holds, whichever call fails and whichever branch is taken.
    pub scale_automatic-IsSafe :
        (q : QueueWatermark S) (s : S)
        → q.deployer ≡ d
        → KeepsServices q
        → IsRoom (services s)
        → IsSafe q.minimum_service_count (services s) (services (scale_automatic q s).1.1)
    unfolding scale_automatic
    scale_automatic-IsSafe q s same keep room =
        subst (λ (n : ℤ). Safe q n (scale_automatic q s).1.1) (rw same (counting.asks s))
          (after_deploying-Safe q (q.deployer.is_deploying s) same keep
            (rw (same, counting.asks s) room))
