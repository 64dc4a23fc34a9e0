-- ===== src/Scaler/Gap.antt =====
-- A scaler whose marks leave no gap acts before long.
use multichain_liquidator_bo.Base.{
  Option, Bool, ℕ, suc, ◌+◌, ◌<◌, ◌≤◌, ◌≡◌, ◌≢◌, refl, subst, sym, ◌⊎◌, inl, inr, List, [], ◌∷◌,
  All, true, false, none, some, arith, length, leb, Bool, if◌then◌else◌,
}
use multichain_liquidator_bo.Base.Int.{ℤ, leb_ℤ}
use multichain_liquidator_bo.Base.Action.{Result, ok, err, panic}
use multichain_liquidator_bo.Manager.Interfaces.{Deployer, up, down, Scaled}
use multichain_liquidator_bo.Scaler.{
  Text, Queuer, QueueWatermark, Step, scaled, not_scaled, high_mark, low_mark, scale_automatic,
  scale_up, scale_down, new_queue_watermark,
}
use multichain_liquidator_bo.Scaler.Sustained.{
  IsSteady, quiet, steady_step, high-IsSteady, low-IsSteady,
}

module _ {S : Type 0} where
  -- What the calls of `ScaleAutomatic` return when they find the states `ss`, one at each block.
  abbrev pub found : List S → QueueWatermark S → List (Result Scaled)
  found [] q = []
  found (s ∷ ss) q = let (r, (q', s')) = scale_automatic q s in r ∷ found ss q'

  -- Nothing is being deployed, there are services enough, and the queue is at one of the marks.
  abbrev pub IsMarked : QueueWatermark S → S → Type 0
  IsMarked q s =
      (current : ℤ) × (items : ℤ) × IsSteady q s current items
      × ((leb_ℤ items q.low_water_mark ≡ true) ⊎ (leb_ℤ q.high_water_mark items ≡ true))

  abbrev with_counts : QueueWatermark S → ℕ → ℕ → QueueWatermark S
  with_counts q h l = record q { high_violation_count = h; low_violation_count = l }

  with_counts-IsMarked :
      (q : QueueWatermark S) (h l : ℕ) (s : S) → IsMarked q s → IsMarked (with_counts q h l) s
  with_counts-IsMarked q h l s (current, items, steady, mark) = (
    current,
    items,
    low-IsSteady s current items (record q { high_violation_count = h }) l
        (high-IsSteady s current items q h steady),
    mark,
  )

  -- A call acts, or it is quiet and one more violation stands counted.
  abbrev Counted : QueueWatermark S → Step S → Type 0
  Counted q (r, (q', s')) =
      (r ≢ quiet)
      ⊎ ((h : ℕ) × (l : ℕ) × (q' ≡ with_counts q h l)
          × (h < q.violation_max)
          × (l < q.violation_max)
          × (suc (q.high_violation_count + q.low_violation_count) ≤ h + l))

  scaled_acts : (q : QueueWatermark S) (r : Result (Unit {0}) × S) → (scaled up q r).0 ≢ quiet
  unfolding scaled
  scaled_acts q (ok a, s) = λ e. cc
  scaled_acts q (err x, s) = λ e. cc
  scaled_acts q (panic, s) = λ e. cc

  scaled_down_acts :
      (q : QueueWatermark S) (r : Result (Unit {0}) × S) → (scaled down q r).0 ≢ quiet
  unfolding scaled
  scaled_down_acts q (ok a, s) = λ e. cc
  scaled_down_acts q (err x, s) = λ e. cc
  scaled_down_acts q (panic, s) = λ e. cc

  high_mark-Counted :
      (q : QueueWatermark S) (h l : ℕ) (items : ℤ) (s : S)
      → h < q.violation_max
      → l < q.violation_max
      → (leb_ℤ q.high_water_mark items ≡ true)
        ⊎ (suc (q.high_violation_count + q.low_violation_count) ≤ h + l)
      → q.high_violation_count + q.low_violation_count ≤ h + l
      → Counted q (high_mark (with_counts q h l) items s)
  unfolding high_mark not_scaled
  high_mark-Counted q h l items s below below' e le =
      go (leb_ℤ q.high_water_mark items) (leb q.violation_max (suc h)) refl refl
    where
      go :
          (b c : Bool)
          → leb_ℤ q.high_water_mark items ≡ b
          → leb q.violation_max (suc h) ≡ c
          → Counted q (
              if b
              then (if c
                  then scaled up (with_counts q 0 l) (scale_up (with_counts q h l) s)
                  else not_scaled none (with_counts q (suc h) l) s)
              else not_scaled none (with_counts q h l) s)
      go true true at_mark over =
          inl (scaled_acts (with_counts q 0 l) (scale_up (with_counts q h l) s))
      go true false at_mark under = inr (suc h, l, refl, ground arith, below', omega arith)
      go false c apart over = inr (h, l, refl, below, below', more e)
        where
          more :
              (leb_ℤ q.high_water_mark items ≡ true)
                ⊎ (suc (q.high_violation_count + q.low_violation_count) ≤ h + l)
              → suc (q.high_violation_count + q.low_violation_count) ≤ h + l
          more (inl at_mark) = absurd (let c : ⊥ = cc in c)
          more (inr f) = f

  low_mark-Counted :
      (q : QueueWatermark S) (items : ℤ) (s : S)
      → q.high_violation_count < q.violation_max
      → q.low_violation_count < q.violation_max
      → (leb_ℤ items q.low_water_mark ≡ true) ⊎ (leb_ℤ q.high_water_mark items ≡ true)
      → Counted q (low_mark q items s)
  unfolding low_mark
  low_mark-Counted q items s below below' mark =
      go (leb_ℤ items q.low_water_mark) (leb q.violation_max (suc q.low_violation_count)) refl refl
    where
      go :
          (b c : Bool)
          → leb_ℤ items q.low_water_mark ≡ b
          → leb q.violation_max (suc q.low_violation_count) ≡ c
          → Counted q (
              if b
              then (if c
                  then scaled down (with_counts q q.high_violation_count 0) (scale_down q s)
                  else high_mark
                      (with_counts q q.high_violation_count (suc q.low_violation_count))
                      items
                      s)
              else high_mark q items s)
      go true true at_mark over =
          inl (scaled_down_acts (with_counts q q.high_violation_count 0) (scale_down q s))
      go true false at_mark under =
          high_mark-Counted q q.high_violation_count (suc q.low_violation_count) items s below
            (ground arith) (inr (omega arith)) (omega arith)
      go false c apart over =
          high_mark-Counted q q.high_violation_count q.low_violation_count items s below below'
            (inl (at_high mark)) (omega arith)
        where
          at_high :
              (leb_ℤ items q.low_water_mark ≡ true) ⊎ (leb_ℤ q.high_water_mark items ≡ true)
              → leb_ℤ q.high_water_mark items ≡ true
          at_high (inl f) = absurd (let c : ⊥ = cc in c)
          at_high (inr f) = f

  scale_automatic-Counted :
      (q : QueueWatermark S) (s : S)
      → q.high_violation_count < q.violation_max
      → q.low_violation_count < q.violation_max
      → IsMarked q s
      → Counted q (scale_automatic q s)
  scale_automatic-Counted q s below below' (current, items, steady, mark) =
      subst (Counted q) (sym (steady_step s current items q steady))
        (low_mark-Counted q items s below below' mark)

  every : {P Q : S → Type 0} → ((s : S) → P s → Q s) → (ss : List S) → All P ss → All Q ss
  every f [] h = h
  every f (s ∷ ss) (h, hs) = (f s h, every f ss hs)

  -- A scaler that at each block finds nothing being deployed, services enough, and its queue at or
  -- below the low mark or at or above the high one, does nothing at no more than
  -- `2 * (violation_max - 1)` blocks in a row, less the violations that are already counted, however
  -- the queue changes between the blocks.
  pub quiet_run_bounded :
      (ss : List S) (q : QueueWatermark S)
      → q.high_violation_count < q.violation_max
      → q.low_violation_count < q.violation_max
      → All (IsMarked q) ss
      → All (λ (r : Result Scaled). r ≡ quiet) (found ss q)
      → length ss + (q.high_violation_count + q.low_violation_count) + 2
        ≤ q.violation_max + q.violation_max
  quiet_run_bounded [] q below below' marked quiets = omega arith
  quiet_run_bounded (s ∷ ss) q below below' (m, ms) (still, quiets) =
      elim (scale_automatic-Counted q s below below' m) [
        | inl acts ↦ absurd (acts still)
        | inr (h, l, e, under, under', more) ↦
            let rest =
              quiet_run_bounded ss (with_counts q h l) under under'
                (every (λ (s : S) (x : IsMarked q s). with_counts-IsMarked q h l s x) ss ms)
                (subst
                  (λ (q : QueueWatermark S). All (λ (r : Result Scaled). r ≡ quiet) (found ss q)) e
                  quiets) in
            omega arith
      ]

  -- What a new scaler starts with.
  abbrev pub Starts : ℤ → ℤ → QueueWatermark S → Type 0
  Starts low high q =
      (q.low_water_mark ≡ low)
      × (q.high_water_mark ≡ high)
      × (q.violation_max ≡ 10)
      × (q.high_violation_count ≡ 0)
      × (q.low_violation_count ≡ 0)

  pub new_queue_watermark-Starts :
      (queue : Option (Queuer S)) (name : Text) (dep : Option (Deployer S)) (low high minimum : ℤ)
      (q : QueueWatermark S)
      → new_queue_watermark queue name dep low high minimum ≡ ok q
      → Starts low high q
  unfolding new_queue_watermark
  new_queue_watermark-Starts none name dep low high minimum q e = cc
  new_queue_watermark-Starts (some x) [] dep low high minimum q e = cc
  new_queue_watermark-Starts (some x) (c ∷ name) none low high minimum q e = cc
  new_queue_watermark-Starts (some x) (c ∷ name) (some dep) low high minimum q e = ground arith
