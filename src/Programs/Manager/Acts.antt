-- ===== src/Programs/Manager/Acts.antt =====
-- How soon the scalers that main.go configures act.
use multichain_liquidator_bo.Base.{
  ℕ, zero, suc, ◌≡◌, ◌≢◌, refl, ◌⊎◌, inl, inr, List, [], ◌∷◌, All, length, some, arith, true,
}
use multichain_liquidator_bo.Base.Int.{ℤ, pos, leb_ℤ}
use multichain_liquidator_bo.Base.Action.{Result, ok}
use multichain_liquidator_bo.Runtime.Interfaces.{Queuer}
use multichain_liquidator_bo.Manager.Interfaces.{Deployer, Scaled}
use multichain_liquidator_bo.Scaler.{QueueWatermark}
use multichain_liquidator_bo.Scaler.Sustained.{IsSteady, quiet}
use multichain_liquidator_bo.Scaler.Gap.{
  IsMarked, found, quiet_run_bounded, Starts, new_queue_watermark-Starts,
}
use multichain_liquidator_bo.Programs.Objects.{Service, collector, health_checker, executor}
use multichain_liquidator_bo.Programs.Manager.{Below, Config, make_scaler}

module _ {W : Type 0} where
  -- Nothing is being deployed, there are services enough, and the queue tells its length.
  abbrev pub IsQuietBlock : QueueWatermark (Below W) → Below W → Type 0
  IsQuietBlock q s = (current : ℤ) × (n : ℕ) × IsSteady q s current (pos n)

  make_scaler-Starts :
      (queue : Queuer (Below W)) (config : Config) (s : Service) (dep : Deployer (Below W))
      (q : QueueWatermark (Below W))
      → s ≢ executor
      → make_scaler queue config s dep ≡ ok q
      → Starts (pos 0) (pos 1) q
  unfolding make_scaler
  make_scaler-Starts queue config collector dep q h e =
      new_queue_watermark-Starts (some queue) config.collector_queue_name (some dep) (pos 0) (pos 1)
        (pos 1) q e
  make_scaler-Starts queue config health_checker dep q h e =
      new_queue_watermark-Starts (some queue) config.health_check_queue_name (some dep) (pos 0)
        (pos 1) (pos 1) q e
  make_scaler-Starts queue config executor dep q h e = absurd (h refl)

  -- A queue of whole length is at one of the marks.
  blocks-IsMarked :
      (q : QueueWatermark (Below W)) (ss : List (Below W))
      → Starts (pos 0) (pos 1) q
      → All (IsQuietBlock q) ss
      → All (IsMarked q) ss
  blocks-IsMarked q [] m h = tt
  blocks-IsMarked q (s ∷ ss) m ((current, n, steady), hs) =
      ((current, pos n, steady, at_mark n), blocks-IsMarked q ss m hs)
    where
      at_mark :
          (n : ℕ)
          → (leb_ℤ (pos n) q.low_water_mark ≡ true) ⊎ (leb_ℤ q.high_water_mark (pos n) ≡ true)
      at_mark zero = inl (rw m.0 refl)
      at_mark (suc n) = inr (rw m.1 (ground arith))

  -- The scalers that the program makes for the collectors and the health checkers act before long:
  -- from the first block on, of nineteen blocks in a row at which nothing is being deployed, there are
  -- services enough and the queue tells its length, whatever it is and however it changes, they do not
  -- pass all without calling for a change.
  pub configured_scaler_acts :
      (queue : Queuer (Below W)) (config : Config) (s : Service) (dep : Deployer (Below W))
      (q : QueueWatermark (Below W)) (ss : List (Below W))
      → s ≢ executor
      → make_scaler queue config s dep ≡ ok q
      → length ss ≡ 19
      → All (IsQuietBlock q) ss
      → ¬ All (λ (r : Result Scaled). r ≡ quiet) (found ss q)
  configured_scaler_acts queue config s dep q ss h e n blocks quiets =
      let m = make_scaler-Starts queue config s dep q h e in
      let max = m.2 in
      let high = m.3 in
      let low = m.4 in
      let bound =
        quiet_run_bounded ss q (omega arith) (omega arith) (blocks-IsMarked q ss m blocks) quiets in
      omega arith
