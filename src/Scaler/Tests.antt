-- ===== src/Scaler/Tests.antt =====
-- A scaler over the mock deployer and a queue that holds the same number of items all the time.
use multichain_liquidator_bo.Base.{ℕ, ◌+◌, ◌≤◌, ◌≡◌, refl, none, [], ◌∷◌, arith, All, inr}
use multichain_liquidator_bo.Base.Int.{pos}
use multichain_liquidator_bo.Base.Action.{Result, ok}
use multichain_liquidator_bo.Runtime.Interfaces.{Queuer}
use multichain_liquidator_bo.Deployer.Mock.{Mock, mock_deployer}
use multichain_liquidator_bo.Manager.Interfaces.{up, down, Scaled}
use multichain_liquidator_bo.Scaler.{QueueWatermark, scale_automatic, scale_down, scaled}
use multichain_liquidator_bo.Scaler.Bounds.{IsBounded, scale_automatic-IsBounded}
use multichain_liquidator_bo.Scaler.Contract.{IsSafe, mock-Counting}
use multichain_liquidator_bo.Scaler.Floor.{scale_automatic-IsSafe}
use multichain_liquidator_bo.Scaler.Sustained.{
  quiet, calls, quiets, IsSteady, busy_scales, idle_scales,
}
use multichain_liquidator_bo.Scaler.Gap.{found, quiet_run_bounded}

abbrev State : Type 0
State = Mock × Unit {0}

abbrev fixed_queue : ℕ → Queuer State
fixed_queue n = record {
  connect = λ s. (ok tt, s);
  push = λ k x s. (ok tt, s);
  push_many = λ k xs s. (ok tt, s);
  fetch = λ k s. (ok none, s);
  fetch_many = λ k m s. (ok [], s);
  count_items = λ k s. (ok (pos n), s);
  purge = λ k s. (ok tt, s);
  disconnect = λ s. (ok tt, s);
}

abbrev fixed_scaler : ℕ → QueueWatermark State
fixed_scaler n = record {
  queue = fixed_queue n;
  queue_name = b'q' ∷ [];
  deployer = mock_deployer;
  high_violation_count = 0;
  low_violation_count = 0;
  violation_max = 10;
  low_water_mark = pos 5;
  high_water_mark = pos 20;
  minimum_service_count = pos 1;
}

abbrev three : State
three = (pos 3, tt)

fixed-IsSteady : (n : ℕ) → IsSteady (fixed_scaler n) three (pos 3) (pos n)
unfolding mock_deployer
fixed-IsSteady n = record { settled = refl; counted = refl; enough = refl; queued = refl }

fixed-IsBounded : (n : ℕ) → IsBounded (fixed_scaler n)
fixed-IsBounded n = record { max_ten = refl; low_below = omega arith; high_below = omega arith }

scale_automatic-IsBounded_example : IsBounded (scale_automatic (fixed_scaler 50) three).1.0
scale_automatic-IsBounded_example =
    scale_automatic-IsBounded (fixed_scaler 50) three (fixed-IsBounded 50)

scale_automatic-IsSafe_example :
    IsSafe (pos 1) (pos 3) (scale_automatic (fixed_scaler 2) three).1.1.0
scale_automatic-IsSafe_example =
    scale_automatic-IsSafe (λ s. s.0) mock_deployer mock-Counting (fixed_scaler 2) three refl
      (λ s. refl) (omega arith, omega arith)

busy_scales_example :
    let last = record (fixed_scaler 50) { high_violation_count = 9 } in
    (calls 9 (fixed_scaler 50) three ≡ (quiets 9, (last, three)))
    × (scale_automatic last three
        ≡ scaled up
            (record (fixed_scaler 50) { high_violation_count = 0 })
            (mock_deployer.increase three))
busy_scales_example =
    busy_scales three (pos 3) (pos 50) 9 (fixed_scaler 50) (fixed-IsSteady 50) refl refl refl

idle_scales_example :
    let last = record (fixed_scaler 2) { low_violation_count = 9 } in
    (calls 9 (fixed_scaler 2) three ≡ (quiets 9, (last, three)))
    × (scale_automatic last three
        ≡ scaled down
            (record (fixed_scaler 2) { low_violation_count = 0 })
            (scale_down (fixed_scaler 2) three))
idle_scales_example =
    idle_scales three (pos 3) (pos 2) 9 (fixed_scaler 2) (fixed-IsSteady 2) refl refl refl

quiet_twice : All (λ (r : Result Scaled). r ≡ quiet) (found (three ∷ three ∷ []) (fixed_scaler 50))
unfolding scale_automatic mock_deployer
quiet_twice = (refl, (refl, tt))

quiet_run_bounded_example : 2 + (0 + 0) + 2 ≤ 10 + 10
quiet_run_bounded_example =
    quiet_run_bounded (three ∷ three ∷ []) (fixed_scaler 50) (omega arith) (omega arith)
      (
        (pos 3, pos 50, fixed-IsSteady 50, inr refl),
        ((pos 3, pos 50, fixed-IsSteady 50, inr refl), tt),
      )
      quiet_twice
