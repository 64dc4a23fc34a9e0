-- ===== src/Programs/Manager/Tests.antt =====
-- A configuration, and a scaler made of it over a deployer that always counts three.
use multichain_liquidator_bo.Base.{◌≡◌, refl, true, false, none, some, List, [], ◌∷◌, All}
use multichain_liquidator_bo.Base.Int.{pos}
use multichain_liquidator_bo.Base.Text.{codes}
use multichain_liquidator_bo.Base.Action.{Result, ok}
use multichain_liquidator_bo.Runtime.Interfaces.{Queuer}
use multichain_liquidator_bo.Manager.Interfaces.{Deployer, Scaled}
use multichain_liquidator_bo.Scaler.{QueueWatermark, new_queue_watermark}
use multichain_liquidator_bo.Scaler.Sustained.{quiet}
use multichain_liquidator_bo.Scaler.Gap.{found}
use multichain_liquidator_bo.Programs.Objects.{health_checker, no_objects}
use multichain_liquidator_bo.Programs.Manager.{Below, Config, make_scaler}
use multichain_liquidator_bo.Programs.Manager.Acts.{IsQuietBlock, configured_scaler_acts}

abbrev config : Config
config = record {
  base = record {
    log_format = codes "json";
    log_level = codes "info";
    service_name = codes "manager";
  };
  chain_id = codes "osmosis-1";
  hive_endpoint = codes "hive";
  rpc_endpoint = codes "rpc";
  rpc_websocket_endpoint = codes "ws";
  lcd_endpoint = codes "lcd";
  redis_endpoint = codes "redis";
  redis_database = pos 0;
  redis_metrics_database = pos 1;
  collector_queue_name = codes "collect";
  collector_items_per_packet = pos 1000;
  health_check_queue_name = codes "health";
  executor_queue_name = codes "execute";
  deployer_type = codes "Docker";
  collector_image = codes "collector:1";
  health_checker_image = codes "checker:1";
  executor_image = codes "executor:1";
  scaling_type = codes "watermark";
  collector_contract = codes "redbank";
  collector_config = codes "{}";
  health_checker_config = codes "{}";
  executor_config = codes "{}";
  metrics_enabled = true;
}

abbrev State : Type 0
State = Below (Unit {0})

abbrev queue : Queuer State
queue = record {
  connect = λ s. (ok tt, s);
  push = λ k x s. (ok tt, s);
  push_many = λ k xs s. (ok tt, s);
  fetch = λ k s. (ok none, s);
  fetch_many = λ k n s. (ok [], s);
  count_items = λ k s. (ok (pos 4), s);
  purge = λ k s. (ok tt, s);
  disconnect = λ s. (ok tt, s);
}

abbrev three : Deployer State
three = record {
  increase = λ s. (ok tt, s);
  decrease = λ s. (ok tt, s);
  remove_all = λ s. (ok tt, s);
  count = λ s. (ok (pos 3), s);
  is_deploying = λ s. (some false, s);
}

abbrev scaler : QueueWatermark State
scaler = record {
  queue = queue;
  queue_name = codes "health";
  deployer = three;
  high_violation_count = 0;
  low_violation_count = 0;
  violation_max = 10;
  low_water_mark = pos 0;
  high_water_mark = pos 1;
  minimum_service_count = pos 1;
}

made : make_scaler queue config health_checker three ≡ ok scaler
unfolding make_scaler new_queue_watermark
made = refl

abbrev state : State
state = (no_objects, tt)

abbrev blocks : List State
blocks =
    state ∷ state ∷ state ∷ state ∷ state ∷ state ∷ state ∷ state ∷ state ∷ state ∷ state ∷ state
    ∷ state ∷ state ∷ state ∷ state ∷ state ∷ state ∷ state ∷ []

quiet_block : IsQuietBlock scaler state
quiet_block = (pos 3, 4, record { settled = refl; counted = refl; enough = refl; queued = refl })

quiet_blocks : (ss : List State) → All (λ (s : State). s ≡ state) ss → All (IsQuietBlock scaler) ss
quiet_blocks [] h = tt
quiet_blocks (s ∷ ss) (h, hs) = (rw h quiet_block, quiet_blocks ss hs)

configured_scaler_acts_example : ¬ All (λ (r : Result Scaled). r ≡ quiet) (found blocks scaler)
configured_scaler_acts_example =
    configured_scaler_acts queue config health_checker three scaler blocks (λ e. cc) made refl
      (quiet_blocks blocks (
        refl,
        (
          refl,
          (
            refl,
            (
              refl,
              (
                refl,
                (
                  refl,
                  (
                    refl,
                    (
                      refl,
                      (
                        refl,
                        (
                          refl,
                          (
                            refl,
                            (refl, (refl, (refl, (refl, (refl, (refl, (refl, (refl, tt)))))))),
                          ),
                        ),
                      ),
                    ),
                  ),
                ),
              ),
            ),
          ),
        ),
      ))
