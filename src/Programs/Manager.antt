-- ===== src/Programs/Manager.antt =====
-- manager/src/main.go and runtime/base_config.go: how the manager is set up.
pub mod Acts
mod Tests
use multichain_liquidator_bo.Base.{
  ℕ, Bool, true, false, Option, none, some, List, [], ◌∷◌, if◌then◌else◌,
}
use multichain_liquidator_bo.Base.Int.{ℤ, pos}
use multichain_liquidator_bo.Base.Text.{Text, codes, text_eq, to_lower}
use multichain_liquidator_bo.Base.Action.{
  Error, message, Result, ok, err, panic, Action, ◌>>=◌, ◌>>◌, return, fail,
}
use multichain_liquidator_bo.Runtime.Interfaces.{Queuer, Cacher}
use multichain_liquidator_bo.Runtime.Redis.{Conn}
use multichain_liquidator_bo.Runtime.Queue
use multichain_liquidator_bo.Runtime.Cache
use multichain_liquidator_bo.Manager.Interfaces.{Deployer, Scaler}
use multichain_liquidator_bo.Manager.Block.{Manager, new_manager}
use multichain_liquidator_bo.Deployer.Docker.{Docker, DockerClient, new_docker}
use multichain_liquidator_bo.Deployer.Ecs.{EcsClient, AwsEcs, EcsPlatform, new_aws_ecs}
use multichain_liquidator_bo.Scaler.{QueueWatermark, new_queue_watermark}
use multichain_liquidator_bo.Programs.Objects.{
  Service, collector, health_checker, executor, Trio, put_object, beside, queue_beside,
  cache_beside, docker_of, ecs_of, scaler_of,
}

-- `BaseConfig`.
pub record BaseConfig : Type 0 where
  pub log_format : Text
  pub log_level : Text
  pub service_name : Text

-- `Config`.
pub record Config : Type 0 where
  pub base : BaseConfig
  pub chain_id : Text
  pub hive_endpoint : Text
  pub rpc_endpoint : Text
  pub rpc_websocket_endpoint : Text
  pub lcd_endpoint : Text
  pub redis_endpoint : Text
  pub redis_database : ℤ
  pub redis_metrics_database : ℤ
  pub collector_queue_name : Text
  pub collector_items_per_packet : ℤ
  pub health_check_queue_name : Text
  pub executor_queue_name : Text
  pub deployer_type : Text
  pub collector_image : Text
  pub health_checker_image : Text
  pub executor_image : Text
  pub scaling_type : Text
  pub collector_contract : Text
  pub collector_config : Text
  pub health_checker_config : Text
  pub executor_config : Text
  pub metrics_enabled : Bool

-- Foreign code: envconfig, logrus, Redis, Docker, AWS and encoding/json.
pub record Platform (W F : Type 0) : Type 0 where
  pub process_config : Action W Config
  pub parse_level : Text → Result (Unit {0})
  pub dial_queue : Text → ℤ → Action W (Conn W F)
  pub dial_cache : Text → ℤ → Action W (Conn W F)
  pub docker_client_made : Result (Unit {0})
  pub docker_client : DockerClient W
  pub ecs : EcsPlatform W
  pub unmarshal_map : Text → Result (List (Text × Text))
  pub zero_float : F

-- The state below the scalers, and the whole state of the process.
abbrev pub Below : Type 0 → Type 0
Below W = Trio Docker × W

abbrev pub Process : Type 0 → Type 0
Process W = Trio (QueueWatermark (Below W)) × Below W

abbrev service_name_of : Service → Text
service_name_of collector = codes "collector"
service_name_of health_checker = codes "health-checker"
service_name_of executor = codes "executor"

abbrev image_of : Service → Config → Text
image_of collector config = config.collector_image
image_of health_checker config = config.health_checker_image
image_of executor config = config.executor_image

-- `parseConfig`.
parse_config : {W F : Type 0} → Platform W F → Text → Result (List (Text × Text))
parse_config platform input = platform.unmarshal_map input

-- `panic(err)`.
or_panic : {W A : Type 0} → Action W A → Action W A
or_panic m w = let (r, v) = m w in (elim r [ ok a ↦ ok a | err e ↦ panic | panic ↦ panic ], v)

module _ {W : Type 0} where
  -- The scaler of a service, with its marks and its minimum.
  pub make_scaler :
      Queuer (Below W) → Config → Service → Deployer (Below W) → Result (QueueWatermark (Below W))
  make_scaler q config collector dep =
      new_queue_watermark (some q) config.collector_queue_name (some dep) (pos 0) (pos 1) (pos 1)
  make_scaler q config health_checker dep =
      new_queue_watermark (some q) config.health_check_queue_name (some dep) (pos 0) (pos 1) (pos 1)
  make_scaler q config executor dep =
      new_queue_watermark (some q) config.executor_queue_name (some dep) (pos 0) (pos 10000) (pos 1)

  keep_docker : DockerClient W → Service → Result Docker → Action (Below W) (Deployer (Below W))
  keep_docker client s (ok d) (t, w) = (ok (docker_of client s), (put_object s d t, w))
  keep_docker client s (err e) m = (err e, m)
  keep_docker client s panic m = (panic, m)

  keep_scaler : Service → Result (QueueWatermark (Below W)) → Action (Process W) (Unit {0})
  keep_scaler s (ok q) (t, m) = (ok tt, (put_object s q t, m))
  keep_scaler s (err e) p = (err e, p)
  keep_scaler s panic p = (panic, p)

  -- The case of `ScalingTypeWatermark`, and the default.
  pub make_scalers :
      Queuer (Below W)
      → Config
      → (Service → Deployer (Below W))
      → Action (Process W) (List (Text × Scaler (Process W)))
  unfolding make_scaler keep_scaler
  make_scalers q config deployers =
      if text_eq (to_lower config.scaling_type) (codes "watermark")
      then (do
        keep_scaler collector (make_scaler q config collector (deployers collector))
        keep_scaler health_checker (make_scaler q config health_checker (deployers health_checker))
        keep_scaler executor (make_scaler q config executor (deployers executor))
        return (
            (codes "collector", scaler_of collector)
            ∷ (codes "health-check", scaler_of health_checker)
            ∷ (codes "executor", scaler_of executor)
            ∷ []))
      else fail (message "Invalid scaling type specified: ")

module _ {W F : Type 0} (platform : Platform W F) where
  -- `NewDocker` and `NewAWSECS` for a service.
  make_docker : Config → Service → List (Text × Text) → Action (Below W) (Deployer (Below W))
  unfolding keep_docker
  make_docker config s env =
      keep_docker platform.docker_client s
        (new_docker platform.docker_client_made (service_name_of s) (image_of s config) (some env))

  make_ecs : Config → Service → List (Text × Text) → Action (Below W) (Deployer (Below W))
  make_ecs config s env = do
    made ← beside (new_aws_ecs platform.ecs (service_name_of s) (image_of s config) (some env))
    return (ecs_of made.0 made.1)

  -- The three deployers by their type.
  make_deployer : Config → Service → List (Text × Text) → Action (Below W) (Deployer (Below W))
  unfolding make_docker make_ecs
  make_deployer config s env =
      let kind = to_lower config.deployer_type in
      if text_eq kind (codes "docker")
      then make_docker config s env
      else if text_eq kind (codes "aws-ecs")
      then make_ecs config s env
      else fail (message "Invalid deployer type specified: ")

  abbrev chosen : {A : Type 0} → A → A → A → Service → A
  chosen a b c collector = a
  chosen a b c health_checker = b
  chosen a b c executor = c

  -- `main` up to the start of the service: an error is what it hands to `Fatal`.
  pub set_up : Action (Process W) (Manager (Process W) F)
  unfolding parse_config make_deployer make_scalers or_panic
  set_up = do
    config ← beside (beside platform.process_config)
    level ← λ p. (platform.parse_level config.base.log_level, p)
    queue ←
        beside (
          beside
            (Queue.new_redis platform.dial_queue config.redis_endpoint config.redis_database 5))
    cache ← beside (
        beside (
          Cache.new_redis platform.dial_cache platform.zero_float config.redis_endpoint
            config.redis_metrics_database))
    collector_env ← λ p. (parse_config platform config.collector_config, p)
    health_checker_env ← λ p. (parse_config platform config.health_checker_config, p)
    executor_env ← λ p. (parse_config platform config.executor_config, p)
    collector_deployer ← beside (make_deployer config collector collector_env)
    health_checker_deployer ← beside (make_deployer config health_checker health_checker_env)
    executor_deployer ← beside (make_deployer config executor executor_env)
    scalers ←
        make_scalers (queue_beside queue) config
          (chosen collector_deployer health_checker_deployer executor_deployer)
    or_panic (
        new_manager config.chain_id config.rpc_endpoint config.rpc_websocket_endpoint
          config.lcd_endpoint config.hive_endpoint (some (queue_beside (queue_beside queue)))
          (some (cache_beside (cache_beside cache))) config.collector_queue_name
          config.health_check_queue_name config.executor_queue_name (some scalers)
          config.collector_contract config.collector_items_per_packet config.metrics_enabled)
