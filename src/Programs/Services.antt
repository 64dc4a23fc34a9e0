-- ===== src/Programs/Services.antt =====
-- collector/src/main.go and health-checker/src/main.go: how the two services are set up.
use multichain_liquidator_bo.Base.{ℕ, some}
use multichain_liquidator_bo.Base.Int.{ℤ}
use multichain_liquidator_bo.Base.Text.{Text}
use multichain_liquidator_bo.Base.Action.{Result, Action, ◌>>=◌, return}
use multichain_liquidator_bo.Runtime.Interfaces.{Queuer, Cacher}
use multichain_liquidator_bo.Runtime.Redis.{Conn}
use multichain_liquidator_bo.Runtime.Queue
use multichain_liquidator_bo.Runtime.Cache
use multichain_liquidator_bo.Collector.Service.{Collector, new_collector}
use multichain_liquidator_bo.HealthChecker.Service.{HealthChecker, new_health_checker}
use multichain_liquidator_bo.Programs.Manager.{BaseConfig}

-- `Config` of the collector.
pub record CollectorConfig : Type 0 where
  pub base : BaseConfig
  pub chain_id : Text
  pub redis_endpoint : Text
  pub redis_database : ℤ
  pub redis_metrics_database : ℤ
  pub collector_queue_name : Text
  pub health_check_queue_name : Text

-- `Config` of the health checker; the numbers of addresses and of workers are not negative.
pub record HealthCheckerConfig : Type 0 where
  pub base : BaseConfig
  pub redis_endpoint : Text
  pub redis_database : ℤ
  pub redis_metrics_database : ℤ
  pub health_check_queue_name : Text
  pub liquidator_queue_name : Text
  pub hive_endpoint : Text
  pub redbank_address : Text
  pub addresses_per_job : ℕ
  pub jobs_per_worker : ℕ
  pub batch_size : ℤ

-- Foreign code: envconfig for a configuration `C`, logrus and Redis.
pub record ServicePlatform (W F C : Type 0) : Type 0 where
  pub process_config : Action W C
  pub parse_level : Text → Result (Unit {0})
  pub dial_queue : Text → ℤ → Action W (Conn W F)
  pub dial_cache : Text → ℤ → Action W (Conn W F)
  pub zero_float : F

module _ {W F C : Type 0} (platform : ServicePlatform W F C) where
  -- The first lines of either `main`: the queue and the cache.
  connect_redis : BaseConfig → Text → ℤ → ℤ → Action W (Queuer W × Cacher W F)
  connect_redis base endpoint database metrics_database = do
    level ← λ w. (platform.parse_level base.log_level, w)
    queue ← Queue.new_redis platform.dial_queue endpoint database 5
    cache ← Cache.new_redis platform.dial_cache platform.zero_float endpoint metrics_database
    return (queue, cache)

-- Up to the start of the collector.
pub set_up_collector :
    {W F : Type 0} → ServicePlatform W F CollectorConfig → Action W (Collector W F)
unfolding connect_redis
set_up_collector platform = do
  config ← platform.process_config
  redis ←
      connect_redis platform config.base config.redis_endpoint config.redis_database
        config.redis_metrics_database
  λ w. (
    new_collector (some redis.0) (some redis.1) config.collector_queue_name
        config.health_check_queue_name,
    w,
  )

-- Up to the start of the health checker, with the endpoint of Hive.
pub set_up_health_checker :
    {W F : Type 0} → ServicePlatform W F HealthCheckerConfig → Action W (HealthChecker W F × Text)
unfolding connect_redis
set_up_health_checker platform = do
  config ← platform.process_config
  redis ←
      connect_redis platform config.base config.redis_endpoint config.redis_database
        config.redis_metrics_database
  service ← λ w. (
    new_health_checker (some redis.0) (some redis.1) config.health_check_queue_name
        config.liquidator_queue_name config.jobs_per_worker config.batch_size
        config.addresses_per_job config.redbank_address,
    w,
  )
  return (service, config.hive_endpoint)
