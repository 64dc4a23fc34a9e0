-- ===== src/Deployer/Ecs.antt =====
-- manager/src/deployer/aws_ecs.go: instances as tasks of a service of AWS ECS.
pub mod Targets
pub mod Unguarded
mod Tests
use multichain_liquidator_bo.Base.{
  ℕ, ◌+◌, Bool, true, false, not, Option, none, some, List, [], ◌∷◌, if◌then◌else◌,
}
use multichain_liquidator_bo.Base.Int.{ℤ, pos, to_word, of_word, half32, inc_int32, dec_int32}
use multichain_liquidator_bo.Base.Text.{Text, codes}
use multichain_liquidator_bo.Base.Action.{
  Error, message, Result, ok, err, panic, Action, ◌>>=◌, ◌>>◌, return, fail,
}
use multichain_liquidator_bo.Manager.Interfaces.{Deployer}
use multichain_liquidator_bo.Deployer.Docker.{equal_ℤ, increase_refused, decrease_refused}

-- What ECS tells of a service: its ARN, as `aws.ToString` reads it, and two counts of type int32.
pub record EcsService : Type 0 where
  pub arn : Text
  pub running_count : ℤ
  pub pending_count : ℤ

-- The fields of the request that registers a task definition that are not constants. `cpu` and
-- `memory` are sent as int32 and as decimal texts.
pub record TaskDefinition : Type 0 where
  pub family : Text
  pub image : Text
  pub container_cpu : ℤ
  pub container_memory : ℤ
  pub cpu : ℤ
  pub memory : ℤ
  pub environment : List (Text × Text)
  pub log_region : Text
  pub execution_role_arn : Text

-- The fields of the request that creates a service that are not constants.
pub record ServiceRequest : Type 0 where
  pub name : Text
  pub cluster : Text
  pub desired_count : ℤ
  pub task_definition : Text
  pub subnets : List Text
  pub security_groups : List Text

-- The client of ECS (aws-sdk-go-v2), which is not in the repository; a call that takes more than ten
-- seconds is an error. A call that gives a task definition or a service gives its ARN.
pub record EcsClient (W : Type 0) : Type 0 where
  pub describe_services : Text → List Text → Action W (List EcsService)
  pub update_service : Text → Text → ℤ → Action W (Unit {0})
  pub describe_task_definition : Text → Action W Text
  pub register_task_definition : TaskDefinition → Action W Text
  pub create_service : ServiceRequest → Action W Text

-- `awsECSConfig`.
pub record EcsConfig : Type 0 where
  pub cluster_arn : Text
  pub cpu_units : ℤ
  pub memory_mb : ℤ
  pub subnets : List Text
  pub security_groups : List Text
  pub role_arn : Text
  pub region : Text

-- Foreign code: the environment (envconfig), and the client made of AWS's own configuration.
pub record EcsPlatform (W : Type 0) : Type 0 where
  pub process_config : Action W EcsConfig
  pub load_client : Action W (EcsClient W)

-- `AWSECS`, but for its client.
pub record AwsEcs : Type 0 where
  pub service : Text
  pub container : Text
  pub container_env : List (Text × Text)
  pub cluster_arn : Text
  pub task_definition_arn : Text
  pub service_arn : Text

-- Go's conversion of an int to int32.
to_int32 : ℤ → ℤ
to_int32 a = of_word half32 (to_word (half32 + half32) a)

abbrev pub not_found : Error
not_found = message "unable to find service in cluster"

-- A nil map is an empty one.
env_or_empty : Option (List (Text × Text)) → List (Text × Text)
env_or_empty none = []
env_or_empty (some env) = env

module _ {W : Type 0} where
  -- The first service that is listed, if any. An error of the call is replaced.
  first_service : Result (List EcsService) × W → Result EcsService × W
  first_service (ok [], w) = (err not_found, w)
  first_service (ok (s ∷ services), w) = (ok s, w)
  first_service (err e, w) = (err not_found, w)
  first_service (panic, w) = (panic, w)

  -- On any error of `get`, `create` is tried.
  or_create : {A B : Type 0} → (A → B) → Action W B → Result A × W → Result B × W
  or_create read create (ok a, w) = (ok (read a), w)
  or_create read create (err e, w) = create w
  or_create read create (panic, w) = (panic, w)

  or_message : {A : Type 0} → Error → Result A × W → Result A × W
  or_message e (ok a, w) = (ok a, w)
  or_message e (err _, w) = (err e, w)
  or_message e (panic, w) = (panic, w)

module _ {W : Type 0} (client : EcsClient W) where
  pub get_service : Text → Text → Action W EcsService
  unfolding first_service
  get_service cluster name w = first_service (client.describe_services cluster (name ∷ []) w)

  get_or_create_task_definition :
      Text → Text → ℤ → ℤ → List (Text × Text) → Text → Text → Action W Text
  unfolding or_create to_int32
  get_or_create_task_definition service container cpu_units memory_mb env role_arn region w =
      or_create (λ (arn : Text). arn)
        (client.register_task_definition (record {
          family = service;
          image = container;
          container_cpu = to_int32 cpu_units;
          container_memory = to_int32 memory_mb;
          cpu = cpu_units;
          memory = memory_mb;
          environment = env;
          log_region = region;
          execution_role_arn = role_arn;
        }))
        (client.describe_task_definition service w)

  get_or_create_service : Text → Text → List Text → List Text → Text → Action W Text
  unfolding or_create get_service
  get_or_create_service cluster name subnets security_groups task_definition w =
      or_create (λ (s : EcsService). s.arn)
        (client.create_service (record {
          name = name;
          cluster = cluster;
          desired_count = pos 0;
          task_definition = task_definition;
          subnets = subnets;
          security_groups = security_groups;
        }))
        (get_service cluster name w)

-- `NewAWSECS`: the client and the deployer. The error about the environment also shows its cause.
pub new_aws_ecs :
    {W : Type 0}
    → EcsPlatform W
    → Text
    → Text
    → Option (List (Text × Text))
    → Action W (EcsClient W × AwsEcs)
unfolding or_message env_or_empty get_or_create_task_definition get_or_create_service
new_aws_ecs {W} platform service container env = do
  config ← (λ (w : W).
      or_message (message "unable to process AWS ECS config") (platform.process_config w))
  client ← platform.load_client
  task_definition ←
      get_or_create_task_definition client service container config.cpu_units config.memory_mb
        (env_or_empty env) config.role_arn config.region
  arn ←
      get_or_create_service client config.cluster_arn service config.subnets config.security_groups
        task_definition
  return (
    client,
    record {
      service = service;
      container = container;
      container_env = env_or_empty env;
      cluster_arn = config.cluster_arn;
      task_definition_arn = task_definition;
      service_arn = arn;
    },
  )

module _ {W : Type 0} (client : EcsClient W) (dep : AwsEcs) where
  -- An error counts as no deployment.
  pending_of : Result EcsService × W → Option Bool × W
  unfolding equal_ℤ
  pending_of (ok s, w) = (some (not (equal_ℤ s.pending_count (pos 0))), w)
  pending_of (err e, w) = (some false, w)
  pending_of (panic, w) = (none, w)

  own_service : Action W EcsService
  unfolding get_service
  own_service = get_service client dep.cluster_arn dep.service

  pub is_deploying : W → Option Bool × W
  unfolding pending_of own_service
  is_deploying w = pending_of (own_service w)

  -- The service is looked up and a number of tasks requested.
  request : (EcsService → ℤ) → Action W (Unit {0})
  unfolding own_service
  request target = do
    service ← own_service
    client.update_service dep.cluster_arn dep.service (target service)

  -- The guard of `Increase` and `Decrease`.
  unless_deploying : Error → Action W (Unit {0}) → Option Bool × W → Result (Unit {0}) × W
  unless_deploying refused next (some true, w) = (err refused, w)
  unless_deploying refused next (some false, w) = next w
  unless_deploying refused next (none, w) = (panic, w)

  pub increase : Action W (Unit {0})
  unfolding is_deploying unless_deploying request
  increase w =
      unless_deploying increase_refused (request (λ s. inc_int32 s.running_count)) (is_deploying w)

  pub decrease : Action W (Unit {0})
  unfolding is_deploying unless_deploying request
  decrease w =
      unless_deploying decrease_refused (request (λ s. dec_int32 s.running_count)) (is_deploying w)

  pub remove_all : Action W (Unit {0})
  unfolding request
  remove_all = request (λ s. pos 0)

  pub count : Action W ℤ
  unfolding own_service
  count = do service ← own_service; return service.running_count

  unfoldable pub ecs_deployer : Deployer W
  unfolding increase decrease remove_all count is_deploying
  ecs_deployer = record {
    increase = increase;
    decrease = decrease;
    remove_all = remove_all;
    count = count;
    is_deploying = is_deploying;
  }
