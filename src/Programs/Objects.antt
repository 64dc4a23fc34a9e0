-- ===== src/Programs/Objects.antt =====
-- The objects that manager/src/main.go makes and that change while it runs: a Docker deployer and a
-- scaler for each service. Their fields are part of the state of the process, behind what the
-- interfaces hide.
use multichain_liquidator_bo.Base.{Option, none, some}
use multichain_liquidator_bo.Base.Action.{panic}
use multichain_liquidator_bo.Runtime.Interfaces.{Queuer, Cacher}
use multichain_liquidator_bo.Manager.Interfaces.{Deployer, Scaler}
use multichain_liquidator_bo.Deployer.Docker.{Docker, DockerClient, docker_deployer}
use multichain_liquidator_bo.Deployer.Ecs.{EcsClient, AwsEcs, ecs_deployer}
use multichain_liquidator_bo.Scaler.{QueueWatermark, watermark_scaler}

pub data Service : Type 0 where
  collector health_checker executor : Service

-- One object for each service; `none` is a nil interface.
pub record Trio (A : Type 0) : Type 0 where
  pub of_collector : Option A
  pub of_health_checker : Option A
  pub of_executor : Option A

module _ {A : Type 0} where
  abbrev pub no_objects : Trio A
  no_objects = record { of_collector = none; of_health_checker = none; of_executor = none }

  abbrev pub object_of : Service → Trio A → Option A
  object_of collector t = t.of_collector
  object_of health_checker t = t.of_health_checker
  object_of executor t = t.of_executor

  abbrev pub put_object : Service → A → Trio A → Trio A
  put_object collector a t = record t { of_collector = some a }
  put_object health_checker a t = record t { of_health_checker = some a }
  put_object executor a t = record t { of_executor = some a }

module _ {A W R : Type 0} where
  -- A method of the object of a service; a call on a nil interface gives `crash`.
  on_found : Service → R → (A × W → R × (A × W)) → Option A → Trio A × W → R × (Trio A × W)
  on_found s crash method none (t, w) = (crash, (t, w))
  on_found s crash method (some a) (t, w) =
      let (r, (a', w')) = method (a, w) in (r, (put_object s a' t, w'))

  pub on_object : Service → R → (A × W → R × (A × W)) → Trio A × W → R × (Trio A × W)
  unfolding on_found
  on_object s crash method (t, w) = on_found s crash method (object_of s t) (t, w)

-- A call that leaves the objects alone.
abbrev pub beside : {O W R : Type 0} → (W → R × W) → O × W → R × (O × W)
beside m (o, w) = let (r, w') = m w in (r, (o, w'))

module _ {O W : Type 0} where
  pub queue_beside : Queuer W → Queuer (O × W)
  queue_beside q = record {
    connect = beside q.connect;
    push = λ k x. beside (q.push k x);
    push_many = λ k xs. beside (q.push_many k xs);
    fetch = λ k. beside (q.fetch k);
    fetch_many = λ k n. beside (q.fetch_many k n);
    count_items = λ k. beside (q.count_items k);
    purge = λ k. beside (q.purge k);
    disconnect = beside q.disconnect;
  }

  pub cache_beside : {F : Type 0} → Cacher W F → Cacher (O × W) F
  cache_beside c = record {
    connect = beside c.connect;
    set = λ k x. beside (c.set k x);
    get_float64 = λ k. beside (c.get_float64 k);
    increment_by = λ k n. beside (c.increment_by k n);
    delete = λ k. beside (c.delete k);
    disconnect = beside c.disconnect;
  }

  -- An ECS deployer has no fields that change.
  pub ecs_of : EcsClient W → AwsEcs → Deployer (O × W)
  ecs_of client dep =
      let d = ecs_deployer client dep in
      record {
        increase = beside d.increase;
        decrease = beside d.decrease;
        remove_all = beside d.remove_all;
        count = beside d.count;
        is_deploying = beside d.is_deploying;
      }

module _ {W : Type 0} where
  pub docker_of : DockerClient W → Service → Deployer (Trio Docker × W)
  unfolding on_object
  docker_of client s =
      let d = docker_deployer client in
      record {
        increase = on_object s panic d.increase;
        decrease = on_object s panic d.decrease;
        remove_all = on_object s panic d.remove_all;
        count = on_object s panic d.count;
        is_deploying = on_object s none d.is_deploying;
      }

  pub scaler_of : Service → Scaler (Trio (QueueWatermark W) × W)
  unfolding on_object
  scaler_of s = record {
    scale_automatic = on_object s panic watermark_scaler.scale_automatic;
    scale_up = on_object s panic watermark_scaler.scale_up;
    scale_down = on_object s panic watermark_scaler.scale_down;
    scale_to_zero = on_object s panic watermark_scaler.scale_to_zero;
    count = on_object s panic watermark_scaler.count;
  }
