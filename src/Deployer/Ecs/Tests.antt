-- ===== src/Deployer/Ecs/Tests.antt =====
-- An ECS that holds the counts of one service, and starts tasks by itself later.
use multichain_liquidator_bo.Base.{zero, suc, ℕ, ◌≡◌, refl, List, [], ◌∷◌}
use multichain_liquidator_bo.Base.Int.{pos}
use multichain_liquidator_bo.Base.Text.{codes}
use multichain_liquidator_bo.Base.Action.{foreign, Result, ok, err}
use multichain_liquidator_bo.Deployer.Ecs.{
  EcsService, EcsClient, AwsEcs, increase, decrease, ecs_deployer,
}
use multichain_liquidator_bo.Deployer.Ecs.Targets.{
  Cluster, EcsLaws, Targeting, ecs_deployer-Targeting,
}
use multichain_liquidator_bo.Deployer.Ecs.Unguarded.{lookup_failure_unguards}

abbrev service_of : Cluster → EcsService
service_of c = record { arn = codes "arn:s"; running_count = c.running; pending_count = c.pending }

abbrev held : EcsClient Cluster
held = record {
  describe_services = λ arn names c. (ok (service_of c ∷ []), c);
  update_service = λ arn name n c. (ok tt, record c { desired = n });
  describe_task_definition = λ name c. (ok name, c);
  register_task_definition = λ definition c. (ok definition.family, c);
  create_service = λ request c. (ok request.name, c);
}

abbrev collectors : AwsEcs
collectors = record {
  service = codes "collector";
  container = codes "image";
  container_env = [];
  cluster_arn = codes "arn:c";
  task_definition_arn = codes "arn:t";
  service_arn = codes "arn:s";
}

held_laws : EcsLaws held (codes "arn:c") (codes "collector") (λ c. c)
held_laws = record { keeps = λ c. refl; describes = λ c. (refl, refl); updates = λ n c. refl }

ecs_deployer-Targeting_example : Targeting (ecs_deployer held collectors) (λ c. c)
ecs_deployer-Targeting_example = ecs_deployer-Targeting held collectors (λ c. c) held_laws

-- A client that fails at every other lookup; the world also counts the lookups.
abbrev flaky_lookup : ℕ → Result (List EcsService)
flaky_lookup zero = err (foreign "timeout")
flaky_lookup (suc n) = ok (record { arn = []; running_count = pos 3; pending_count = pos 2 } ∷ [])

abbrev flaky : EcsClient ℕ
flaky = record {
  describe_services = λ arn names n. (flaky_lookup n, suc n);
  update_service = λ arn name count n. (ok tt, n);
  describe_task_definition = λ name n. (ok name, n);
  register_task_definition = λ definition n. (ok definition.family, n);
  create_service = λ request n. (ok request.name, n);
}

lookup_failure_unguards_example :
    (increase flaky collectors 0 ≡ (ok tt, 2)) × (decrease flaky collectors 0 ≡ (ok tt, 2))
lookup_failure_unguards_example =
    lookup_failure_unguards flaky collectors 0 1 2 (foreign "timeout")
      (record { arn = []; running_count = pos 3; pending_count = pos 2 }) [] refl refl
