-- ===== src/Deployer/Ecs/Unguarded.antt =====
-- What the ECS deployer does when it cannot look its service up.
use multichain_liquidator_bo.Base.{◌≡◌, refl, ap, ◌∙◌, some, false, List, [], ◌∷◌}
use multichain_liquidator_bo.Base.Int.{ℤ, inc_int32, dec_int32}
use multichain_liquidator_bo.Base.Action.{Error, Result, ok, err, ◌>>=◌}
use multichain_liquidator_bo.Deployer.Docker.{increase_refused, decrease_refused}
use multichain_liquidator_bo.Deployer.Ecs.{
  EcsService, EcsClient, AwsEcs, own_service, is_deploying, request, unless_deploying, increase,
  decrease,
}

module _ {W : Type 0} (client : EcsClient W) (dep : AwsEcs) where
  own_listed :
      (w v : W) (s : EcsService) (services : List EcsService)
      → client.describe_services dep.cluster_arn (dep.service ∷ []) w ≡ (ok (s ∷ services), v)
      → own_service client dep w ≡ (ok s, v)
  unfolding own_service
  own_listed w v s services h = rw h refl

  failed_is_settled :
      (w v : W) (e : Error)
      → client.describe_services dep.cluster_arn (dep.service ∷ []) w ≡ (err e, v)
      → is_deploying client dep w ≡ (some false, v)
  unfolding is_deploying
  failed_is_settled w v e h = rw h refl

  -- An accepted lookup sends the request.
  request_found :
      (target : EcsService → ℤ) (v u : W) (s : EcsService)
      → own_service client dep v ≡ (ok s, u)
      → request client dep target v ≡ client.update_service dep.cluster_arn dep.service (target s) u
  unfolding request
  request_found target v u s own =
      ap
        (λ (r : Result EcsService × W).
          ((λ (w : W). r) >>= λ (s : EcsService).
          client.update_service dep.cluster_arn dep.service (target s))
            v)
        own

  settled_asks :
      (e : Error) (target : EcsService → ℤ) (w v u : W) (s : EcsService)
      → is_deploying client dep w ≡ (some false, v)
      → own_service client dep v ≡ (ok s, u)
      → unless_deploying client dep e (request client dep target) (is_deploying client dep w)
        ≡ client.update_service dep.cluster_arn dep.service (target s) u
  unfolding unless_deploying
  settled_asks e target w v u s settled own =
      ap (unless_deploying client dep e (request client dep target)) settled
      ∙ request_found target v u s own

  -- A lookup that fails counts as no deployment: if the lookup behind the guard fails and the next
  -- one lists the service, an increase and a decrease send their request, however many tasks are
  -- pending.
  pub lookup_failure_unguards :
      (w v u : W) (e : Error) (s : EcsService) (services : List EcsService)
      → client.describe_services dep.cluster_arn (dep.service ∷ []) w ≡ (err e, v)
      → client.describe_services dep.cluster_arn (dep.service ∷ []) v ≡ (ok (s ∷ services), u)
      → (increase client dep w
          ≡ client.update_service dep.cluster_arn dep.service (inc_int32 s.running_count) u)
        × (decrease client dep w
            ≡ client.update_service dep.cluster_arn dep.service (dec_int32 s.running_count) u)
  unfolding increase decrease
  lookup_failure_unguards w v u e s services failed listed =
      let settled = failed_is_settled w v e failed in
      let own = own_listed v u s services listed in
      (
        settled_asks increase_refused (λ s. inc_int32 s.running_count) w v u s settled own,
        settled_asks decrease_refused (λ s. dec_int32 s.running_count) w v u s settled own,
      )
