-- ===== src/Deployer/Ecs/Targets.antt =====
-- What the ECS deployer requests of ECS.
use multichain_liquidator_bo.Base.{
  subst, ◌≡◌, ◌≢◌, refl, ap, ◌∙◌, ◌⊎◌, inl, Bool, true, false, Option, none, some, List, [], ◌∷◌,
}
use multichain_liquidator_bo.Base.Int.{ℤ, pos, inc_int32, dec_int32}
use multichain_liquidator_bo.Base.Text.{Text}
use multichain_liquidator_bo.Base.Action.{Error, Result, ok, err, panic, Action, ◌>>=◌, return}
use multichain_liquidator_bo.Manager.Interfaces.{Deployer}
use multichain_liquidator_bo.Deployer.Docker.{increase_refused, decrease_refused}
use multichain_liquidator_bo.Deployer.Ecs.{
  EcsService, EcsClient, AwsEcs, first_service, own_service, pending_of, is_deploying, request,
  unless_deploying, increase, decrease, remove_all, count, ecs_deployer,
}

-- What ECS says of the service: the desired, running and pending numbers of tasks.
pub record Cluster : Type 0 where
  pub desired : ℤ
  pub running : ℤ
  pub pending : ℤ

-- A listing of services shows the counts of the service, if it lists one at all.
abbrev pub Described : Cluster → Result (List EcsService) → Type 0
Described c (ok []) = Unit
Described c (ok (s ∷ services)) = (s.running_count ≡ c.running) × (s.pending_count ≡ c.pending)
Described c (err e) = Unit
Described c panic = ⊥

-- What a request for `n` tasks does: it is taken, or refused, or an error leaves open which. Tasks are
-- started and stopped later.
abbrev pub Updated : Cluster → ℤ → Result (Unit {0}) → Cluster → Type 0
Updated c n (ok _) c' = c' ≡ record c { desired = n }
Updated c n (err e) c' = (c' ≡ c) ⊎ (c' ≡ record c { desired = n })
Updated c n panic c' = ⊥

-- The behaviour that ECS documents, for one service of one cluster.
pub record EcsLaws {W : Type 0} (client : EcsClient W) (arn name : Text) (view : W → Cluster)
    : Type 0 where
  pub keeps : (w : W) → view (client.describe_services arn (name ∷ []) w).1 ≡ view w
  pub describes : (w : W) → Described (view w) (client.describe_services arn (name ∷ []) w).0
  pub updates :
      (n : ℤ) (w : W)
      → Updated
          (view w)
          n
          (client.update_service arn name n w).0
          (view (client.update_service arn name n w).1)

-- A count changes nothing and gives the number of running tasks, or fails.
abbrev pub Counted : Cluster → Result ℤ → Cluster → Type 0
Counted c (ok n) c' = (n ≡ c.running) × (c' ≡ c)
Counted c (err e) c' = c' ≡ c
Counted c panic c' = ⊥

-- A deployer that asks a cluster for one task more or less than run.
pub record Targeting {S : Type 0} (d : Deployer S) (view : S → Cluster) : Type 0 where
  pub asks : (s : S) → view (d.is_deploying s).1 ≡ view s
  pub counts : (s : S) → Counted (view s) (d.count s).0 (view (d.count s).1)
  pub ups :
      (s : S)
      → Updated (view s) (inc_int32 (view s).running) (d.increase s).0 (view (d.increase s).1)
  pub downs :
      (s : S)
      → Updated (view s) (dec_int32 (view s).running) (d.decrease s).0 (view (d.decrease s).1)
  pub removes : (s : S) → Updated (view s) (pos 0) (d.remove_all s).0 (view (d.remove_all s).1)

module _ {W : Type 0} (client : EcsClient W) (dep : AwsEcs) (view : W → Cluster)
    (laws : EcsLaws client dep.cluster_arn dep.service view) where
  -- What a lookup gives.
  abbrev Found : Cluster → Result EcsService → Type 0
  Found c (ok s) = (s.running_count ≡ c.running) × (s.pending_count ≡ c.pending)
  Found c (err e) = Unit
  Found c panic = ⊥

  own-keeps : (w : W) → view (own_service client dep w).1 ≡ view w
  unfolding own_service
  own-keeps w = go (client.describe_services dep.cluster_arn (dep.service ∷ []) w) (laws.keeps w)
    where
      go :
          (r : Result (List EcsService) × W) → view r.1 ≡ view w → view (first_service r).1 ≡ view w
      go (ok [], v) h = h
      go (ok (s ∷ services), v) h = h
      go (err e, v) h = h
      go (panic, v) h = h

  own-Found : (w : W) → Found (view w) (own_service client dep w).0
  unfolding own_service
  own-Found w =
      go (client.describe_services dep.cluster_arn (dep.service ∷ []) w) (laws.describes w)
    where
      go :
          (r : Result (List EcsService) × W)
          → Described (view w) r.0
          → Found (view w) (first_service r).0
      go (ok [], v) h = tt
      go (ok (s ∷ services), v) h = h
      go (err e, v) h = tt
      go (panic, v) h = h

  deploying-keeps : (w : W) → view (is_deploying client dep w).1 ≡ view w
  unfolding is_deploying
  deploying-keeps w = go (own_service client dep w) (own-keeps w)
    where
      go :
          (r : Result EcsService × W)
          → view r.1 ≡ view w
          → view (pending_of client dep r).1 ≡ view w
      go (ok s, v) h = h
      go (err e, v) h = h
      go (panic, v) h = h

  deploying-answers : (w : W) → (is_deploying client dep w).0 ≢ none
  unfolding is_deploying
  deploying-answers w = go (own_service client dep w) (own-Found w)
    where
      go : (r : Result EcsService × W) → Found (view w) r.0 → (pending_of client dep r).0 ≢ none
      go (ok s, v) h = λ e. cc
      go (err e, v) h = λ e'. cc
      go (panic, v) h = absurd h

  request-Updated :
      (target : EcsService → ℤ) (f : ℤ → ℤ)
      → ((s : EcsService) → target s ≡ f s.running_count)
      → (w : W)
      → Updated
          (view w)
          (f (view w).running)
          (request client dep target w).0
          (view (request client dep target w).1)
  unfolding request
  request-Updated target f same w = go (own_service client dep w) (own-keeps w) (own-Found w)
    where
      go :
          (r : Result EcsService × W)
          → view r.1 ≡ view w
          → Found (view w) r.0
          → let (r', w') =
              ((λ (u : W). r) >>= λ (s : EcsService).
              client.update_service dep.cluster_arn dep.service (target s))
                w in
            Updated (view w) (f (view w).running) r' (view w')
      go (ok s, v) h found =
          let w' = client.update_service dep.cluster_arn dep.service (target s) v in
          subst (λ (c : Cluster). Updated c (f (view w).running) w'.0 (view w'.1)) h
            (subst (λ (n : ℤ). Updated (view v) n w'.0 (view w'.1)) (same s ∙ ap f found.0)
              (laws.updates (target s) v))
      go (err e, v) h found = inl h
      go (panic, v) h found = found

  unless_deploying-Updated :
      (e : Error) (f : ℤ → ℤ) (next : Action W (Unit {0})) (r : Option Bool × W)
      → r.0 ≢ none
      → ((w : W) → Updated (view w) (f (view w).running) (next w).0 (view (next w).1))
      → Updated
          (view r.1)
          (f (view r.1).running)
          (unless_deploying client dep e next r).0
          (view (unless_deploying client dep e next r).1)
  unfolding unless_deploying
  unless_deploying-Updated e f next (some true, w) p h = inl refl
  unless_deploying-Updated e f next (some false, w) p h = h w
  unless_deploying-Updated e f next (none, w) p h = absurd (p refl)

  guarded-Updated :
      (e : Error) (target : EcsService → ℤ) (f : ℤ → ℤ)
      → ((s : EcsService) → target s ≡ f s.running_count)
      → (w : W)
      → let (r, w') =
          unless_deploying client dep e (request client dep target) (is_deploying client dep w) in
        Updated (view w) (f (view w).running) r (view w')
  guarded-Updated e target f same w =
      let r =
        unless_deploying client dep e (request client dep target) (is_deploying client dep w) in
      subst (λ (c : Cluster). Updated c (f c.running) r.0 (view r.1)) (deploying-keeps w)
        (unless_deploying-Updated e f (request client dep target) (is_deploying client dep w)
          (deploying-answers w) (request-Updated target f same))

  count-Counted : (w : W) → Counted (view w) (count client dep w).0 (view (count client dep w).1)
  unfolding count
  count-Counted w = go (own_service client dep w) (own-keeps w) (own-Found w)
    where
      go :
          (r : Result EcsService × W)
          → view r.1 ≡ view w
          → Found (view w) r.0
          → let (r', w') = ((λ (u : W). r) >>= λ (s : EcsService). return s.running_count) w in
            Counted (view w) r' (view w')
      go (ok s, v) h found = (found.0, h)
      go (err e, v) h found = h
      go (panic, v) h found = found

  -- Where ECS behaves as documented, the deployer reads the number of running tasks, and an increase,
  -- a decrease and a removal request one task more than run, one less, and none: the request is taken
  -- when they succeed, and when they fail it is, or nothing has changed. Running and pending tasks are
  -- left to ECS.
  pub ecs_deployer-Targeting : Targeting (ecs_deployer client dep) view
  unfolding ecs_deployer increase decrease remove_all
  ecs_deployer-Targeting = record {
    asks = deploying-keeps;
    counts = count-Counted;
    ups = guarded-Updated increase_refused (λ s. inc_int32 s.running_count) inc_int32 (λ s. refl);
    downs = guarded-Updated decrease_refused (λ s. dec_int32 s.running_count) dec_int32 (λ s. refl);
    removes = request-Updated (λ s. pos 0) (λ n. pos 0) (λ s. refl);
  }
