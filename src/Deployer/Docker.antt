-- ===== src/Deployer/Docker.antt =====
-- manager/src/deployer/docker.go: instances as Docker containers.
pub mod Listing
pub mod Stuck
pub mod Laws
mod Reads
pub mod Counts
mod Tests
use multichain_liquidator_bo.Base.{
  ℕ, suc, Bool, true, false, not, Option, none, some, List, [], ◌∷◌, ◌++◌, map, ◌==◌, ◌&&◌, leb,
  length, if◌then◌else◌,
}
use multichain_liquidator_bo.Base.Int.{ℤ, pos, negsuc, inc_int, dec_int}
use multichain_liquidator_bo.Base.Text.{Text, codes, has_prefix}
use multichain_liquidator_bo.Base.Action.{
  Error, message, Result, ok, err, panic, Action, ◌>>=◌, ◌>>◌, return, fail,
}
use multichain_liquidator_bo.Manager.Interfaces.{Deployer}

pub record Container : Type 0 where
  pub id : Text
  pub names : List Text

-- The Docker client and the source of fresh names (github.com/docker/docker, google/uuid), which are
-- not in the repository. `create` is given image, environment and name, and returns the id.
pub record DockerClient (W : Type 0) : Type 0 where
  pub list : Action W (List Container)
  pub create : Text → List Text → Text → Action W Text
  pub start : Text → Action W (Unit {0})
  pub remove : Text → Action W (Unit {0})
  pub new_uuid : W → Text × W

-- The fields of `Docker` that its methods use. The environment is listed in the order in which Go
-- ranges over the map.
pub record Docker : Type 0 where
  pub service : Text
  pub container : Text
  pub container_env : List (Text × Text)
  pub requested_service_count : ℤ

-- `NewDocker`, given what making the client returned; a nil map is an empty one.
pub new_docker : Result (Unit {0}) → Text → Text → Option (List (Text × Text)) → Result Docker
new_docker (ok _) service container none = ok (record {
  service = service;
  container = container;
  container_env = [];
  requested_service_count = pos 0;
})
new_docker (ok _) service container (some env) = ok (record {
  service = service;
  container = container;
  container_env = env;
  requested_service_count = pos 0;
})
new_docker (err e) service container env = err e
new_docker panic service container env = panic

-- `"%s=%s"`.
pub env_entry : Text × Text → Text
env_entry (key, value) = key ++ b'=' ∷ value

-- The inner loop over a container's names: `name[1:]` panics at an empty name, here `none`, and the
-- loop stops at the first name that matches.
has_name : Text → List Text → Option Bool
has_name service [] = some false
has_name service ([] ∷ names) = none
has_name service ((c ∷ name) ∷ names) =
    let rest = has_name service names in if has_prefix name service then some true else rest

-- A container is kept or passed over, in front of what the rest of the loop keeps.
keep : Bool → Container → Option (List Container) → Option (List Container)
keep b c none = none
keep true c (some cs) = some (c ∷ cs)
keep false c (some cs) = some cs

pub select : Text → List Container → Option (List Container)
unfolding has_name keep
select service [] = some []
select service (c ∷ cs) =
    let rest = select service cs in
    elim (has_name service c.names) [ none ↦ none | some b ↦ keep b c rest ]

unfoldable pub equal_ℤ : ℤ → ℤ → Bool
equal_ℤ (pos a) (pos b) = a == b
equal_ℤ (negsuc a) (negsuc b) = a == b
equal_ℤ _ _ = false

abbrev pub increase_refused : Error
increase_refused = message "unable to increase while deployment is in progress"

abbrev pub decrease_refused : Error
decrease_refused = message "unable to decrease while deployment is in progress"

module _ {W : Type 0} (client : DockerClient W) where
  selected : Text → Result (List Container) × W → Result (List Container) × W
  unfolding select
  selected service (ok cs, w) = elim (select service cs) [ none ↦ (panic, w) | some k ↦ (ok k, w) ]
  selected service (err e, w) = (err e, w)
  selected service (panic, w) = (panic, w)

  -- `getRunningServiceContainers`, which asks for stopped containers too.
  pub get_running_service_containers : Text → Action W (List Container)
  unfolding selected
  get_running_service_containers service w = selected service (client.list w)

  pub count : Docker → Action W ℤ
  unfolding get_running_service_containers
  count dep = do cs ← get_running_service_containers dep.service; return (pos (length cs))

  differs : ℤ → Result ℤ × W → Option Bool × W
  unfolding equal_ℤ
  differs requested (ok n, w) = (some (not (equal_ℤ n requested)), w)
  differs requested (err e, w) = (some false, w)
  differs requested (panic, w) = (none, w)

  pub is_deploying : Docker → W → Option Bool × W
  unfolding differs count
  is_deploying dep w = differs dep.requested_service_count (count dep w)

  -- The container is made and started under a fresh name.
  pub launch : Docker → Action W (Unit {0})
  unfolding env_entry
  launch dep w =
      let (uuid, w') = client.new_uuid w in
      (do
        id ←
            client.create dep.container (map env_entry dep.container_env)
              (dep.service ++ b'.' ∷ uuid)
        client.start id)
        w'

  increase_settled : Docker → Option Bool × W → Result (Unit {0}) × (Docker × W)
  unfolding launch
  increase_settled dep (some true, w) = (err increase_refused, (dep, w))
  increase_settled dep (some false, w) =
      let dep' = record dep { requested_service_count = inc_int dep.requested_service_count } in
      let (r, w') = launch dep' w in (r, (dep', w'))
  increase_settled dep (none, w) = (panic, (dep, w))

  pub increase : Action (Docker × W) (Unit {0})
  unfolding increase_settled is_deploying
  increase (dep, w) = increase_settled dep (is_deploying dep w)

  -- The first container goes, and the request is lowered before it is removed.
  remove_first : Docker → Result (List Container) × W → Result (Unit {0}) × (Docker × W)
  remove_first dep (ok [], w) = (ok tt, (dep, w))
  remove_first dep (ok (c ∷ cs), w) =
      let dep' = record dep { requested_service_count = dec_int dep.requested_service_count } in
      let (r, w') = client.remove c.id w in (r, (dep', w'))
  remove_first dep (err e, w) = (err e, (dep, w))
  remove_first dep (panic, w) = (panic, (dep, w))

  decrease_settled : Docker → Option Bool × W → Result (Unit {0}) × (Docker × W)
  unfolding remove_first get_running_service_containers
  decrease_settled dep (some true, w) = (err decrease_refused, (dep, w))
  decrease_settled dep (some false, w) =
      remove_first dep (get_running_service_containers dep.service w)
  decrease_settled dep (none, w) = (panic, (dep, w))

  pub decrease : Action (Docker × W) (Unit {0})
  unfolding decrease_settled is_deploying
  decrease (dep, w) = decrease_settled dep (is_deploying dep w)

  -- The loop of `RemoveAll`, which stops at the first error.
  pub remove_each : List Container → Action W (Unit {0})
  remove_each [] = return tt
  remove_each (c ∷ cs) = client.remove c.id >> remove_each cs

  pub remove_all : Action (Docker × W) (Unit {0})
  unfolding remove_each get_running_service_containers
  remove_all (dep, w) =
      let (r, w') = (do cs ← get_running_service_containers dep.service; remove_each cs) w in
      (r, (record dep { requested_service_count = pos 0 }, w'))

  unfoldable pub docker_deployer : Deployer (Docker × W)
  unfolding increase decrease remove_all count is_deploying
  docker_deployer = record {
    increase = increase;
    decrease = decrease;
    remove_all = remove_all;
    count = λ (dep, w). let (r, w') = count dep w in (r, (dep, w'));
    is_deploying = λ (dep, w). let (r, w') = is_deploying dep w in (r, (dep, w'));
  }
