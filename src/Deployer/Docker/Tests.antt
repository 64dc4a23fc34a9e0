-- ===== src/Deployer/Docker/Tests.antt =====
-- A Docker that holds containers by name, and one that is full.
use multichain_liquidator_bo.Base.{
  ◌≡◌, ◌⊎◌, refl, inl, none, some, List, [], ◌∷◌, map, arith, All, if◌then◌else◌,
}
use multichain_liquidator_bo.Base.Int.{ℤ, pos, inc_int}
use multichain_liquidator_bo.Base.Text.{Text, codes, text_eq, has_prefix}
use multichain_liquidator_bo.Base.Action.{foreign, ok, err}
use multichain_liquidator_bo.Runtime.Interfaces.{Queuer}
use multichain_liquidator_bo.Scaler.{QueueWatermark}
use multichain_liquidator_bo.Scaler.Contract.{Counting}
use multichain_liquidator_bo.Scaler.Sustained.{calls, quiets}
use multichain_liquidator_bo.Deployer.Docker.{
  Container, Docker, DockerClient, select, launch, increase, decrease, docker_deployer,
  increase_refused, decrease_refused,
}
use multichain_liquidator_bo.Deployer.Docker.Listing.{HasNames, matching, select-eq-matching}
use multichain_liquidator_bo.Deployer.Docker.Stuck.{Lists, failed_launch_sticks}
use multichain_liquidator_bo.Deployer.Docker.Laws.{DockerLaws, erase}
use multichain_liquidator_bo.Deployer.Docker.Counts.{instances, docker_deployer-Counting}

abbrev own_id : Text
own_id = codes "c"

abbrev container : Text → Container
container name = record { id = own_id; names = (b'/' ∷ name) ∷ [] }

abbrev tail_of : List Text → List Text
tail_of [] = []
tail_of (x ∷ xs) = xs

-- The world is the list of the containers' names; all containers have the same id.
abbrev host : DockerClient (List Text)
host = record {
  list = λ w. (ok (map container w), w);
  create = λ image env name w. (ok own_id, name ∷ w);
  start = λ id w. (ok tt, w);
  remove = λ id w. (ok tt, if text_eq id own_id then tail_of w else w);
  new_uuid = λ w. (codes "u", w);
}

host_named : (w : List Text) → All HasNames (map container w)
host_named [] = tt
host_named (x ∷ w) = ((tt, tt), host_named w)

host_erase :
    (id : Text) (w : List Text)
    → (map container (if text_eq id own_id then tail_of w else w) ≡ map container w)
      ⊎ (map container (if text_eq id own_id then tail_of w else w) ≡ erase id (map container w))
host_erase id [] = ground arith
host_erase id (x ∷ w) = ground arith

host_laws : DockerLaws host (map container)
host_laws = record {
  lists = λ w. refl;
  listed = λ w cs e. ground arith;
  named = host_named;
  creates = λ image env name w. refl;
  starts = λ id w. inl refl;
  removes = λ id w. host_erase id w;
  draws = λ w. refl;
}

docker_deployer-Counting_example : Counting (docker_deployer host) (instances host (map container))
docker_deployer-Counting_example = docker_deployer-Counting host (map container) host_laws

abbrev collectors : List Container
collectors = container (codes "s.1") ∷ container (codes "t.1") ∷ container (codes "s.2") ∷ []

select-eq-matching_example : select (codes "s") collectors ≡ some (matching (codes "s") collectors)
select-eq-matching_example =
    select-eq-matching (codes "s") collectors ((tt, tt), ((tt, tt), ((tt, tt), tt)))

-- A host that has room for no more containers.
abbrev full_host : DockerClient (Unit {0})
full_host = record {
  list = λ w. (ok collectors, w);
  create = λ image env name w. (err (foreign "no space left"), w);
  start = λ id w. (ok tt, w);
  remove = λ id w. (ok tt, w);
  new_uuid = λ w. (codes "u", w);
}

abbrev two_requested : ℤ → Docker
two_requested n = record {
  service = codes "s";
  container = codes "image";
  container_env = [];
  requested_service_count = n;
}

abbrev busy_queue : Queuer (Docker × Unit {0})
busy_queue = record {
  connect = λ s. (ok tt, s);
  push = λ k x s. (ok tt, s);
  push_many = λ k xs s. (ok tt, s);
  fetch = λ k s. (ok none, s);
  fetch_many = λ k m s. (ok [], s);
  count_items = λ k s. (ok (pos 50), s);
  purge = λ k s. (ok tt, s);
  disconnect = λ s. (ok tt, s);
}

abbrev stuck_scaler : QueueWatermark (Docker × Unit {0})
stuck_scaler = record {
  queue = busy_queue;
  queue_name = codes "q";
  deployer = docker_deployer full_host;
  high_violation_count = 0;
  low_violation_count = 0;
  violation_max = 10;
  low_water_mark = pos 5;
  high_water_mark = pos 20;
  minimum_service_count = pos 1;
}

full_lists : Lists full_host (codes "s") 2 tt
unfolding select has_prefix
full_lists = record {
  all = collectors;
  own = container (codes "s.1") ∷ container (codes "s.2") ∷ [];
  listed = refl;
  selected = refl;
  many = refl;
}

full_launch : launch full_host (two_requested (pos 3)) tt ≡ (err (foreign "no space left"), tt)
unfolding launch
full_launch = refl

failed_launch_sticks_example :
    (increase full_host (two_requested (pos 2), tt)
      ≡ (err (foreign "no space left"), (two_requested (pos 3), tt)))
    × (increase full_host (two_requested (pos 3), tt)
        ≡ (err increase_refused, (two_requested (pos 3), tt)))
    × (decrease full_host (two_requested (pos 3), tt)
        ≡ (err decrease_refused, (two_requested (pos 3), tt)))
    × (calls 40 stuck_scaler (two_requested (pos 3), tt)
        ≡ (quiets 40, (stuck_scaler, (two_requested (pos 3), tt))))
unfolding inc_int
failed_launch_sticks_example =
    failed_launch_sticks full_host (two_requested (pos 2)) 2 tt tt (foreign "no space left") 40
      stuck_scaler refl full_lists refl full_launch full_lists
