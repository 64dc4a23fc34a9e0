-- ===== src/Deployer/Docker/Listing.antt =====
-- Which of Docker's containers belong to a service.
use multichain_liquidator_bo.Base.{
  ◌≡◌, refl, Bool, false, ◌||◌, some, List, [], ◌∷◌, arith, drop, All, if◌then◌else◌,
}
use multichain_liquidator_bo.Base.Text.{Text, has_prefix}
use multichain_liquidator_bo.Deployer.Docker.{Container, has_name, select}

-- Docker writes a slash in front of each name.
abbrev pub IsNamed : Text → Type 0
IsNamed [] = ⊥
IsNamed (c ∷ name) = Unit

abbrev pub HasNames : Container → Type 0
HasNames c = All IsNamed c.names

-- Some name, without its first character, starts with the service's name.
abbrev pub any_name : Text → List Text → Bool
any_name service [] = false
any_name service (name ∷ names) = has_prefix (drop 1 name) service || any_name service names

-- The containers of a service, each once however many of its names match.
abbrev pub matching : Text → List Container → List Container
matching service [] = []
matching service (c ∷ cs) =
    let rest = matching service cs in if any_name service c.names then c ∷ rest else rest

has_name-eq-any_name :
    (service : Text) (names : List Text)
    → All IsNamed names
    → has_name service names ≡ some (any_name service names)
unfolding has_name
has_name-eq-any_name service [] h = refl
has_name-eq-any_name service ([] ∷ names) h = absurd h.0
has_name-eq-any_name service ((c ∷ name) ∷ names) h =
    ground (arith, has_name-eq-any_name service names h.1)

-- Where no container has an empty name, the loop keeps exactly the containers of the service.
pub select-eq-matching :
    (service : Text) (cs : List Container)
    → All HasNames cs
    → select service cs ≡ some (matching service cs)
unfolding select
select-eq-matching service [] h = refl
select-eq-matching service (c ∷ cs) h =
    ground (arith, has_name-eq-any_name service c.names h.0, select-eq-matching service cs h.1)
