-- ===== src/Deployer/Docker/Laws.antt =====
-- The behaviour that Docker documents, over the containers that it holds.
use multichain_liquidator_bo.Base.{
  suc, ◌≡◌, refl, ◌⊎◌, inl, List, [], ◌∷◌, ◌++◌, arith, length, All, if◌then◌else◌,
}
use multichain_liquidator_bo.Base.Text.{Text, text_eq, has_prefix-append}
use multichain_liquidator_bo.Base.Action.{Result, ok, err, panic}
use multichain_liquidator_bo.Deployer.Docker.{Container, DockerClient}
use multichain_liquidator_bo.Deployer.Docker.Listing.{HasNames, matching}

-- The first container of an id is taken out.
abbrev pub erase : Text → List Container → List Container
erase id [] = []
erase id (c ∷ cs) = let rest = erase id cs in if text_eq id c.id then cs else c ∷ rest

abbrev pub Created : Text → Result Text → List Container → List Container → Type 0
Created name (ok id) l l' = l' ≡ record { id = id; names = (b'/' ∷ name) ∷ [] } ∷ l
Created name (err e) l l' = l' ≡ l
Created name panic l l' = l' ≡ l

-- A container that is to be removed when it stops may be gone after a start.
abbrev pub Started : Text → List Container → List Container → Type 0
Started id l l' = (l' ≡ l) ⊎ (l' ≡ erase id l)

abbrev pub Removed : Text → List Container → List Container → Type 0
Removed id l l' = (l' ≡ l) ⊎ (l' ≡ erase id l)

-- What Docker documents of the calls, over the containers that it holds.
pub record DockerLaws {W : Type 0} (client : DockerClient W) (containers : W → List Container)
    : Type 0 where
  pub lists : (w : W) → containers (client.list w).1 ≡ containers w
  pub listed : (w : W) (cs : List Container) → (client.list w).0 ≡ ok cs → cs ≡ containers w
  pub named : (w : W) → All HasNames (containers w)
  pub creates :
      (image : Text) (env : List Text) (name : Text) (w : W)
      → Created name
          (client.create image env name w).0
          (containers w)
          (containers (client.create image env name w).1)
  pub starts : (id : Text) (w : W) → Started id (containers w) (containers (client.start id w).1)
  pub removes : (id : Text) (w : W) → Removed id (containers w) (containers (client.remove id w).1)
  pub draws : (w : W) → containers (client.new_uuid w).1 ≡ containers w

pub matching-erase :
    (service id : Text) (cs : List Container)
    → (length (matching service (erase id cs)) ≡ length (matching service cs))
      ⊎ (suc (length (matching service (erase id cs))) ≡ length (matching service cs))
matching-erase service id [] = inl refl
matching-erase service id (c ∷ cs) = ground (arith, matching-erase service id cs)

pub matching_new :
    (service uuid id : Text) (cs : List Container)
    → matching service (record { id = id; names = (b'/' ∷ (service ++ b'.' ∷ uuid)) ∷ [] } ∷ cs)
      ≡ record { id = id; names = (b'/' ∷ (service ++ b'.' ∷ uuid)) ∷ [] } ∷ matching service cs
matching_new service uuid id cs = rw (has_prefix-append service (b'.' ∷ uuid)) refl
