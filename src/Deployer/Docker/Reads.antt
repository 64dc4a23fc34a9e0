-- ===== src/Deployer/Docker/Reads.antt =====
-- Listing, counting and asking whether a deployment runs change nothing but what the listing does.
use multichain_liquidator_bo.Base.{◌≡◌, refl, ◌∙◌, inl, inr, Option-cases, List, length}
use multichain_liquidator_bo.Base.Int.{ℤ, pos}
use multichain_liquidator_bo.Base.Text.{Text}
use multichain_liquidator_bo.Base.Action.{Result, ok, err, panic, ◌>>=◌, return}
use multichain_liquidator_bo.Deployer.Docker.{
  Container, Docker, DockerClient, select, selected, get_running_service_containers, is_deploying,
  count, differs,
}

module _ {W : Type 0} (client : DockerClient W) where
  selected-state :
      (service : Text) (r : Result (List Container) × W) → (selected client service r).1 ≡ r.1
  unfolding selected
  selected-state service (ok cs, w) = elim (Option-cases (select service cs)) [
    | inl e ↦ rw (e, selected) refl
    | inr (own, e) ↦ rw (e, selected) refl
  ]
  selected-state service (err e, w) = refl
  selected-state service (panic, w) = refl

  pub listing-state :
      (service : Text) (w : W)
      → (get_running_service_containers client service w).1 ≡ (client.list w).1
  unfolding get_running_service_containers
  listing-state service w = selected-state service (client.list w)

  pub count-state : (dep : Docker) (w : W) → (count client dep w).1 ≡ (client.list w).1
  unfolding count
  count-state dep w =
      go (get_running_service_containers client dep.service w) ∙ listing-state dep.service w
    where
      go :
          (r : Result (List Container) × W)
          → (((λ _. r) >>= λ (cs : List Container). return (pos (length cs))) w).1 ≡ r.1
      go (ok cs, v) = refl
      go (err e, v) = refl
      go (panic, v) = refl

  pub deploying-state : (dep : Docker) (w : W) → (is_deploying client dep w).1 ≡ (client.list w).1
  unfolding is_deploying
  deploying-state dep w = go (count client dep w) ∙ count-state dep w
    where
      go : (r : Result ℤ × W) → (differs client dep.requested_service_count r).1 ≡ r.1
      go (ok n, v) = refl
      go (err e, v) = refl
      go (panic, v) = refl
