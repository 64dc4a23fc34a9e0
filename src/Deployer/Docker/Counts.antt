-- ===== src/Deployer/Docker/Counts.antt =====
-- The Docker deployer counts the containers of its service, as the scaler expects of a deployer.
use multichain_liquidator_bo.Base.{
  ℕ, suc, ◌≡◌, refl, sym, ap, ◌∙◌, subst, ◌⊎◌, inl, inr, Bool, true, false, Option, none, some,
  List, [], ◌∷◌, ◌++◌, map, arith, length,
}
use multichain_liquidator_bo.Base.Int.{ℤ, pos, inc_int, dec_int}
use multichain_liquidator_bo.Base.Text.{Text, text_eq_refl}
use multichain_liquidator_bo.Base.Action.{Result, ok, err, panic, ◌>>=◌, return}
use multichain_liquidator_bo.Deployer.Docker.{
  Container, Docker, DockerClient, env_entry, selected, get_running_service_containers,
  is_deploying, count, launch, increase, increase_settled, decrease, decrease_settled, remove_first,
  docker_deployer,
}
use multichain_liquidator_bo.Deployer.Docker.Listing.{matching, select-eq-matching}
use multichain_liquidator_bo.Scaler.Contract.{IsRoom, Counting}
use multichain_liquidator_bo.Deployer.Docker.Laws.{
  Created, Started, DockerLaws, matching-erase, matching_new,
}
use multichain_liquidator_bo.Deployer.Docker.Reads.{listing-state, count-state, deploying-state}

module _ {W : Type 0} (client : DockerClient W) (containers : W → List Container) where
  -- The number of containers of the service.
  abbrev pub instances : Docker × W → ℤ
  instances (dep, w) = pos (length (matching dep.service (containers w)))

  module _ (laws : DockerLaws client containers) where
    count-value :
        (dep : Docker) (w : W) (n : ℤ) → (count client dep w).0 ≡ ok n → n ≡ instances (dep, w)
    unfolding count get_running_service_containers
    count-value dep w n h = go (client.list w) (laws.listed w) h
      where
        go :
            (r : Result (List Container) × W)
            → ((cs : List Container) → r.0 ≡ ok cs → cs ≡ containers w)
            → (((λ _. selected client dep.service r) >>= λ (cs : List Container).
                  return (pos (length cs)))
                w).0
              ≡ ok n
            → n ≡ instances (dep, w)
        go (ok cs, v) same e = ground (
          arith,
          same cs refl,
          select-eq-matching dep.service cs (rw (same cs refl) (laws.named w)),
        )
        go (err x, v) same e = cc
        go (panic, v) same e = cc

    Started-instances :
        (service uuid id : Text) (l l' : List Container)
        → Started id (record { id = id; names = (b'/' ∷ (service ++ b'.' ∷ uuid)) ∷ [] } ∷ l) l'
        → (length (matching service l') ≡ suc (length (matching service l)))
          ⊎ (length (matching service l') ≡ length (matching service l))
    Started-instances service uuid id l l' (inl e) = inl (
        ap (λ (m : List Container). length (matching service m)) e
        ∙ ap length (matching_new service uuid id l))
    Started-instances service uuid id l l' (inr e) = inr (
        ap (λ (m : List Container). length (matching service m)) {y = l}
          (e ∙ rw (text_eq_refl id) refl))

    -- From `n` containers to `n'` by an increase, and by a decrease.
    abbrev Grown : ℕ → ℕ → Type 0
    Grown n n' = (n' ≡ suc n) ⊎ (n' ≡ n)

    abbrev Shrunk : ℕ → ℕ → Type 0
    Shrunk n n' = (suc n' ≡ n) ⊎ (n' ≡ n)

    own : Text → W → ℕ
    own service w = length (matching service (containers w))

    launch-Grown :
        (dep : Docker) (w : W) → Grown (own dep.service w) (own dep.service (launch client dep w).1)
    unfolding launch own
    launch-Grown dep w =
        subst
          (λ (cs : List Container).
            Grown (length (matching dep.service cs)) (own dep.service (launch client dep w).1))
          (laws.draws w)
          (go (client.create dep.container (map env_entry dep.container_env) name w')
            (laws.creates dep.container (map env_entry dep.container_env) name w'))
      where
        uuid : Text
        uuid = (client.new_uuid w).0

        w' : W
        w' = (client.new_uuid w).1

        name : Text
        name = dep.service ++ b'.' ∷ uuid

        go :
            (r : Result Text × W)
            → Created name r.0 (containers w') (containers r.1)
            → Grown (length (matching dep.service (containers w'))) (
                length (
                  matching dep.service
                    (containers (((λ _. r) >>= λ (id : Text). client.start id) w').1)))
        go (ok id, v) e =
            Started-instances dep.service uuid id (containers w') (containers (client.start id v).1)
              (subst (λ (cs : List Container). Started id cs (containers (client.start id v).1)) e
                (laws.starts id v))
        go (err x, v) e = inr (ap (λ (m : List Container). length (matching dep.service m)) e)
        go (panic, v) e = inr (ap (λ (m : List Container). length (matching dep.service m)) e)

    inc_pos : (n : ℕ) → IsRoom (pos n) → inc_int (pos n) ≡ pos (suc n)
    unfolding inc_int
    inc_pos n h = ground arith

    dec_pos : (n : ℕ) → IsRoom (pos (suc n)) → dec_int (pos (suc n)) ≡ pos n
    unfolding dec_int
    dec_pos n h = ground arith

    Grown-instances :
        (n n' : ℕ) → IsRoom (pos n) → Grown n n' → (pos n' ≡ inc_int (pos n)) ⊎ (pos n' ≡ pos n)
    Grown-instances n n' h (inl e) = inl (ap pos e ∙ sym (inc_pos n h))
    Grown-instances n n' h (inr e) = inr (ap pos e)

    Shrunk-instances :
        (n n' : ℕ) → IsRoom (pos n) → Shrunk n n' → (pos n' ≡ dec_int (pos n)) ⊎ (pos n' ≡ pos n)
    Shrunk-instances n n' h (inl e) =
        inl (sym (dec_pos n' (rw e h)) ∙ ap (λ (k : ℕ). dec_int (pos k)) e)
    Shrunk-instances n n' h (inr e) = inr (ap pos e)

    increase_settled-Grown :
        (dep : Docker) (r : Option Bool × W)
        → let s = (increase_settled client dep r).1 in
          Grown (own dep.service r.1) (own s.0.service s.1)
    unfolding increase_settled
    increase_settled-Grown dep (some true, w) = inr refl
    increase_settled-Grown dep (some false, w) =
        launch-Grown (record dep { requested_service_count = inc_int dep.requested_service_count })
          w
    increase_settled-Grown dep (none, w) = inr refl

    remove_first-Shrunk :
        (dep : Docker) (r : Result (List Container) × W)
        → let s = (remove_first client dep r).1 in
          Shrunk (own dep.service r.1) (own s.0.service s.1)
    unfolding remove_first own
    remove_first-Shrunk dep (ok [], w) = inr refl
    remove_first-Shrunk dep (ok (c ∷ cs), w) = elim (laws.removes c.id w) [
      | inl e ↦ inr (ap (λ (m : List Container). length (matching dep.service m)) e)
      | inr e ↦ rw e (elim (matching-erase dep.service c.id (containers w)) [
        | inl same ↦ inr same
        | inr less ↦ inl less
      ])
    ]
    remove_first-Shrunk dep (err e, w) = inr refl
    remove_first-Shrunk dep (panic, w) = inr refl

    decrease_settled-Shrunk :
        (dep : Docker) (r : Option Bool × W)
        → let s = (decrease_settled client dep r).1 in
          Shrunk (own dep.service r.1) (own s.0.service s.1)
    unfolding decrease_settled own
    decrease_settled-Shrunk dep (some true, w) = inr refl
    decrease_settled-Shrunk dep (some false, w) =
        subst
          (λ (n : ℕ).
            let s =
              (remove_first client dep (get_running_service_containers client dep.service w)).1 in
            Shrunk n (own s.0.service s.1))
          (ap (λ (m : List Container). length (matching dep.service m))
            (ap containers (listing-state client dep.service w) ∙ laws.lists w))
          (remove_first-Shrunk dep (get_running_service_containers client dep.service w))
    decrease_settled-Shrunk dep (none, w) = inr refl

    deploying-own :
        (dep : Docker) (w : W) → own dep.service (is_deploying client dep w).1 ≡ own dep.service w
    unfolding own
    deploying-own dep w =
        ap (λ (m : List Container). length (matching dep.service m))
          (ap containers (deploying-state client dep w) ∙ laws.lists w)

    increase-Grown :
        (s : Docker × W)
        → let s' = (increase client s).1 in Grown (own s.0.service s.1) (own s'.0.service s'.1)
    unfolding increase
    increase-Grown (dep, w) =
        subst (λ (n : ℕ). let s' = (increase client (dep, w)).1 in Grown n (own s'.0.service s'.1))
          (deploying-own dep w) (increase_settled-Grown dep (is_deploying client dep w))

    decrease-Shrunk :
        (s : Docker × W)
        → let s' = (decrease client s).1 in Shrunk (own s.0.service s.1) (own s'.0.service s'.1)
    unfolding decrease
    decrease-Shrunk (dep, w) =
        subst (λ (n : ℕ). let s' = (decrease client (dep, w)).1 in Shrunk n (own s'.0.service s'.1))
          (deploying-own dep w) (decrease_settled-Shrunk dep (is_deploying client dep w))

    -- Where Docker behaves as documented, its deployer counts the containers of its service: a count
    -- reads their number or fails, an increase adds one of them or none, a decrease removes one or
    -- none, on every branch, errors included.
    pub docker_deployer-Counting : Counting (docker_deployer client) instances
    unfolding docker_deployer own
    docker_deployer-Counting = record {
      asks = λ (dep, w). ap pos (deploying-own dep w);
      keeps = λ (dep, w).
          ap (λ (m : List Container). pos (length (matching dep.service m)))
            (ap containers (count-state client dep w) ∙ laws.lists w);
      counts = λ (dep, w) n e. count-value dep w n e;
      ups = λ s room.
          let s' = (increase client s).1 in
          Grown-instances (own s.0.service s.1) (own s'.0.service s'.1) room (increase-Grown s);
      downs = λ s room.
          let s' = (decrease client s).1 in
          Shrunk-instances (own s.0.service s.1) (own s'.0.service s'.1) room (decrease-Shrunk s);
    }
