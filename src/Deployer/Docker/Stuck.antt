-- ===== src/Deployer/Docker/Stuck.antt =====
-- A Docker deployer whose request does not match its containers refuses every change.
use multichain_liquidator_bo.Base.{ℕ, ◌≡◌, refl, ◌∙◌, true, false, not, some, List, arith, length}
use multichain_liquidator_bo.Base.Int.{pos, inc_int}
use multichain_liquidator_bo.Base.Text.{Text}
use multichain_liquidator_bo.Base.Action.{Error, Result, ok, err}
use multichain_liquidator_bo.Deployer.Docker.{
  Container, Docker, DockerClient, select, equal_ℤ, is_deploying, launch, increase, decrease,
  increase_refused, decrease_refused, docker_deployer,
}
use multichain_liquidator_bo.Scaler.{QueueWatermark}
use multichain_liquidator_bo.Scaler.Sustained.{calls, quiets, deploying_calls}

module _ {W : Type 0} (client : DockerClient W) where
  -- Docker lists `n` containers of the service, and listing them changes nothing.
  pub record Lists (service : Text) (n : ℕ) (w : W) : Type 0 where
    pub all : List Container
    pub own : List Container
    pub listed : client.list w ≡ (ok all, w)
    pub selected : select service all ≡ some own
    pub many : length own ≡ n

  is_deploying-Lists :
      (dep : Docker) (n : ℕ) (w : W)
      → Lists dep.service n w
      → is_deploying client dep w ≡ (some (not (equal_ℤ (pos n) dep.requested_service_count)), w)
  unfolding is_deploying
  is_deploying-Lists dep n w h = ground (arith, h.listed, h.selected, h.many)

  -- The request is another number than that of the containers.
  pub record IsStuck (dep : Docker) (n : ℕ) (w : W) : Type 0 where
    pub lists : Lists dep.service n w
    pub unequal : equal_ℤ (pos n) dep.requested_service_count ≡ false

  stuck_deploying :
      (dep : Docker) (n : ℕ) (w : W) → IsStuck dep n w → is_deploying client dep w ≡ (some true, w)
  stuck_deploying dep n w h = is_deploying-Lists dep n w h.lists ∙ rw h.unequal refl

  -- While the containers stay as they are, a deployer whose request differs from their number
  -- refuses each increase and each decrease with an error, and changes nothing.
  pub stuck_refuses :
      (dep : Docker) (n : ℕ) (w : W)
      → IsStuck dep n w
      → (increase client (dep, w) ≡ (err increase_refused, (dep, w)))
        × (decrease client (dep, w) ≡ (err decrease_refused, (dep, w)))
  unfolding increase decrease
  stuck_refuses dep n w h =
      (rw (stuck_deploying dep n w h) refl, rw (stuck_deploying dep n w h) refl)

  stuck_calls :
      (k : ℕ) (q : QueueWatermark (Docker × W)) (dep : Docker) (n : ℕ) (w : W)
      → q.deployer ≡ docker_deployer client
      → IsStuck dep n w
      → calls k q (dep, w) ≡ (quiets k, (q, (dep, w)))
  stuck_calls k q dep n w e h =
      deploying_calls k q (dep, w)
        (rw e (unfold docker_deployer in rw (stuck_deploying dep n w h) refl))

  equal_ℤ-inc : (n : ℕ) → equal_ℤ (pos n) (inc_int (pos n)) ≡ false
  unfolding equal_ℤ inc_int
  equal_ℤ-inc n = ground arith

  equal_ℤ-self : (n : ℕ) → equal_ℤ (pos n) (pos n) ≡ true
  unfolding equal_ℤ
  equal_ℤ-self n = ground arith

  increase_settled_launch :
      (dep : Docker) (w v : W) (r : Result (Unit {0}))
      → is_deploying client dep w ≡ (some false, w)
      → let dep' = record dep { requested_service_count = inc_int dep.requested_service_count } in
        launch client dep' w ≡ (r, v) → increase client (dep, w) ≡ (r, (dep', v))
  unfolding increase
  increase_settled_launch dep w v r settled launched = rw settled (rw launched refl)

  -- `Increase` raises the request before it creates the container and does not lower it again: where
  -- the request matched `n` containers and the launch fails with `e`, leaving `n` containers, the
  -- deployer is stuck. From then on, while these stay as they are, every increase and decrease is
  -- refused, and a watermark scaler over it returns "none" for any number of calls.
  pub failed_launch_sticks :
      (dep : Docker) (n : ℕ) (w v : W) (e : Error) (k : ℕ) (q : QueueWatermark (Docker × W))
      → q.deployer ≡ docker_deployer client
      → Lists dep.service n w
      → dep.requested_service_count ≡ pos n
      → let dep' = record dep { requested_service_count = inc_int dep.requested_service_count } in
        launch client dep' w ≡ (err e, v)
        → Lists dep.service n v
        → (increase client (dep, w) ≡ (err e, (dep', v)))
          × (increase client (dep', v) ≡ (err increase_refused, (dep', v)))
          × (decrease client (dep', v) ≡ (err decrease_refused, (dep', v)))
          × (calls k q (dep', v) ≡ (quiets k, (q, (dep', v))))
  failed_launch_sticks dep n w v e k q same lists settled failed after =
      let dep' = record dep { requested_service_count = inc_int dep.requested_service_count } in
      let stuck : IsStuck dep' n v = record {
        lists = after;
        unequal = rw settled (equal_ℤ-inc n);
      } in
      let (ups, downs) = stuck_refuses dep' n v stuck in
      (
        increase_settled_launch dep w v (err e)
            (is_deploying-Lists dep n w lists ∙ rw settled (rw (equal_ℤ-self n) refl)) failed,
        ups,
        downs,
        stuck_calls k q dep' n v same stuck,
      )
