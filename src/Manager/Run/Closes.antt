-- ===== src/Manager/Run/Closes.antt =====
-- How `Run` ends.
use multichain_liquidator_bo.Base.{
  ℕ, ◌≡◌, ◌≢◌, ◌⊎◌, inl, inr, refl, sym, ap, ◌∙◌, Option, none, some, List, [], ◌∷◌, ◌++◌,
}
use multichain_liquidator_bo.Base.Float.{Float}
use multichain_liquidator_bo.Base.Action.{Result, ok, err, panic, Action}
use multichain_liquidator_bo.Manager.Block.{Manager, then_pages}
use multichain_liquidator_bo.Manager.Receiver.{Websocket, subscribe}
use multichain_liquidator_bo.Manager.Run.{
  Surroundings, Arrival, deferred, connected, after_block, handle_block, handle_blocks, waited,
  then_wait, run,
}

module _ {W : Type 0} where
  deferred_inv :
      (disconnect : Action W (Unit {0})) (o : Option (Result (Unit {0}) × W))
      (r : Result (Unit {0})) (v : W)
      → deferred disconnect o ≡ some (r, v)
      → (u : W) × (o ≡ some (r, u)) × (v ≡ (disconnect u).1)
  unfolding deferred
  deferred_inv disconnect none r v h = absurd (let c : ⊥ = cc in c)
  deferred_inv disconnect (some (r', u)) r v h =
      (u, ap (λ (x : Result (Unit {0})). some (x, u)) (first h), sym (second h))
    where
      first :
          {a b : Result (Unit {0})} {x y : W}
          → ◌≡◌ {A = Option (Result (Unit {0}) × W)} (some (a, x)) (some (b, y))
          → a ≡ b
      first e = cc

      second :
          {a b : Result (Unit {0})} {x y : W}
          → ◌≡◌ {A = Option (Result (Unit {0}) × W)} (some (a, x)) (some (b, y))
          → x ≡ y
      second e = cc

module _ {W F : Type 0} (fl : Float F) (env : Surroundings W F) (service : Manager W F) where
  -- Every block was handled, and the monitors have returned behind the last one.
  abbrev pub WaitedOut :
      {T : Type 0} → (ℕ → ℕ) → List (Arrival T) → W → Result (Unit {0}) → W → Type 0
  WaitedOut fuel arrivals w r u =
      (r ≡ ok tt)
      × ((v : W) × (handle_blocks fl env service fuel arrivals w ≡ some (ok tt, v))
          × (env.wait v ≡ some u))

  -- The blocks before some block were handled, that one ended in `r`, no success, and nothing was done
  -- with the blocks behind it.
  abbrev pub StoppedAt :
      {T : Type 0} → (ℕ → ℕ) → List (Arrival T) → W → Result (Unit {0}) → W → Type 0
  StoppedAt {T} fuel arrivals w r u =
      (before : List (Arrival T)) × (a : Arrival T) × (rest : List (Arrival T)) × (v : W)
      × (arrivals ≡ before ++ a ∷ rest)
      × (handle_blocks fl env service fuel before w ≡ some (ok tt, v))
      × (handle_block fl env service fuel a v ≡ some (r, u))
      × (r ≢ ok tt)

  handled_more :
      {T : Type 0} (fuel : ℕ → ℕ) (a : Arrival T) (arrivals : List (Arrival T)) (w v : W)
      → handle_block fl env service fuel a w ≡ some (ok tt, v)
      → handle_blocks fl env service fuel (a ∷ arrivals) w
        ≡ handle_blocks fl env service fuel arrivals v
  unfolding handle_blocks after_block then_pages
  handled_more fuel a arrivals w v e = rw e refl

  waited_inv :
      (o : Option W) (r : Result (Unit {0})) (u : W)
      → waited fl env service o ≡ some (r, u)
      → (r ≡ ok tt) × (o ≡ some u)
  unfolding waited
  waited_inv none r u h = absurd (let c : ⊥ = cc in c)
  waited_inv (some v) r u h = (cc, cc)

  -- A block that was handled leaves the rest of the loop; another one ends it.
  block_ends :
      {T : Type 0} (fuel : ℕ → ℕ) (arrivals : List (Arrival T)) (o : Option (Result (Unit {0}) × W))
      (u : W) (r : Result (Unit {0}))
      → then_wait fl env service (after_block (handle_blocks fl env service fuel arrivals) o)
        ≡ some (r, u)
      → ((v : W) × (o ≡ some (ok tt, v))
          × (then_wait fl env service (handle_blocks fl env service fuel arrivals v) ≡ some (r, u)))
        ⊎ ((o ≡ some (r, u)) × (r ≢ ok tt))
  unfolding then_wait after_block then_pages
  block_ends fuel arrivals none u r h = absurd (let c : ⊥ = cc in c)
  block_ends fuel arrivals (some (ok x, v)) u r h = inl (v, refl, h)
  block_ends fuel arrivals (some (err e, v)) u r h = inr (h, λ p. let c : ⊥ = cc in c)
  block_ends fuel arrivals (some (panic, v)) u r h = inr (h, λ p. let c : ⊥ = cc in c)

  loop_step :
      {T : Type 0} (fuel : ℕ → ℕ) (a : Arrival T) (arrivals : List (Arrival T)) (w : W)
      → handle_blocks fl env service fuel (a ∷ arrivals) w
        ≡ after_block
            (handle_blocks fl env service fuel arrivals)
            (handle_block fl env service fuel a w)
  unfolding handle_blocks
  loop_step fuel a arrivals w = refl

  no_blocks :
      (T : Type 0) (fuel : ℕ → ℕ) (w u : W) (r : Result (Unit {0}))
      → then_wait fl env service (handle_blocks fl env service {T = T} fuel [] w) ≡ some (r, u)
      → WaitedOut {T = T} fuel [] w r u
  unfolding then_wait handle_blocks
  no_blocks T fuel w u r h =
      let (done, back) = waited_inv (env.wait w) r u h in (done, (w, refl, back))

  more_blocks :
      {T : Type 0} (fuel : ℕ → ℕ) (a : Arrival T) (arrivals : List (Arrival T)) (w v u : W)
      (r : Result (Unit {0}))
      → handle_block fl env service fuel a w ≡ some (ok tt, v)
      → WaitedOut fuel arrivals v r u ⊎ StoppedAt fuel arrivals v r u
      → WaitedOut fuel (a ∷ arrivals) w r u ⊎ StoppedAt fuel (a ∷ arrivals) w r u
  more_blocks fuel a arrivals w v u r e (inl (done, (x, handled, back))) =
      inl (done, (x, handled_more fuel a arrivals w v e ∙ handled, back))
  more_blocks fuel a arrivals w v u r e (inr (before, b, rest, x, split, handled, ended, bad)) =
      inr (
        a ∷ before,
        b,
        rest,
        x,
        ap (a ∷◌) split,
        handled_more fuel a before w v e ∙ handled,
        ended,
        bad,
      )

  loop_ends :
      {T : Type 0} (fuel : ℕ → ℕ) (arrivals : List (Arrival T)) (w u : W) (r : Result (Unit {0}))
      → then_wait fl env service (handle_blocks fl env service fuel arrivals w) ≡ some (r, u)
      → WaitedOut fuel arrivals w r u ⊎ StoppedAt fuel arrivals w r u
  loop_ends {T} fuel [] w u r h = inl (no_blocks T fuel w u r h)
  loop_ends fuel (a ∷ arrivals) w u r h =
      let o = handle_block fl env service fuel a w in
      elim (block_ends fuel arrivals o u r
        (ap (then_wait fl env service) (sym (loop_step fuel a arrivals w)) ∙ h)) [
          | inl (v, e, later) ↦
              more_blocks fuel a arrivals w v u r e (loop_ends fuel arrivals v u r later)
          | inr (e, bad) ↦ inr ([], a, arrivals, w, refl, unfold handle_blocks in refl, e, bad)
        ]

  -- Once queue and cache are connected and the blocks are subscribed to, a `Run` that returns either
  -- has handled every block without an error, has then waited until the monitors had returned, and
  -- gives no error, or it gives the error, or the panic, in which the first block that was not handled
  -- ended, did nothing with the blocks behind that one and waited for no monitor; and then, in both
  -- cases, it has disconnected the cache and, behind it, the queue, and done nothing else.
  pub run_closes :
      {C T : Type 0} (ws : Websocket W C T) (fuel : ℕ → ℕ) (arrivals : List (Arrival T)) (c : C)
      (w w₁ w₂ w₃ v : W) (r : Result (Unit {0}))
      → service.queue.connect w ≡ (ok tt, w₁)
      → service.metrics_cache.connect w₁ ≡ (ok tt, w₂)
      → subscribe ws service.rpc_websocket_endpoint w₂ ≡ (ok c, w₃)
      → run fl env service ws fuel arrivals w ≡ some (r, v)
      → (u : W) × (WaitedOut fuel arrivals w₃ r u ⊎ StoppedAt fuel arrivals w₃ r u)
        × (v ≡ (service.queue.disconnect (service.metrics_cache.disconnect u).1).1)
  unfolding run connected
  run_closes ws fuel arrivals c w w₁ w₂ w₃ v r queue cache subscribed h =
      let close_queue = deferred service.queue.disconnect in
      let close_cache = deferred service.metrics_cache.disconnect in
      let blocks =
        λ (w : W). then_wait fl env service (handle_blocks fl env service fuel arrivals w) in
      let loop = λ (w : W). connected blocks (subscribe ws service.rpc_websocket_endpoint w) in
      let with_cache =
        λ (x : Result (Unit {0}) × W). close_queue (connected (λ w. close_cache (loop w)) x) in
      let with_queue = λ (x : Result (Unit {0}) × W).
        connected (λ w. with_cache (service.metrics_cache.connect w)) x in
      let ended : close_queue (close_cache (blocks w₃)) ≡ some (r, v) =
        sym (
          ap with_queue queue
          ∙ ap with_cache cache
          ∙ ap (λ x. close_queue (close_cache (connected blocks x))) subscribed)
        ∙ h in
      let (u₁, e₁, last) =
        deferred_inv service.queue.disconnect (close_cache (blocks w₃)) r v ended in
      let (u, e₂, closed) = deferred_inv service.metrics_cache.disconnect (blocks w₃) r u₁ e₁ in
      (
        u,
        loop_ends fuel arrivals w₃ u r e₂,
        last ∙ ap (λ (x : W). (service.queue.disconnect x).1) closed,
      )
