-- ===== src/Manager/Block/Fills.antt =====
-- What a block leaves in the three queues.
use multichain_liquidator_bo.Base.{
  ℕ, ◌+◌, ◌/◌, ◌<◌, ◌≡◌, refl, ap, ◌∙◌, false, Bool, some, List, [], ◌++◌, map, inl, inr,
  Bool-cases, arith,
}
use multichain_liquidator_bo.Base.Text.{Text, text_eq, text_eq_refl}
use multichain_liquidator_bo.Base.Action.{Result, ok, err, panic, ◌>>◌, bound}
use multichain_liquidator_bo.Runtime.Types.{WorkItem}
use multichain_liquidator_bo.Runtime.Interfaces.{Lists, update, QueuerLaws, Purged}
use multichain_liquidator_bo.Manager.Pages.{u64_mod, work_item, send_pages}
use multichain_liquidator_bo.Manager.Pages.Covers.{offsets, send_pages_covers}
use multichain_liquidator_bo.Manager.Pages.Delivers.{send_each-lists}
use multichain_liquidator_bo.Manager.Block.{
  Manager, scale_running, purge_queues, page_size, process_block, then_pages,
}

Purged-all :
    (r : Result (Unit {0})) (l : Lists) (k : Text) (l' : Lists)
    → r ≡ ok tt
    → Purged l k r l'
    → l' ≡ update l k []
Purged-all (ok a) l k l' e h = h
Purged-all (err x) l k l' e h = absurd (let c : ⊥ = cc in c)
Purged-all panic l k l' e h = absurd (let c : ⊥ = cc in c)

emptied : (l : Lists) (k j : Text) → l j ≡ [] → update l k [] j ≡ []
emptied l k j h = elim (Bool-cases (text_eq k j)) [ inl e ↦ rw e refl | inr e ↦ rw e h ]

emptied_self : (l : Lists) (k : Text) → update l k [] k ≡ []
emptied_self l k = rw (text_eq_refl k) refl

module _ {W F : Type 0} (service : Manager W F) (lists : W → Lists)
    (laws : QueuerLaws service.queue lists) (marshal : WorkItem → Result Text)
    (encode : WorkItem → Text) (encodes : (item : WorkItem) → marshal item ≡ ok (encode item))
    (pushes : (k x : Text) (w : W) → (service.queue.push k x w).0 ≡ ok tt)
    (purges : (k : Text) (w : W) → (service.queue.purge k w).0 ≡ ok tt) where
  purged_call : (k : Text) (w : W) → service.queue.purge k w ≡ (ok tt, (service.queue.purge k w).1)
  purged_call k w = ap (λ (r : Result (Unit {0})). (r, (service.queue.purge k w).1)) (purges k w)

  purged-lists : (k : Text) (w : W) → lists (service.queue.purge k w).1 ≡ update (lists w) k []
  purged-lists k w =
      Purged-all (service.queue.purge k w).0 (lists w) k (lists (service.queue.purge k w).1)
        (purges k w) (laws.purges k w)

  abbrev collector : Text
  collector = service.collector_queue_name

  abbrev health : Text
  health = service.health_check_queue_name

  abbrev executor : Text
  executor = service.executor_queue_name

  abbrev step : ℕ
  step = page_size service

  -- Clearing the queues leaves all three empty.
  purge_queues-lists :
      (w : W)
      → (v : W) × (purge_queues service w ≡ (ok tt, v))
        × (lists v collector ≡ [])
        × (lists v health ≡ [])
        × (lists v executor ≡ [])
  unfolding purge_queues
  purge_queues-lists w =
      let a = (service.queue.purge collector w).1 in
      let b = (service.queue.purge health a).1 in
      let c = (service.queue.purge executor b).1 in
      let la = purged-lists collector w in
      let lb = purged-lists health a in
      let lc = purged-lists executor b in
      (
        c,
        bound (service.queue.purge collector)
              (λ _. service.queue.purge health >> service.queue.purge executor) w tt a
              (purged_call collector w)
            ∙ bound (service.queue.purge health) (λ _. service.queue.purge executor) a tt b
                (purged_call health a)
            ∙ purged_call executor b,
        ap (λ (l : Lists). l collector) lc
            ∙ emptied (lists b) executor collector (
                ap (λ (l : Lists). l collector) lb
                ∙ emptied (lists a) health collector
                    (ap (λ (l : Lists). l collector) la ∙ emptied_self (lists w) collector)),
        ap (λ (l : Lists). l health) lc
            ∙ emptied (lists b) executor health
                (ap (λ (l : Lists). l health) lb ∙ emptied_self (lists a) health),
        ap (λ (l : Lists). l executor) lc ∙ emptied_self (lists b) executor,
      )

  -- Where encoding, pushes and purges succeed, the scalers are asked without an error, the page size
  -- is above 0 and fits with the total below 2^64, and the collectors' queue has a name of its own,
  -- handling a block ends without an error within `total / step + 3` rounds of the loop over the
  -- pages: whatever work was left, the collectors' queue then holds exactly the pages of the
  -- contract's state, in order, and the other two queues are empty.
  pub process_block_fills :
      (running : Bool) (total : ℕ) (w v : W)
      → scale_running running service w ≡ (ok tt, v)
      → 0 < step
      → total + step < u64_mod
      → text_eq collector health ≡ false
      → text_eq collector executor ≡ false
      → (w' : W) × (process_block marshal service (total / step + 3) running total w
          ≡ some (ok tt, w'))
        × (lists w' collector
            ≡ map
                (λ (o : ℕ). encode (work_item service.target o step))
                (offsets step (total / step + 1) 0))
        × (lists w' health ≡ [])
        × (lists w' executor ≡ [])
  unfolding process_block
  process_block_fills running total w v scaled positive fits h e =
      let (u, purged, cs, hs, es) = purge_queues-lists v in
      let os = offsets step (total / step + 1) 0 in
      let covers =
        send_pages_covers service.queue marshal collector service.target step total 0 u positive
          fits (omega arith) in
      let (w', sent, own, other) =
        send_each-lists service.queue lists laws marshal encode encodes pushes collector
          service.target step os u in
      (
        w',
        ap
              (then_pages (
                send_pages service.queue marshal collector service.target step (total / step + 3)
                  total 0))
              (bound (scale_running running service) (λ _. purge_queues service) w tt v scaled
                ∙ purged)
            ∙ unfold then_pages in (covers.0 ∙ ap some sent),
        own
            ∙ ap
                (λ (l : List Text).
                  l ++ map (λ (o : ℕ). encode (work_item service.target o step)) os)
                cs,
        other health h ∙ hs,
        other executor e ∙ es,
      )
