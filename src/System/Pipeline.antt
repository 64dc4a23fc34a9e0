-- ===== src/System/Pipeline.antt =====
-- The work of a block on its way from the manager through the collectors.
mod Tests
use multichain_liquidator_bo.Base.{
  ℕ, zero, suc, ◌+◌, ◌/◌, ◌≡◌, ◌≢◌, refl, sym, ap, ap₂, ◌∙◌, subst, false, Option, List, [], ◌∷◌,
  ◌++◌, map, length, All, arith,
}
use multichain_liquidator_bo.Base.Int.{ℤ}
use multichain_liquidator_bo.Base.Perms.{joined}
use multichain_liquidator_bo.Base.Text.{Text, text_eq}
use multichain_liquidator_bo.Base.Action.{Result, ok, panic}
use multichain_liquidator_bo.Runtime.Types.{WorkItem}
use multichain_liquidator_bo.Runtime.Interfaces.{Lists, QueuerLaws}
use multichain_liquidator_bo.Manager.Pages.{work_item}
use multichain_liquidator_bo.Manager.Pages.Covers.{offsets}
use multichain_liquidator_bo.Manager.Block.{Manager, page_size}
use multichain_liquidator_bo.Manager.Run.Fills.{Filled}
use multichain_liquidator_bo.Collector.Service.{Collector, Remote, fetch_contract_items}
use multichain_liquidator_bo.Collector.Service.Drains.{
  Answered, collect_times, collect_times_drains,
}

length-offsets : (step n i : ℕ) → length (offsets step n i) ≡ n
length-offsets step zero i = refl
length-offsets step (suc n) i = ap suc (length-offsets step n (i + step))

length-map : {A B : Type 0} (f : A → B) (xs : List A) → length (map f xs) ≡ length xs
length-map f [] = refl
length-map f (x ∷ xs) = ap suc (length-map f xs)

map-map :
    {A B C : Type 0} (g : B → C) (f : A → B) (xs : List A)
    → map (λ (x : A). g (f x)) xs ≡ map g (map f xs)
map-map g f [] = refl
map-map g f (x ∷ xs) = ap (g (f x) ∷◌) (map-map g f xs)

joined-map :
    {A B C : Type 0} (g : B → List C) (f : A → B) (xs : List A)
    → joined g (map f xs) ≡ joined (λ (x : A). g (f x)) xs
joined-map g f [] = refl
joined-map g f (x ∷ xs) = ap (g (f x) ++◌) (joined-map g f xs)

All-map :
    {A B : Type 0} (P : B → Type 0) (f : A → B)
    → ((x : A) → P (f x))
    → (xs : List A) → All P (map f xs)
All-map P f h [] = tt
All-map P f h (x ∷ xs) = (h x, All-map P f h xs)

module _ {W F G : Type 0} (manager : Manager W F) (remote : Remote W) (service : Collector W G)
    (lists : W → Lists) (laws : QueuerLaws service.queue lists)
    (apart : (k : Text) (n : ℤ) (w : W)
      → ((service.metrics_cache.increment_by k n w).0 ≢ panic)
        × (lists (service.metrics_cache.increment_by k n w).1 ≡ lists w))
    (up : (k : Text) (xs : List Text) (w : W) → (service.queue.push_many k xs w).0 ≡ ok tt)
    (fetches : (k : Text) (w : W) → (o : Option Text) × ((service.queue.fetch k w).0 ≡ ok o))
    (encode : WorkItem → Text) (found : WorkItem → List Text × ℕ)
    (answered : (o : ℕ)
      → Answered remote service lists encode found (work_item manager.target o (page_size manager)))
    (names : text_eq service.collector_queue_name service.health_check_queue_name ≡ false)
    (same_work : service.collector_queue_name ≡ manager.collector_queue_name)
    (same_health : service.health_check_queue_name ≡ manager.health_check_queue_name) where
  -- The page at an offset.
  abbrev pub page_at : ℕ → WorkItem
  page_at o = work_item manager.target o (page_size manager)

  -- Where the manager has filled the queues for `total` items, manager and collectors name the queues
  -- alike and the two differently, the queue keeps its contract, fetches and pushes succeed, adding to
  -- the counters does not panic and leaves the lists alone, and the work item of each page can be
  -- decoded and its query is answered without changing the lists, then `total / page_size + 1` rounds
  -- of the collectors succeed and leave no work, and the queue of the health checkers holds the
  -- accounts of every page from the first to the last, each page once and in order.
  pub pages_collected :
      (total : ℕ) (w : W)
      → Filled manager encode total (lists w)
      → (w' : W) × (collect_times remote service (total / page_size manager + 1) w ≡ (ok tt, w'))
        × (lists w' manager.collector_queue_name ≡ [])
        × (lists w' manager.health_check_queue_name
            ≡ joined
                (λ (o : ℕ). (found (page_at o)).0)
                (offsets (page_size manager) (total / page_size manager + 1) 0))
  pages_collected total w (work, health, executor) =
      let os = offsets (page_size manager) (total / page_size manager + 1) 0 in
      let items = map page_at os in
      let count : length items ≡ total / page_size manager + 1 =
        length-map page_at os
        ∙ length-offsets (page_size manager) (total / page_size manager + 1) 0 in
      let (w', done, empty, all) =
        collect_times_drains remote service lists laws apart up fetches encode found names items w
          (All-map (Answered remote service lists encode found) page_at answered os)
          (ap (lists w) same_work ∙ work ∙ map-map encode page_at os) in
      (
        w',
        subst (λ (n : ℕ). collect_times remote service n w ≡ (ok tt, w')) count done,
        ap (lists w') (sym same_work) ∙ empty,
        ap (lists w') (sym same_health)
            ∙ all
            ∙ ap (λ (xs : List Text). xs ++ joined (λ (i : WorkItem). (found i).0) items)
                (ap (lists w) same_health ∙ health)
            ∙ joined-map (λ (i : WorkItem). (found i).0) page_at os,
      )
