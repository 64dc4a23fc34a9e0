-- ===== src/Collector/Service/Pushes.antt =====
-- What a round of the collector leaves in the queue of the health checkers.
use multichain_liquidator_bo.Base.{ℕ, ◌≡◌, ◌≢◌, ap, ◌∙◌, Option, some, List, ◌++◌, length}
use multichain_liquidator_bo.Base.Int.{ℤ, pos}
use multichain_liquidator_bo.Base.Text.{Text, codes}
use multichain_liquidator_bo.Base.Action.{
  Result, ok, panic, ◌>>◌, ignore, bound, ignored, ignored_last, ok-ne-panic,
}
use multichain_liquidator_bo.Runtime.Types.{WorkItem}
use multichain_liquidator_bo.Runtime.Interfaces.{Lists, update, QueuerLaws, Pushed-all}
use multichain_liquidator_bo.Collector.Service.{
  Collector, Remote, pure_step, fetch_contract_items, handle_item, handle_fetched, collect_once,
}

abbrev scanned : Text
scanned = codes "collector.contract_items.scanned"

abbrev accounts_total : Text
accounts_total = codes "health_checker.accounts.total"

module _ {W F : Type 0} (remote : Remote W) (service : Collector W F) (lists : W → Lists)
    (laws : QueuerLaws service.queue lists)
    (apart : (k : Text) (n : ℤ) (w : W)
      → ((service.metrics_cache.increment_by k n w).0 ≢ panic)
        × (lists (service.metrics_cache.increment_by k n w).1 ≡ lists w))
    (up : (k : Text) (xs : List Text) (w : W) → (service.queue.push_many k xs w).0 ≡ ok tt) where
  abbrev health : Text
  health = service.health_check_queue_name

  handle_item-lists :
      (item : WorkItem) (items : List Text) (n : ℕ) (u v : W)
      → fetch_contract_items remote service item u ≡ (ok (items, n), v)
      → lists v ≡ lists u
      → (w' : W) × (handle_item remote service item u ≡ (ok tt, w'))
        × (lists w' ≡ update (lists u) health (lists u health ++ items))
  unfolding handle_item
  handle_item-lists item items n u v found same =
      let push = service.queue.push_many health items in
      let scan = service.metrics_cache.increment_by scanned (pos n) in
      let count = service.metrics_cache.increment_by accounts_total (pos (length items)) in
      let x = (push v).1 in
      let y = (scan x).1 in
      let rest = λ (r : List Text × ℕ).
        ignore (service.queue.push_many health r.0)
        >> (ignore (service.metrics_cache.increment_by scanned (pos r.1))
            >> ignore (service.metrics_cache.increment_by accounts_total (pos (length r.0)))) in
      let pushed : lists x ≡ update (lists v) health (lists v health ++ items) =
        Pushed-all (push v).0 (lists v) health items (lists x) (up health items v)
          (laws.pushes_many health items v) in
      (
        (count y).1,
        bound (fetch_contract_items remote service item) rest u (items, n) v found
            ∙ ignored push (ignore scan >> ignore count) v
                (ok-ne-panic (push v).0 tt (up health items v))
            ∙ ignored scan (ignore count) x (apart scanned (pos n) x).0
            ∙ ignored_last count y (apart accounts_total (pos (length items)) y).0,
        (apart accounts_total (pos (length items)) y).1
            ∙ (apart scanned (pos n) x).1
            ∙ pushed
            ∙ ap (λ (l : Lists). update l health (l health ++ items)) same,
      )

  -- When adding to the counters does not panic and leaves the lists alone, pushes succeed, a work
  -- item is fetched that can be read, and the contract's state is fetched and gathered into `items`
  -- without changing the lists, a round of the loop succeeds, and after the fetch all it changes in
  -- the lists is that these items stand, in order, at the end of the queue of the health checkers.
  pub collect_once_pushes :
      (bytes : Text) (item : WorkItem) (items : List Text) (n : ℕ) (w u v : W)
      → service.queue.fetch service.collector_queue_name w ≡ (ok (some bytes), u)
      → remote.unmarshal_work_item bytes ≡ ok item
      → fetch_contract_items remote service item u ≡ (ok (items, n), v)
      → lists v ≡ lists u
      → (w' : W) × (collect_once remote service w ≡ (ok tt, w'))
        × (lists w' ≡ update (lists u) health (lists u health ++ items))
  unfolding collect_once handle_fetched
  collect_once_pushes bytes item items n w u v fetched read found same =
      let (w', handled, l) = handle_item-lists item items n u v found same in
      (
        w',
        bound (service.queue.fetch service.collector_queue_name)
              (λ (f : Option Text). handle_fetched remote service f) w (some bytes) u fetched
            ∙ bound (pure_step (remote.unmarshal_work_item bytes))
                (λ (i : WorkItem). handle_item remote service i) u item u
                (ap (λ (r : Result WorkItem). (r, u)) read)
            ∙ handled,
        l,
      )
