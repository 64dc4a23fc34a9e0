-- ===== src/Collector/Service/Drains.antt =====
-- What rounds of the collectors leave when every page is answered.
use multichain_liquidator_bo.Base.{
  ℕ, zero, suc, ◌≡◌, ◌≢◌, refl, sym, ap, ◌∙◌, true, false, Bool-cases, inl, inr, Option, none, some,
  List, [], ◌∷◌, ◌++◌, map, length, All, append-nil, append_assoc,
}
use multichain_liquidator_bo.Base.Int.{ℤ}
use multichain_liquidator_bo.Base.Perms.{joined}
use multichain_liquidator_bo.Base.Text.{Text, text_eq, text_eq_sound, text_eq_refl}
use multichain_liquidator_bo.Base.Action.{Result, ok, err, panic, Action, ◌>>◌, bound, return}
use multichain_liquidator_bo.Runtime.Types.{WorkItem}
use multichain_liquidator_bo.Runtime.Interfaces.{Lists, update, QueuerLaws, FetchedOne}
use multichain_liquidator_bo.Collector.Service.{
  Collector, Remote, fetch_contract_items, collect_once,
}
use multichain_liquidator_bo.Collector.Service.Pushes.{collect_once_pushes}

-- Rounds of the loop, by whichever collectors, one after the other.
abbrev pub collect_times : {W F : Type 0} → Remote W → Collector W F → ℕ → Action W (Unit {0})
collect_times remote service zero = return tt
collect_times remote service (suc n) = collect_once remote service >> collect_times remote service n

other_name : (k j : Text) → text_eq k j ≡ false → text_eq j k ≡ false
other_name k j h = elim (Bool-cases (text_eq j k)) [
  | inl e ↦
      let same : text_eq k j ≡ true = rw (text_eq_sound j k e) (text_eq_refl k) in
      absurd (let c : ⊥ = cc in c)
  | inr e ↦ e
]

kept : (l : Lists) (k j : Text) (xs : List Text) → text_eq k j ≡ false → update l k xs j ≡ l j
kept l k j xs h = rw h refl

set_at : (l : Lists) (k : Text) (xs : List Text) → update l k xs k ≡ xs
set_at l k xs = rw (text_eq_refl k) refl

-- A work item can be decoded, and its page is answered with `found` without changing the lists.
abbrev pub Answered :
    {W F : Type 0}
    → Remote W
    → Collector W F
    → (W → Lists)
    → (WorkItem → Text)
    → (WorkItem → List Text × ℕ)
    → WorkItem
    → Type 0
Answered {W} remote service lists encode found item =
    (remote.unmarshal_work_item (encode item) ≡ ok item)
    × ((u : W)
        → (v : W) × (fetch_contract_items remote service item u ≡ (ok (found item), v))
          × (lists v ≡ lists u))

module _ {W F : Type 0} (remote : Remote W) (service : Collector W F) (lists : W → Lists)
    (laws : QueuerLaws service.queue lists)
    (apart : (k : Text) (n : ℤ) (w : W)
      → ((service.metrics_cache.increment_by k n w).0 ≢ panic)
        × (lists (service.metrics_cache.increment_by k n w).1 ≡ lists w))
    (up : (k : Text) (xs : List Text) (w : W) → (service.queue.push_many k xs w).0 ≡ ok tt)
    (fetches : (k : Text) (w : W) → (o : Option Text) × ((service.queue.fetch k w).0 ≡ ok o))
    (encode : WorkItem → Text) (found : WorkItem → List Text × ℕ)
    (names : text_eq service.collector_queue_name service.health_check_queue_name ≡ false) where
  abbrev work : Text
  work = service.collector_queue_name

  abbrev health : Text
  health = service.health_check_queue_name

  -- The first item is fetched.
  fetched_first :
      (x : Text) (rest : List Text) (w : W)
      → lists w work ≡ x ∷ rest
      → (u : W) × (service.queue.fetch work w ≡ (ok (some x), u))
        × (lists u ≡ update (lists w) work rest)
  fetched_first x rest w h =
      let (o, e) = fetches work w in go o (service.queue.fetch work w) e (laws.fetches work w)
    where
      go :
          (o : Option Text) (r : Result (Option Text) × W)
          → r.0 ≡ ok o
          → FetchedOne (lists w) work r.0 (lists r.1)
          → (u : W) × (r ≡ (ok (some x), u)) × (lists u ≡ update (lists w) work rest)
      go o (ok none, u) e (empty, same) = absurd (let c : ⊥ = cc in c)
      go o (ok (some y), u) e (ys, front, left) =
          let head : y ≡ x = cc in
          let tail : ys ≡ rest = cc in
          (u, ap (λ (y : Text). (ok (some y), u)) head, left ∙ ap (update (lists w) work) tail)
      go o (err x, u) e h = absurd (let c : ⊥ = cc in c)
      go o (panic, u) e h = absurd h

  collect_round :
      (item : WorkItem) (rest : List Text) (w : W)
      → Answered remote service lists encode found item
      → lists w work ≡ encode item ∷ rest
      → (w' : W) × (collect_once remote service w ≡ (ok tt, w'))
        × (lists w' work ≡ rest)
        × (lists w' health ≡ lists w health ++ (found item).0)
  collect_round item rest w (decoded, answers) h =
      let (u, fetched, l) = fetched_first (encode item) rest w h in
      let (v, answered, same) = answers u in
      let (w', done, l') =
        collect_once_pushes remote service lists laws apart up (encode item) item (found item).0
          (found item).1 w u v fetched decoded answered same in
      (
        w',
        done,
        ap (λ (l : Lists). l work) l'
            ∙ kept (lists u) health work (lists u health ++ (found item).0)
                (other_name work health names)
            ∙ ap (λ (l : Lists). l work) l
            ∙ set_at (lists w) work rest,
        ap (λ (l : Lists). l health) l'
            ∙ set_at (lists u) health (lists u health ++ (found item).0)
            ∙ ap (λ (xs : List Text). xs ++ (found item).0)
                (ap (λ (l : Lists). l health) l ∙ kept (lists w) work health rest names),
      )

  -- As many rounds as there are work items, all of them answered, leave none, and the accounts of each item, in order, at the
  -- end of the queue of the health checkers.
  pub collect_times_drains :
      (items : List WorkItem) (w : W)
      → All (Answered remote service lists encode found) items
      → lists w work ≡ map encode items
      → (w' : W) × (collect_times remote service (length items) w ≡ (ok tt, w'))
        × (lists w' work ≡ [])
        × (lists w' health ≡ lists w health ++ joined (λ (item : WorkItem). (found item).0) items)
  collect_times_drains [] w answered h = (w, refl, h, sym (append-nil (lists w health)))
  collect_times_drains (item ∷ items) w (answered, rest) h =
      let (v, done, left, moved) = collect_round item (map encode items) w answered h in
      let (w', ends, empty, all) = collect_times_drains items v rest left in
      (
        w',
        bound (collect_once remote service) (λ _. collect_times remote service (length items)) w tt
              v done
            ∙ ends,
        empty,
        all
            ∙ ap (λ (xs : List Text). xs ++ joined (λ (item : WorkItem). (found item).0) items)
                moved
            ∙ append_assoc (lists w health) (found item).0
                (joined (λ (item : WorkItem). (found item).0) items),
      )
