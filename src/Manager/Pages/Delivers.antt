-- ===== src/Manager/Pages/Delivers.antt =====
-- What the pages sent leave in the queue.
use multichain_liquidator_bo.Base.{
  ℕ, ◌≡◌, refl, sym, ap, ◌∙◌, false, List, [], ◌∷◌, ◌++◌, map, append-nil, append_assoc,
}
use multichain_liquidator_bo.Base.Text.{Text, text_eq, text_eq_refl}
use multichain_liquidator_bo.Base.Action.{Result, ok}
use multichain_liquidator_bo.Runtime.Types.{WorkItem}
use multichain_liquidator_bo.Runtime.Interfaces.{Queuer, Lists, update, QueuerLaws, Pushed-all}
use multichain_liquidator_bo.Manager.Pages.{Target, work_item, send}
use multichain_liquidator_bo.Manager.Pages.Covers.{send_each, then_send}

update_at : (l : Lists) (k : Text) (xs : List Text) → update l k xs k ≡ xs
update_at l k xs = rw (text_eq_refl k) refl

update_apart :
    (l : Lists) (k j : Text) (xs : List Text) → text_eq k j ≡ false → update l k xs j ≡ l j
update_apart l k j xs h = rw h refl

module _ {W : Type 0} (queue : Queuer W) (lists : W → Lists) (laws : QueuerLaws queue lists)
    (marshal : WorkItem → Result Text) (encode : WorkItem → Text)
    (encodes : (item : WorkItem) → marshal item ≡ ok (encode item))
    (pushes : (k x : Text) (w : W) → (queue.push k x w).0 ≡ ok tt) (name : Text) (t : Target)
    (step : ℕ) where
  -- The page at an offset, as it stands in the queue.
  abbrev pub page_at : ℕ → Text
  page_at offset = encode (work_item t offset step)

  send-push :
      (offset : ℕ) (w : W)
      → send queue marshal name t step offset w ≡ queue.push name (page_at offset) w
  unfolding send
  send-push offset w = rw (encodes (work_item t offset step)) refl

  send-lists :
      (offset : ℕ) (w : W)
      → lists (queue.push name (page_at offset) w).1
        ≡ update (lists w) name (lists w name ++ page_at offset ∷ [])
  send-lists offset w =
      let x = page_at offset in
      Pushed-all (queue.push name x w).0 (lists w) name (x ∷ []) (lists (queue.push name x w).1)
        (pushes name x w) (laws.pushes name x w)

  then_send_ok :
      (r : Result (Unit {0}) × W) (next : W → Result (Unit {0}) × W)
      → r.0 ≡ ok tt
      → then_send next r ≡ next r.1
  then_send_ok (ok a, v) next h = refl
  then_send_ok (Result.err e, v) next h = absurd (let c : ⊥ = cc in c)
  then_send_ok (Result.panic, v) next h = absurd (let c : ⊥ = cc in c)

  -- The pages sent stand at the end of the queue, in order, and no other queue changes.
  pub send_each-lists :
      (os : List ℕ) (w : W)
      → (w' : W) × (send_each queue marshal name t step os w ≡ (ok tt, w'))
        × (lists w' name ≡ lists w name ++ map page_at os)
        × ((k : Text) → text_eq name k ≡ false → lists w' k ≡ lists w k)
  send_each-lists [] w = (w, refl, sym (append-nil (lists w name)), λ k h. refl)
  send_each-lists (o ∷ os) w =
      let x = page_at o in
      let r = queue.push name x w in
      let (w', e, own, other) = send_each-lists os r.1 in
      (
        w',
        ap (then_send (send_each queue marshal name t step os)) (send-push o w)
            ∙ then_send_ok r (send_each queue marshal name t step os) (pushes name x w)
            ∙ e,
        own
            ∙ ap (◌++ map page_at os) (
                ap (λ (l : Lists). l name) (send-lists o w)
                ∙ update_at (lists w) name (lists w name ++ x ∷ []))
            ∙ append_assoc (lists w name) (x ∷ []) (map page_at os),
        λ k h.
            other k h
            ∙ ap (λ (l : Lists). l k) (send-lists o w)
            ∙ update_apart (lists w) name k (lists w name ++ x ∷ []) h,
      )
