-- ===== src/Manager/Pages/Covers.antt =====
-- The pages that the manager hands out cover the contract's state.
use native.Mathlib.Nat.{div-mul-le_self, lt-div-mul-add}
use native.Mathlib.Numerals.{add-one}
use multichain_liquidator_bo.Base.{
  ◌≢◌, ℕ, zero, suc, ◌+◌, ◌*◌, ◌/◌, ◌%◌, ◌<◌, ◌≤◌, ◌≡◌, refl, ◌∙◌, ◌&&◌, Option, none, some, List,
  [], ◌∷◌, arith, leb, ltb, le→leb, lt→not_leb, if◌then◌else◌,
}
use multichain_liquidator_bo.Base.Text.{Text}
use multichain_liquidator_bo.Base.Action.{Result, ok, err, panic}
use multichain_liquidator_bo.Runtime.Types.{WorkItem}
use multichain_liquidator_bo.Runtime.Interfaces.{Queuer}
use multichain_liquidator_bo.Manager.Pages.{Target, u64_mod, after_send, send, send_pages}

-- `n` offsets from `i`, `step` apart.
abbrev pub offsets : ℕ → ℕ → ℕ → List ℕ
offsets step zero i = []
offsets step (suc n) i = i ∷ offsets step n (i + step)

-- How many of the pages that begin at the offsets hold the item of index `j`.
abbrev pub holding : ℕ → ℕ → List ℕ → ℕ
holding step j [] = 0
holding step j (o ∷ os) =
    let rest = holding step j os in if leb o j && ltb j (o + step) then suc rest else rest

holding_none : (step j n i : ℕ) → j < i → holding step j (offsets step n i) ≡ 0
holding_none step j zero i h = refl
holding_none step j (suc n) i h = ground (arith, holding_none step j n (i + step))

-- Of `n` pages one after another from offset `i`, each item between their ends is in exactly one.
holding_one : (step j n i : ℕ) → i ≤ j → j < i + n * step → holding step j (offsets step n i) ≡ 1
holding_one step j zero i h k = absurd (omega arith)
holding_one step j (suc n) i h k =
    ground (arith, holding_none step j n (i + step), holding_one step j n (i + step))

-- What follows an item that is sent: the rest, unless sending panicked.
abbrev pub then_send :
    {W : Type 0} → (W → Result (Unit {0}) × W) → Result (Unit {0}) × W → Result (Unit {0}) × W
then_send next (ok _, w) = next w
then_send next (err _, w) = next w
then_send next (panic, w) = (panic, w)

after_send-then_send :
    {W : Type 0} (rest : W → Option (Result (Unit {0}) × W)) (next : W → Result (Unit {0}) × W)
    (r : Result (Unit {0}) × W)
    → ((w : W) → rest w ≡ some (next w))
    → after_send rest r ≡ some (then_send next r)
unfolding after_send
after_send-then_send rest next (ok _, w) h = h w
after_send-then_send rest next (err _, w) h = h w
after_send-then_send rest next (panic, w) h = refl

module _ {W : Type 0} (queue : Queuer W) (marshal : WorkItem → Result Text) (name : Text)
    (t : Target) (step : ℕ) where
  -- The pages sent one after another, with no loop left.
  abbrev pub send_each : List ℕ → W → Result (Unit {0}) × W
  send_each [] w = (ok tt, w)
  send_each (o ∷ os) w = then_send (send_each os) (send queue marshal name t step o w)

  module _ (total : ℕ) (fits : total + step < u64_mod) where
    abbrev sent : ℕ → ℕ → W → Option (Result (Unit {0}) × W)
    sent f = send_pages queue marshal name t step f total

    sent_round :
        (f i : ℕ) (w : W)
        → i ≤ total
        → sent (suc f) i w ≡ after_send (sent f (i + step)) (send queue marshal name t step i w)
    unfolding send_pages
    sent_round f i w h =
        let e : (i + step) % u64_mod ≡ i + step = omega arith in rw (le→leb i total h, e) refl

    sent_end : (f i : ℕ) (w : W) → total < i → sent (suc f) i w ≡ some (ok tt, w)
    unfolding send_pages
    sent_end f i w h = rw (lt→not_leb i total h) refl

    sent-offsets :
        (n f i : ℕ) (w : W)
        → n + 1 < f
        → i + n * step ≤ total
        → total < i + suc n * step
        → sent f i w ≡ some (send_each (offsets step (suc n) i) w)
    sent-offsets n zero i w h below above = absurd (omega arith)
    sent-offsets zero (suc zero) i w h below above = absurd (omega arith)
    sent-offsets zero (suc (suc f)) i w h below above =
        sent_round (suc f) i w (omega arith)
        ∙ after_send-then_send (sent (suc f) (i + step)) (send_each [])
            (send queue marshal name t step i w) (λ v. sent_end f (i + step) v (omega arith))
    sent-offsets (suc n) (suc f) i w h below above =
        sent_round f i w (omega arith)
        ∙ after_send-then_send (sent f (i + step)) (send_each (offsets step (suc n) (i + step)))
            (send queue marshal name t step i w)
            (λ v. sent-offsets n f (i + step) v (omega arith) (omega arith) (omega arith))

  zero_round :
      (f total : ℕ) (w : W)
      → step ≡ 0
      → send_pages queue marshal name t step (suc f) total 0 w
        ≡ after_send
            (send_pages queue marshal name t step f total 0)
            (send queue marshal name t step 0 w)
  unfolding send_pages
  zero_round f total w e =
      let z : (0 + step) % u64_mod ≡ 0 = omega arith in rw (le→leb 0 total (omega arith), z) refl

  stay :
      (f total : ℕ) (w : W)
      → step ≡ 0
      → (r : Result (Unit {0}) × W) → r.0 ≢ panic
      → ((v : W) → send_pages queue marshal name t step f total 0 v ≡ none)
      → after_send (send_pages queue marshal name t step f total 0) r ≡ none
  unfolding after_send
  stay f total w e (ok _, v) safe h = h v
  stay f total w e (err _, v) safe h = h v
  stay f total w e (panic, v) safe h = absurd (safe refl)

  -- For a page size above 0, and where total and page size together stay below 2^64, the loop ends
  -- within `total / step + 3` rounds: it sends `total / step + 1` pages in order, `step` apart from
  -- offset 0, and the item of any index `j` up to the total is in exactly one of them.
  pub send_pages_covers :
      (total j : ℕ) (w : W)
      → 0 < step
      → total + step < u64_mod
      → j ≤ total
      → let os = offsets step (total / step + 1) 0 in
        (send_pages queue marshal name t step (total / step + 3) total 0 w ≡ some (send_each os w))
        × (holding step j os ≡ 1)
  send_pages_covers total j w h fits le =
      let n = total / step in
      let below = div-mul-le_self total step in
      let above : total < total / step * step + step = lt-div-mul-add h in
      (
        rw add-one
            (sent-offsets total fits n (n + 3) 0 w (omega arith) (omega arith) (omega arith)),
        rw add-one (holding_one step j (suc n) 0 (omega arith) (omega arith)),
      )

  -- With page size 0 the loop sends the page at offset 0 over and over: however much fuel it is
  -- given it does not end, unless sending panics.
  pub send_pages_diverges :
      (f total : ℕ) (w : W)
      → step ≡ 0
      → ((v : W) → (send queue marshal name t step 0 v).0 ≢ panic)
      → send_pages queue marshal name t step f total 0 w ≡ none
  send_pages_diverges zero total w e safe = unfold send_pages in refl
  send_pages_diverges (suc f) total w e safe =
      zero_round f total w e
      ∙ stay f total w e (send queue marshal name t step 0 w) (safe w)
          (λ v. send_pages_diverges f total v e safe)
