-- ===== src/Runtime/Interfaces.antt =====
-- The interfaces of runtime/interfaces: `Queuer`, with what its clients rely on, and `Cacher`.
use multichain_liquidator_bo.Base.{
  ℕ, ◌≡◌, ◌⊎◌, sym, ap, ◌∙◌, fun_ext, inl, inr, Bool-cases, Option, none, some, List, [], ◌∷◌, ◌++◌,
  length, take, drop, if◌then◌else◌,
}
use multichain_liquidator_bo.Base.Int.{ℤ, pos, negsuc}
use multichain_liquidator_bo.Base.Text.{Text, text_eq, text_eq_sound}
use multichain_liquidator_bo.Base.Action.{Result, ok, err, panic, Action}

-- A queue service in a world `W`. `fetch` gives `none` for a nil item; a slice of items that is nil
-- is an empty list, since the implementations build it by `append` alone.
pub record Queuer (W : Type 0) : Type 0 where
  pub connect : Action W (Unit {0})
  pub push : Text → Text → Action W (Unit {0})
  pub push_many : Text → List Text → Action W (Unit {0})
  pub fetch : Text → Action W (Option Text)
  pub fetch_many : Text → ℤ → Action W (List Text)
  pub count_items : Text → Action W ℤ
  pub purge : Text → Action W (Unit {0})
  pub disconnect : Action W (Unit {0})

-- A cache of numbers of the type `F` (Go's float64).
pub record Cacher (W F : Type 0) : Type 0 where
  pub connect : Action W (Unit {0})
  pub set : Text → F → Action W (Unit {0})
  pub get_float64 : Text → Action W F
  pub increment_by : Text → ℤ → Action W (Unit {0})
  pub delete : Text → Action W (Unit {0})
  pub disconnect : Action W (Unit {0})

-- The lists that stand under the keys of a store.
abbrev pub Lists : Type 0
Lists = Text → List Text

abbrev pub update : Lists → Text → List Text → Lists
update l k xs j = if text_eq k j then xs else l j

pub update_self : (l : Lists) (k : Text) (xs : List Text) → l k ≡ xs → update l k xs ≡ l
update_self l k xs e = fun_ext (λ j. elim (Bool-cases (text_eq k j)) [
  | inl same ↦ rw same (sym e ∙ ap l (text_eq_sound k j same))
  | inr new ↦ rw new
])

-- What a push of `xs` at `k` may do: all of it, or a part from the front and an error.
abbrev pub Pushed : {A : Type 0} → Lists → Text → List Text → Result A → Lists → Type 0
Pushed l k xs (ok _) l' = l' ≡ update l k (l k ++ xs)
Pushed l k xs (err _) l' = (n : ℕ) × (l' ≡ update l k (l k ++ take n xs))
Pushed l k xs panic l' = ⊥

-- A fetch of `n` items that fails has left the list under `k` or taken the items from it.
abbrev pub Took : Lists → Text → ℕ → Lists → Type 0
Took l k n l' = (l' ≡ l) ⊎ (l' ≡ update l k (drop n (l k)))

-- What a fetch of at most `n` items at `k` gives. It fails for a negative `n`.
abbrev pub Fetched : Lists → Text → ℤ → Result (List Text) → Lists → Type 0
Fetched l k (pos n) (ok xs) l' = (xs ≡ take n (l k)) × (l' ≡ update l k (drop n (l k)))
Fetched l k (pos n) (err _) l' = Took l k n l'
Fetched l k (pos n) panic l' = ⊥
Fetched l k (negsuc n) (ok xs) l' = ⊥
Fetched l k (negsuc n) (err _) l' = l' ≡ l
Fetched l k (negsuc n) panic l' = ⊥

-- What a fetch of one item gives: the first, or none and an empty queue.
abbrev pub FetchedOne : Lists → Text → Result (Option Text) → Lists → Type 0
FetchedOne l k (ok none) l' = (l k ≡ []) × (l' ≡ l)
FetchedOne l k (ok (some x)) l' = (rest : List Text) × (l k ≡ x ∷ rest) × (l' ≡ update l k rest)
FetchedOne l k (err _) l' = Took l k 1 l'
FetchedOne l k panic l' = ⊥

abbrev pub Counted : Lists → Text → Result ℤ → Lists → Type 0
Counted l k (ok n) l' = (n ≡ pos (length (l k))) × (l' ≡ l)
Counted l k (err _) l' = l' ≡ l
Counted l k panic l' = ⊥

abbrev pub Purged : {A : Type 0} → Lists → Text → Result A → Lists → Type 0
Purged l k (ok _) l' = l' ≡ update l k []
Purged l k (err _) l' = (l' ≡ l) ⊎ (l' ≡ update l k [])
Purged l k panic l' = ⊥

-- A first-in first-out queue under each key, as the clients see it.
pub record QueuerLaws {W : Type 0} (q : Queuer W) (lists : W → Lists) : Type 0 where
  pub pushes :
      (k x : Text) (w : W) → Pushed (lists w) k (x ∷ []) (q.push k x w).0 (lists (q.push k x w).1)
  pub pushes_many :
      (k : Text) (xs : List Text) (w : W)
      → Pushed (lists w) k xs (q.push_many k xs w).0 (lists (q.push_many k xs w).1)
  pub fetches : (k : Text) (w : W) → FetchedOne (lists w) k (q.fetch k w).0 (lists (q.fetch k w).1)
  pub fetches_many :
      (k : Text) (n : ℤ) (w : W)
      → Fetched (lists w) k n (q.fetch_many k n w).0 (lists (q.fetch_many k n w).1)
  pub counts :
      (k : Text) (w : W) → Counted (lists w) k (q.count_items k w).0 (lists (q.count_items k w).1)
  pub purges : (k : Text) (w : W) → Purged (lists w) k (q.purge k w).0 (lists (q.purge k w).1)

-- A push that succeeds pushes everything.
pub Pushed-all :
    (r : Result (Unit {0})) (l : Lists) (k : Text) (xs : List Text) (l' : Lists)
    → r ≡ ok tt
    → Pushed l k xs r l'
    → l' ≡ update l k (l k ++ xs)
Pushed-all (ok a) l k xs l' e h = h
Pushed-all (err x) l k xs l' e h = absurd (let c : ⊥ = cc in c)
Pushed-all panic l k xs l' e h = absurd h
