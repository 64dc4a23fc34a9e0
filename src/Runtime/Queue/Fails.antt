-- ===== src/Runtime/Queue/Fails.antt =====
-- When the calls of the Redis queue fail.

use multichain_liquidator_bo.Base.{ℕ, Option, none, some, ◌≡◌, ◌≢◌, ◌⊎◌, inl, inr, List, [], ◌∷◌}
use multichain_liquidator_bo.Base.Int.{ℤ}
use multichain_liquidator_bo.Base.Text.{Text}
use multichain_liquidator_bo.Base.Action.{Error, Result, ok, err, panic, Action, ◌>>◌, return}
use multichain_liquidator_bo.Runtime.Helpers.{chunk_slice}
use multichain_liquidator_bo.Runtime.Interfaces.{Queuer}
use multichain_liquidator_bo.Runtime.Redis.{
  Conn, Reply, value, err_nil, failure, Value, bytes, other, rpush, blpop, lpop, llen, del,
}
use multichain_liquidator_bo.Runtime.Queue.{
  chunk_size, second, fetched, fetched_many, push, push_chunks, push_split, push_many, fetch,
  fetch_many, purge, redis_queuer,
}

-- The calls of a queue fail only where Redis did, by its error; a push of many items, where one of
-- its commands did.
pub record FailsOnly {W F : Type 0} (conn : Conn W F) (t : ℕ) (q : Queuer W) : Type 0 where
  pub pushes :
      (k x : Text) (w : W) (e : Error)
      → (q.push k x w).0 ≡ err e
      → (conn.int (rpush k (x ∷ [])) w).0 ≡ err e
  pub pushes_many :
      (k : Text) (xs : List Text) (w : W) (e : Error)
      → (q.push_many k xs w).0 ≡ err e
      → (chunk : List Text) × (v : W) × ((conn.int (rpush k chunk) v).0 ≡ err e)
  pub fetches :
      (k : Text) (w : W) (e : Error)
      → (q.fetch k w).0 ≡ err e
      → (conn.values (blpop k t) w).0 ≡ failure e
  pub fetches_many :
      (k : Text) (n : ℤ) (w : W) (e : Error)
      → (q.fetch_many k n w).0 ≡ err e
      → (conn.values (lpop k n) w).0 ≡ failure e
  pub counts :
      (k : Text) (w : W) (e : Error)
      → (q.count_items k w).0 ≡ err e
      → (conn.int (llen k) w).0 ≡ err e
  pub purges :
      (k : Text) (w : W) (e : Error) → (q.purge k w).0 ≡ err e → (conn.int (del k) w).0 ≡ err e

second-ne-err : (vs : List Value) (e : Error) → second vs ≢ err e
unfolding second
second-ne-err [] e h = cc
second-ne-err (p ∷ []) e h = cc
second-ne-err (p ∷ bytes x ∷ rest) e h = cc
second-ne-err (p ∷ other ∷ rest) e h = cc

fetched_inv : (r : Reply (List Value)) (e : Error) → fetched r ≡ err e → r ≡ failure e
unfolding fetched
fetched_inv (value vs) e h = absurd (second-ne-err vs e h)
fetched_inv err_nil e h = absurd (let c : ⊥ = cc in c)
fetched_inv (failure x) e h = cc

fetched_many_inv : (r : Reply (List Value)) (e : Error) → fetched_many r ≡ err e → r ≡ failure e
unfolding fetched_many
fetched_many_inv (value vs) e h = absurd (let c : ⊥ = cc in c)
fetched_many_inv err_nil e h = absurd (let c : ⊥ = cc in c)
fetched_many_inv (failure x) e h = cc

module _ {W : Type 0} where
  -- Of two calls in a row, the first failed, or the second one behind it.
  then_inv :
      (r : Result ℤ × W) (next : Action W (Unit {0})) (w : W) (e : Error)
      → (((λ _. r) >> next) w).0 ≡ err e
      → (r.0 ≡ err e) ⊎ ((next r.1).0 ≡ err e)
  then_inv (ok n, v) next w e h = inr h
  then_inv (err x, v) next w e h = inl cc
  then_inv (panic, v) next w e h = absurd (let c : ⊥ = cc in c)

  last_inv :
      (r : Result ℤ × W) (w : W) (e : Error) → (((λ _. r) >> return tt) w).0 ≡ err e → r.0 ≡ err e
  last_inv r w e h = elim (then_inv r (return tt) w e h) [
    | inl first ↦ first
    | inr second ↦ absurd (let c : ⊥ = cc in c)
  ]

module _ {W F : Type 0} (conn : Conn W F) where
  push_chunks_inv :
      (k : Text) (cs : List (List Text)) (w : W) (e : Error)
      → (push_chunks conn k cs w).0 ≡ err e
      → (chunk : List Text) × (v : W) × ((conn.int (rpush k chunk) v).0 ≡ err e)
  unfolding push_chunks
  push_chunks_inv k [] w e h = absurd (let c : ⊥ = cc in c)
  push_chunks_inv k (c ∷ cs) w e h =
      elim (then_inv (conn.int (rpush k c) w) (push_chunks conn k cs) w e h) [
        | inl failed ↦ (c, w, failed)
        | inr later ↦ push_chunks_inv k cs (conn.int (rpush k c) w).1 e later
      ]

  push_split_inv :
      (k : Text) (o : Option (List (List Text))) (w : W) (e : Error)
      → (push_split conn k o w).0 ≡ err e
      → (chunk : List Text) × (v : W) × ((conn.int (rpush k chunk) v).0 ≡ err e)
  unfolding push_split
  push_split_inv k none w e h = absurd (let c : ⊥ = cc in c)
  push_split_inv k (some cs) w e h = push_chunks_inv k cs w e h

  pub redis_queuer_fails : (t : ℕ) → FailsOnly conn t (redis_queuer conn t)
  unfolding redis_queuer push push_many fetch fetch_many purge
  redis_queuer_fails t = record {
    pushes = λ k x w e h. last_inv (conn.int (rpush k (x ∷ [])) w) w e h;
    pushes_many = λ k xs w e h. push_split_inv k (chunk_slice xs chunk_size) w e h;
    fetches = λ k w e h. fetched_inv (conn.values (blpop k t) w).0 e h;
    fetches_many = λ k n w e h. fetched_many_inv (conn.values (lpop k n) w).0 e h;
    counts = λ k w e h. h;
    purges = λ k w e h. last_inv (conn.int (del k) w) w e h;
  }
