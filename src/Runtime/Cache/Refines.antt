-- ===== src/Runtime/Cache/Refines.antt =====
-- The Redis cache keeps what clients rely on: a number under each key, 0 where there is none.
use mathlib.Core.Path.{fun_ext}
use multichain_liquidator_bo.Base.{
  ◌≡◌, refl, ap, ◌∙◌, sym, Option, none, some, Bool, true, false, ◌⊎◌, inl, inr, if◌then◌else◌,
}
use multichain_liquidator_bo.Base.Text.{Text, text_eq}
use multichain_liquidator_bo.Base.Int.{ℤ}
use multichain_liquidator_bo.Base.Action.{Error, Result, ok, err, panic, ◌>>◌, return}
use multichain_liquidator_bo.Runtime.Interfaces.{Cacher}
use multichain_liquidator_bo.Runtime.Numbers.{Numbers, put, Set, Got, CacherLaws}
use multichain_liquidator_bo.Runtime.Redis.{Conn, Reply, value, err_nil, failure, get, del}
use multichain_liquidator_bo.Runtime.Cache.{got, redis_cacher}

-- The keys that exist, and their numbers.
abbrev pub Stored : Type 0 → Type 0
Stored F = Text → Option F

abbrev pub store_at : {F : Type 0} → Stored F → Text → Option F → Stored F
store_at s k o j = if text_eq k j then o else s j

-- SET and DEL: an error leaves open whether they were carried out.
abbrev pub Changed : {A F : Type 0} → Stored F → Text → Option F → Result A → Stored F → Type 0
Changed s k o (ok _) s' = s' ≡ store_at s k o
Changed s k o (err _) s' = (s' ≡ s) ⊎ (s' ≡ store_at s k o)
Changed s k o panic s' = ⊥

-- GET: the number, nil where the key is missing, or an error.
abbrev pub Replied : {F : Type 0} → Stored F → Text → Reply F → Stored F → Type 0
Replied s k (value x) s' = (s k ≡ some x) × (s' ≡ s)
Replied s k err_nil s' = (s k ≡ none) × (s' ≡ s)
Replied s k (failure _) s' = s' ≡ s

-- The documented behaviour of the commands that the cache sends.
pub record RedisNumbers {W F : Type 0} (conn : Conn W F) (stored : W → Stored F) : Type 0 where
  pub sets :
      (k : Text) (x : F) (w : W)
      → Changed (stored w) k (some x) (conn.set k x w).0 (stored (conn.set k x w).1)
  pub gets :
      (k : Text) (w : W)
      → Replied (stored w) k (conn.float64 (get k) w).0 (stored (conn.float64 (get k) w).1)
  pub dels :
      (k : Text) (w : W)
      → Changed (stored w) k none (conn.int (del k) w).0 (stored (conn.int (del k) w).1)

abbrev or_nought : {F : Type 0} → F → Option F → F
or_nought nought none = nought
or_nought nought (some x) = x

-- A missing key holds 0.
abbrev pub numbers_of : {F : Type 0} → F → Stored F → Numbers F
numbers_of nought s k = or_nought nought (s k)

module _ {F : Type 0} (nought : F) where
  numbers_of-store_at :
      (s : Stored F) (k : Text) (o : Option F)
      → numbers_of nought (store_at s k o) ≡ put (numbers_of nought s) k (or_nought nought o)
  numbers_of-store_at s k o = fun_ext (λ j. go (text_eq k j) j)
    where
      go :
          (b : Bool) (j : Text)
          → or_nought nought (if b then o else s j)
            ≡ (if b then or_nought nought o else or_nought nought (s j))
      go true j = refl
      go false j = refl

  Changed-Set :
      {A : Type 0} (s s' : Stored F) (k : Text) (o : Option F) (r : Result A)
      → Changed s k o r s'
      → Set (numbers_of nought s) k (or_nought nought o) r (numbers_of nought s')
  Changed-Set s s' k o (ok a) h = ap (numbers_of nought) h ∙ numbers_of-store_at s k o
  Changed-Set s s' k o (err e) (inl h) = inl (ap (numbers_of nought) h)
  Changed-Set s s' k o (err e) (inr h) = inr (ap (numbers_of nought) h ∙ numbers_of-store_at s k o)
  Changed-Set s s' k o panic h = absurd h

  Replied-Got :
      (s s' : Stored F) (k : Text) (r : Reply F)
      → Replied s k r s'
      → Got (numbers_of nought s) k (got nought r) (numbers_of nought s')
  unfolding got
  Replied-Got s s' k (value x) (h, same) =
      (sym (ap (or_nought nought) h), ap (numbers_of nought) same)
  Replied-Got s s' k err_nil (h, same) =
      (sym (ap (or_nought nought) h), ap (numbers_of nought) same)
  Replied-Got s s' k (failure e) same = ap (numbers_of nought) same

-- The calls of a cache fail only where Redis did, by its error.
pub record FailsOnly {W F : Type 0} (conn : Conn W F) (cache : Cacher W F) : Type 0 where
  pub sets :
      (k : Text) (x : F) (w : W) (e : Error)
      → (cache.set k x w).0 ≡ err e
      → (conn.set k x w).0 ≡ err e
  pub gets :
      (k : Text) (w : W) (e : Error)
      → (cache.get_float64 k w).0 ≡ err e
      → (conn.float64 (get k) w).0 ≡ failure e
  pub deletes :
      (k : Text) (w : W) (e : Error) → (cache.delete k w).0 ≡ err e → (conn.int (del k) w).0 ≡ err e

got_inv : {F : Type 0} (nought : F) (r : Reply F) (e : Error) → got nought r ≡ err e → r ≡ failure e
unfolding got
got_inv nought (value x) e h = absurd (let c : ⊥ = cc in c)
got_inv nought err_nil e h = absurd (let c : ⊥ = cc in c)
got_inv nought (failure e') e h = cc

module _ {W F : Type 0} (conn : Conn W F) (nought : F) (stored : W → Stored F)
    (laws : RedisNumbers conn stored) where
  deleted :
      (c : Numbers F) (k : Text) (r : Result ℤ × W)
      → Set c k nought r.0 (numbers_of nought (stored r.1))
      → let (r', v) = ((λ (w : W). r) >> return tt) r.1 in
        Set c k nought r' (numbers_of nought (stored v))
  deleted c k (ok n, v) h = h
  deleted c k (err e, v) h = h
  deleted c k (panic, v) h = h

  deleted_inv :
      (r : Result ℤ × W) (v : W) (e : Error)
      → (((λ (w : W). r) >> return tt) v).0 ≡ err e
      → r.0 ≡ err e
  deleted_inv (ok n, u) v e h = absurd (let c : ⊥ = cc in c)
  deleted_inv (err e', u) v e h = cc
  deleted_inv (panic, u) v e h = absurd (let c : ⊥ = cc in c)

  redis_cacher_fails : FailsOnly conn (redis_cacher conn nought)
  unfolding redis_cacher
  redis_cacher_fails = record {
    sets = λ k x w e h. h;
    gets = λ k w e h. got_inv nought (conn.float64 (get k) w).0 e h;
    deletes = λ k w e h. deleted_inv (conn.int (del k) w) w e h;
  }

  redis_cacher_holds :
      CacherLaws (redis_cacher conn nought) nought (λ w. numbers_of nought (stored w))
  unfolding redis_cacher
  redis_cacher_holds = record {
    sets = λ k x w.
        Changed-Set nought (stored w) (stored (conn.set k x w).1) k (some x) (conn.set k x w).0
          (laws.sets k x w);
    gets = λ k w.
        Replied-Got nought (stored w) (stored (conn.float64 (get k) w).1) k
          (conn.float64 (get k) w).0 (laws.gets k w);
    deletes = λ k w. deleted (numbers_of nought (stored w)) k (conn.int (del k) w) (
        Changed-Set nought (stored w) (stored (conn.int (del k) w).1) k none (conn.int (del k) w).0
          (laws.dels k w));
  }

  -- Where Redis behaves as documented, the cache holds a number under each key, 0 where the key is
  -- missing: Set and Delete change the one number, to 0 in the case of Delete, or fail with it changed
  -- or not, and GetFloat64 reads it, a missing key as 0, and changes nothing. No call panics, and each
  -- fails only where its command did, by that error; the nil reply for a missing key is no error.
  pub redis_cacher-CacherLaws :
      CacherLaws (redis_cacher conn nought) nought (λ w. numbers_of nought (stored w))
      × FailsOnly conn (redis_cacher conn nought)
  redis_cacher-CacherLaws = (redis_cacher_holds, redis_cacher_fails)
