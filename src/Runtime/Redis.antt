-- ===== src/Runtime/Redis.antt =====
-- The Redis client (github.com/gomodule/redigo), which is not in the repository: a parameter of the
-- queue and of the cache, and the documented behaviour of the commands that the queue sends.
use multichain_liquidator_bo.Base.{ℕ, ◌≡◌, ◌⊎◌, Option, List, [], ◌∷◌, ◌++◌, map, take, drop}
use multichain_liquidator_bo.Base.Int.{ℤ, pos, negsuc}
use multichain_liquidator_bo.Base.Text.{Text}
use multichain_liquidator_bo.Base.Action.{Error, Result, ok, err, panic, Action}
use multichain_liquidator_bo.Runtime.Interfaces.{Lists, update, Took, Counted, Purged}

-- The commands that `conn.Do` is given, with their arguments.
pub data Command : Type 0 where
  rpush : Text → List Text → Command
  blpop : Text → ℕ → Command
  lpop : Text → ℤ → Command
  llen del get : Text → Command
  incrby : Text → ℤ → Command

-- An element of an array reply, by its dynamic type: `[]byte`, or another.
pub data Value : Type 0 where
  bytes : Text → Value
  other : Value

-- What redis.Values and redis.Float64 make of a reply: a value, the error redis.ErrNil, or another
-- error.
pub data Reply (A : Type 0) : Type 0 where
  value : A → Reply A
  err_nil : Reply A
  failure : Error → Reply A

-- A connection, with floats of the type `F`: `redis.Int(conn.Do(c))` and the like as one call.
pub record Conn (W F : Type 0) : Type 0 where
  pub status : W → Option Error
  pub int : Command → Action W ℤ
  pub values : Command → W → Reply (List Value) × W
  pub float64 : Command → W → Reply F × W
  pub run : Command → Action W (Unit {0})
  pub set : Text → F → Action W (Unit {0})
  pub flush : Action W (Unit {0})
  pub close : Action W (Unit {0})

-- RPUSH is atomic; an error leaves open whether it was carried out.
abbrev pub Rpushed : Lists → Text → List Text → Result ℤ → Lists → Type 0
Rpushed l k xs (ok _) l' = l' ≡ update l k (l k ++ xs)
Rpushed l k xs (err _) l' = (l' ≡ l) ⊎ (l' ≡ update l k (l k ++ xs))
Rpushed l k xs panic l' = ⊥

-- LPOP with a count: the elements from the head, or nil where the key holds none. A negative count is
-- an error; any other error leaves open whether the command was carried out.
abbrev pub Lpopped : Lists → Text → ℤ → Reply (List Value) → Lists → Type 0
Lpopped l k (pos n) (value vs) l' =
    (vs ≡ map bytes (take n (l k))) × (l' ≡ update l k (drop n (l k)))
Lpopped l k (pos n) err_nil l' = (l k ≡ []) × (l' ≡ l)
Lpopped l k (pos n) (failure _) l' = Took l k n l'
Lpopped l k (negsuc n) (value vs) l' = ⊥
Lpopped l k (negsuc n) err_nil l' = ⊥
Lpopped l k (negsuc n) (failure _) l' = l' ≡ l

-- BLPOP: the key and the first element, or nil at the time-out.
abbrev pub Blpopped : Lists → Text → Reply (List Value) → Lists → Type 0
Blpopped l k (value vs) l' =
    (x : Text) × (rest : List Text) × (l k ≡ x ∷ rest)
    × (vs ≡ bytes k ∷ bytes x ∷ [])
    × (l' ≡ update l k rest)
Blpopped l k err_nil l' = (l k ≡ []) × (l' ≡ l)
Blpopped l k (failure _) l' = Took l k 1 l'

pub record RedisLaws {W F : Type 0} (c : Conn W F) (lists : W → Lists) : Type 0 where
  pub rpushes :
      (k : Text) (xs : List Text) (w : W)
      → Rpushed (lists w) k xs (c.int (rpush k xs) w).0 (lists (c.int (rpush k xs) w).1)
  pub lpops :
      (k : Text) (n : ℤ) (w : W)
      → Lpopped (lists w) k n (c.values (lpop k n) w).0 (lists (c.values (lpop k n) w).1)
  pub blpops :
      (k : Text) (t : ℕ) (w : W)
      → Blpopped (lists w) k (c.values (blpop k t) w).0 (lists (c.values (blpop k t) w).1)
  pub llens :
      (k : Text) (w : W) → Counted (lists w) k (c.int (llen k) w).0 (lists (c.int (llen k) w).1)
  pub dels : (k : Text) (w : W) → Purged (lists w) k (c.int (del k) w).0 (lists (c.int (del k) w).1)
