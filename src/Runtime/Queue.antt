-- ===== src/Runtime/Queue.antt =====
-- runtime/queue/redis.go: a queue on the LIST type of Redis.
mod Fails
mod Refines
mod Tests
use multichain_liquidator_bo.Base.{ℕ, Option, none, some, List, [], ◌∷◌}
use multichain_liquidator_bo.Base.Int.{ℤ}
use multichain_liquidator_bo.Base.Text.{Text}
use multichain_liquidator_bo.Base.Action.{
  Error, Result, ok, err, panic, Action, ◌>>=◌, ◌>>◌, return, ignore,
}
use multichain_liquidator_bo.Runtime.Helpers.{chunk_slice}
use multichain_liquidator_bo.Runtime.Interfaces.{Queuer}
use multichain_liquidator_bo.Runtime.Redis.{
  Conn, Reply, value, err_nil, failure, Value, bytes, other, rpush, blpop, lpop, llen, del,
}

abbrev pub chunk_size : ℕ
chunk_size = 100

-- `parts[1]`, where it is a byte slice. A shorter reply panics.
second : List Value → Result (Option Text)
second (p ∷ bytes x ∷ rest) = ok (some x)
second (p ∷ other ∷ rest) = ok none
second (p ∷ []) = panic
second [] = panic

fetched : Reply (List Value) → Result (Option Text)
unfolding second
fetched (value parts) = second parts
fetched err_nil = ok none
fetched (failure e) = err e

-- The elements of an array reply that are byte slices.
byte_items : List Value → List Text
byte_items [] = []
byte_items (bytes x ∷ vs) = x ∷ byte_items vs
byte_items (other ∷ vs) = byte_items vs

fetched_many : Reply (List Value) → Result (List Text)
unfolding byte_items
fetched_many (value vs) = ok (byte_items vs)
fetched_many err_nil = ok []
fetched_many (failure e) = err e

-- `Connect` reports the connection's own error.
connected : Option Error → Result (Unit {0})
connected none = ok tt
connected (some e) = err e

module _ {W F : Type 0} (conn : Conn W F) where
  connect : Action W (Unit {0})
  unfolding connected
  connect w = (connected (conn.status w), w)

  push : Text → Text → Action W (Unit {0})
  push k x = conn.int (rpush k (x ∷ [])) >> return tt

  -- The loop over the chunks stops at the first error.
  push_chunks : Text → List (List Text) → Action W (Unit {0})
  push_chunks k [] = return tt
  push_chunks k (c ∷ cs) = conn.int (rpush k c) >> push_chunks k cs

  -- `none` would be a split into chunks that does not end.
  push_split : Text → Option (List (List Text)) → Action W (Unit {0})
  unfolding push_chunks
  push_split k none w = (panic, w)
  push_split k (some cs) w = push_chunks k cs w

  push_many : Text → List Text → Action W (Unit {0})
  unfolding push_split
  push_many k xs = push_split k (chunk_slice xs chunk_size)

  fetch : ℕ → Text → Action W (Option Text)
  unfolding fetched
  fetch pop_timeout k w = let (r, v) = conn.values (blpop k pop_timeout) w in (fetched r, v)

  fetch_many : Text → ℤ → Action W (List Text)
  unfolding fetched_many
  fetch_many k count w = let (r, v) = conn.values (lpop k count) w in (fetched_many r, v)

  purge : Text → Action W (Unit {0})
  purge k = conn.int (del k) >> return tt

  disconnect : Action W (Unit {0})
  disconnect = ignore conn.flush >> conn.close

  -- The methods together implement the interface `Queuer`.
  unfoldable pub redis_queuer : ℕ → Queuer W
  unfolding connect push push_many fetch fetch_many purge disconnect
  redis_queuer pop_timeout = record {
    connect = connect;
    push = push;
    push_many = push_many;
    fetch = fetch pop_timeout;
    fetch_many = fetch_many;
    count_items = λ k. conn.int (llen k);
    purge = purge;
    disconnect = disconnect;
  }

-- `NewRedis`, given `redis.Dial` with the number of a database.
pub new_redis :
    {W F : Type 0} → (Text → ℤ → Action W (Conn W F)) → Text → ℤ → ℕ → Action W (Queuer W)
unfolding redis_queuer
new_redis dial endpoint database pop_timeout =
    dial endpoint database >>= λ conn. return (redis_queuer conn pop_timeout)
