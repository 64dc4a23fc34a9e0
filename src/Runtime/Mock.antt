-- ===== src/Runtime/Mock.antt =====
-- runtime/mock/redis_queue.go and redis_cache.go: a queue and a cache on a mocked connection.
use multichain_liquidator_bo.Base.{List, [], ◌∷◌, length}
use multichain_liquidator_bo.Base.Int.{ℤ, pos}
use multichain_liquidator_bo.Base.Text.{Text, codes}
use multichain_liquidator_bo.Base.Action.{message, ok, err, Action, ◌>>◌, return}
use multichain_liquidator_bo.Runtime.Interfaces.{Queuer, Cacher}
use multichain_liquidator_bo.Runtime.Redis.{
  Command, rpush, blpop, lpop, llen, Value, bytes, other, Reply, value, Conn,
}
use multichain_liquidator_bo.Runtime.Queue.{redis_queuer}
use multichain_liquidator_bo.Runtime.Cache.{redis_cacher}

-- A connection of redigomock, which is not in the repository, answers a command without a handler and
-- everything else.
module _ {W F : Type 0} (plain : Conn W F) where
  -- The handlers of RPUSH and LLEN. The error also shows the number of arguments.
  mock_int : Command → Action W ℤ
  mock_int (rpush k []) w = (err (message "unexpected number of arguments: expected 2 or more"), w)
  mock_int (rpush k (x ∷ xs)) w = (ok (pos (length (x ∷ xs))), w)
  mock_int (llen k) w = (ok (pos 0), w)
  mock_int c w = plain.int c w

  -- The handlers of BLPOP and LPOP; the key is a string, not a byte slice.
  mock_values : Command → W → Reply (List Value) × W
  mock_values (blpop k t) w = (value (other ∷ bytes (codes "testvalue") ∷ []), w)
  mock_values (lpop k n) w = (
    value (
        other
        ∷ bytes (codes "testvalue")
        ∷ bytes (codes "testvalue2")
        ∷ bytes (codes "testvalue3")
        ∷ []),
    w,
  )
  mock_values c w = plain.values c w

  mock_conn : Conn W F
  unfolding mock_int mock_values
  mock_conn = record plain { int = mock_int; values = mock_values }

  -- `PushMany` sends one command, whatever the number of items.
  mock_push_many : Text → List Text → Action W (Unit {0})
  unfolding mock_conn
  mock_push_many k xs = mock_conn.int (rpush k xs) >> return tt

  -- `RedisQueue`, made by `NewRedisQueue`: its other methods are those of the queue, at a time-out of
  -- five seconds.
  pub mock_queue : Queuer W
  unfolding mock_conn mock_push_many
  mock_queue = record (redis_queuer mock_conn 5) { push_many = mock_push_many }

  -- `RedisCache`, made by `NewRedisCache`, with the methods of the cache.
  pub mock_cache : F → Cacher W F
  unfolding mock_conn
  mock_cache zero_float = redis_cacher mock_conn zero_float
