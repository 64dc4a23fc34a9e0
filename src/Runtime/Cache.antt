-- ===== src/Runtime/Cache.antt =====
-- runtime/cache/redis.go: a cache of numbers on plain Redis keys.
pub mod Refines
mod Tests
use multichain_liquidator_bo.Base.{Option, none, some}
use multichain_liquidator_bo.Base.Int.{ℤ}
use multichain_liquidator_bo.Base.Text.{Text}
use multichain_liquidator_bo.Base.Action.{
  ◌>>=◌, Action, Result, ok, err, Error, ◌>>◌, return, ignore,
}
use multichain_liquidator_bo.Runtime.Interfaces.{Cacher}
use multichain_liquidator_bo.Runtime.Redis.{Conn, Reply, value, err_nil, failure, get, incrby, del}

-- `GetFloat64`: a missing key reads as 0.
got : {F : Type 0} → F → Reply F → Result F
got zero_float (value x) = ok x
got zero_float err_nil = ok zero_float
got zero_float (failure e) = err e

connected : Option Error → Result (Unit {0})
connected none = ok tt
connected (some e) = err e

module _ {W F : Type 0} (conn : Conn W F) (zero_float : F) where
  unfoldable pub redis_cacher : Cacher W F
  unfolding got connected
  redis_cacher = record {
    connect = λ w. (connected (conn.status w), w);
    set = conn.set;
    get_float64 = λ k w. let (r, v) = conn.float64 (get k) w in (got zero_float r, v);
    increment_by = λ k n. conn.run (incrby k n);
    delete = λ k. conn.int (del k) >> return tt;
    disconnect = ignore conn.flush >> conn.close;
  }

-- `NewRedis`, given `redis.Dial` with the number of a database.
pub new_redis :
    {W F : Type 0} → (Text → ℤ → Action W (Conn W F)) → F → Text → ℤ → Action W (Cacher W F)
unfolding redis_cacher
new_redis dial zero_float endpoint database =
    dial endpoint database >>= λ conn. return (redis_cacher conn zero_float)
