-- ===== src/Runtime/Cache/Tests.antt =====
-- A store of numbers held in memory.
use multichain_liquidator_bo.Base.{List, ℕ, ◌≡◌, refl, Option, none, some}
use multichain_liquidator_bo.Base.Int.{ℤ, pos}
use multichain_liquidator_bo.Base.Action.{Result, ok}
use multichain_liquidator_bo.Runtime.Redis.{Command, del, get, Conn, Reply, value, err_nil}
use multichain_liquidator_bo.Runtime.Numbers.{CacherLaws}
use multichain_liquidator_bo.Runtime.Cache.{redis_cacher}
use multichain_liquidator_bo.Runtime.Cache.Refines.{
  FailsOnly, Stored, store_at, Replied, RedisNumbers, numbers_of, redis_cacher-CacherLaws,
}

abbrev int_of : Command → Stored ℕ → Result ℤ × Stored ℕ
int_of (del k) s = (ok (pos 1), store_at s k none)
int_of _ s = (ok (pos 0), s)

abbrev reply_of : Option ℕ → Reply ℕ
reply_of none = err_nil
reply_of (some x) = value x

abbrev float_of : Command → Stored ℕ → Reply ℕ × Stored ℕ
float_of (get k) s = (reply_of (s k), s)
float_of _ s = (err_nil, s)

abbrev memory : Conn (Stored ℕ) ℕ
memory = record {
  status = λ s. none;
  int = int_of;
  values = λ c s. (err_nil, s);
  float64 = float_of;
  run = λ c s. (ok tt, s);
  set = λ k x s. (ok tt, store_at s k (some x));
  flush = λ s. (ok tt, s);
  close = λ s. (ok tt, s);
}

reply_of-Replied : (s : Stored ℕ) (k : List ℕ) (o : Option ℕ) → s k ≡ o → Replied s k (reply_of o) s
reply_of-Replied s k none h = (h, refl)
reply_of-Replied s k (some x) h = (h, refl)

memory_laws : RedisNumbers memory (λ s. s)
memory_laws = record {
  sets = λ k x s. refl;
  gets = λ k s. reply_of-Replied s k (s k) refl;
  dels = λ k s. refl;
}

redis_cacher-CacherLaws_example :
    CacherLaws (redis_cacher memory 0) 0 (λ (s : Stored ℕ). numbers_of 0 s)
    × FailsOnly memory (redis_cacher memory 0)
redis_cacher-CacherLaws_example = redis_cacher-CacherLaws memory 0 (λ s. s) memory_laws
