-- ===== src/Manager/Sample.antt =====
-- A manager with queues and a cache held in memory: the sample at which theorems on the manager are
-- tried.
use multichain_liquidator_bo.Base.{
  ℕ, ◌-◌, refl, false, true, Bool, Option, none, some, [], ◌∷◌, All,
}
use multichain_liquidator_bo.Base.Float.{Float}
use multichain_liquidator_bo.Base.Int.{ℤ, pos, negsuc}
use multichain_liquidator_bo.Base.Text.{codes}
use multichain_liquidator_bo.Base.Action.{foreign, ok, err, Action}
use multichain_liquidator_bo.Runtime.Interfaces.{Queuer, Cacher}
use multichain_liquidator_bo.Runtime.Numbers.{Numbers, put, CacherLaws}
use multichain_liquidator_bo.Runtime.Interfaces.{Lists, QueuerLaws}
use multichain_liquidator_bo.Runtime.Sample.{plain_queue, plain_laws}
use multichain_liquidator_bo.Manager.Metrics.Reads.{CountsOnly}
use multichain_liquidator_bo.Manager.Interfaces.{unchanged, Scaler}
use multichain_liquidator_bo.Manager.Block.{Manager}

-- Whole numbers stand for the floats: a number, or none for those below 0.
abbrev part : Option ℕ → ℕ
part none = 0
part (some n) = n

abbrev whole : ℤ → Option ℕ
whole (pos n) = some n
whole (negsuc n) = none

abbrev is_none : Option ℕ → Bool
is_none none = true
is_none (some n) = false

abbrev pub floats : Float (Option ℕ)
floats = record {
  nought = some 0;
  of_int = whole;
  minus = λ x y. some (part x - part y);
  is_negative = is_none;
}

abbrev pub World : Type 0
World = Lists × Numbers (Option ℕ)

abbrev pub queues_of : World → Lists
queues_of w = w.0

abbrev pub numbers_of : World → Numbers (Option ℕ)
numbers_of w = w.1

abbrev pub cache : Cacher World (Option ℕ)
cache = record {
  connect = λ c. (ok tt, c);
  set = λ k x w. (ok tt, (w.0, put w.1 k x));
  get_float64 = λ k w. (ok (w.1 k), w);
  increment_by = λ k n c. (ok tt, c);
  delete = λ k w. (ok tt, (w.0, put w.1 k (some 0)));
  disconnect = λ c. (ok tt, c);
}

pub cache_laws : CacherLaws cache (some 0) numbers_of
cache_laws = record { sets = λ k x c. refl; gets = λ k c. (refl, refl); deletes = λ k c. refl }

abbrev on_queues : {A : Type 0} → Action Lists A → Action World A
on_queues m w = let (r, l) = m w.0 in (r, (l, w.1))

abbrev queue : Queuer World
queue = record {
  connect = on_queues plain_queue.connect;
  push = λ k x. on_queues (plain_queue.push k x);
  push_many = λ k xs. on_queues (plain_queue.push_many k xs);
  fetch = λ k. on_queues (plain_queue.fetch k);
  fetch_many = λ k n. on_queues (plain_queue.fetch_many k n);
  count_items = λ k. on_queues (plain_queue.count_items k);
  purge = λ k. on_queues (plain_queue.purge k);
  disconnect = on_queues plain_queue.disconnect;
}

pub queue_laws : QueuerLaws queue queues_of
queue_laws = record {
  pushes = λ k x w. refl;
  pushes_many = λ k xs w. refl;
  fetches = λ k w. plain_laws.fetches k w.0;
  fetches_many = λ k n w. plain_laws.fetches_many k n w.0;
  counts = λ k w. (refl, refl);
  purges = λ k w. refl;
}

abbrev three_run : Scaler World
three_run = record {
  scale_automatic = λ c. (ok (unchanged, false, none), c);
  scale_up = λ c. (ok tt, c);
  scale_down = λ c. (ok tt, c);
  scale_to_zero = λ c. (ok tt, c);
  count = λ c. (ok (pos 3), c);
}

abbrev out_of_reach : Scaler World
out_of_reach = record {
  scale_automatic = λ c. (ok (unchanged, false, none), c);
  scale_up = λ c. (ok tt, c);
  scale_down = λ c. (ok tt, c);
  scale_to_zero = λ c. (ok tt, c);
  count = λ c. (err (foreign "timeout"), c);
}

abbrev pub manager : Manager World (Option ℕ)
manager = record {
  chain_id = codes "osmosis-1";
  rpc_websocket_endpoint = codes "ws";
  queue = queue;
  metrics_cache = cache;
  collector_queue_name = codes "collect";
  health_check_queue_name = codes "health";
  executor_queue_name = codes "execute";
  scalers = (codes "collector", three_run) ∷ (codes "executor", out_of_reach) ∷ [];
  target = record {
    rpc_endpoint = codes "rpc";
    hive_endpoint = codes "hive";
    lcd_endpoint = codes "lcd";
    collector_contract = codes "redbank";
  };
  collector_items_per_packet = pos 10;
  metrics_enabled = true;
}

-- Every queue holds old work, and every number is 7.
abbrev pub used : World
used = ((λ k. codes "old" ∷ []), λ k. some 7)

pub counts_only : All (CountsOnly numbers_of) manager.scalers
counts_only = ((λ c. (λ e. cc, refl)), ((λ c. (λ e. cc, refl)), tt))
