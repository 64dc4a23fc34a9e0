-- ===== src/Runtime/Sample.antt =====
-- A store held in memory, which answers every command as Redis documents it: the parameter at which
-- the theorems about the queue are tried.
use multichain_liquidator_bo.Base.{
  Option, some, ℕ, ◌≡◌, refl, none, List, [], ◌∷◌, ◌++◌, map, take, drop, length,
}
use multichain_liquidator_bo.Base.Int.{ℤ, pos, negsuc}
use multichain_liquidator_bo.Base.Text.{Text}
use multichain_liquidator_bo.Base.Action.{foreign, Result, ok, err}
use multichain_liquidator_bo.Runtime.Interfaces.{
  Queuer, Cacher, QueuerLaws, Fetched, FetchedOne, Lists, update,
}
use multichain_liquidator_bo.Runtime.Redis.{
  Command, rpush, blpop, lpop, llen, del, Value, bytes, Reply, value, err_nil, failure, Conn,
  RedisLaws, Lpopped, Blpopped,
}

abbrev store_int : Command → Lists → Result ℤ × Lists
store_int (rpush k xs) l = (ok (pos (length (l k ++ xs))), update l k (l k ++ xs))
store_int (llen k) l = (ok (pos (length (l k))), l)
store_int (del k) l = (ok (pos 1), update l k [])
store_int _ l = (ok (pos 0), l)

abbrev first_of_list : Text → Lists → List Text → Reply (List Value) × Lists
first_of_list k l [] = (err_nil, l)
first_of_list k l (x ∷ rest) = (value (bytes k ∷ bytes x ∷ []), update l k rest)

abbrev some_of_list : Text → ℕ → Lists → List Text → Reply (List Value) × Lists
some_of_list k n l [] = (err_nil, l)
some_of_list k n l (x ∷ rest) =
    (value (map bytes (take n (x ∷ rest))), update l k (drop n (x ∷ rest)))

abbrev counted_of_list : Text → ℤ → Lists → Reply (List Value) × Lists
counted_of_list k (pos n) l = some_of_list k n l (l k)
counted_of_list k (negsuc n) l = (failure (foreign "value is out of range, must be positive"), l)

abbrev store_values : Command → Lists → Reply (List Value) × Lists
store_values (blpop k t) l = first_of_list k l (l k)
store_values (lpop k n) l = counted_of_list k n l
store_values _ l = (err_nil, l)

abbrev pub store : Conn Lists ℕ
store = record {
  status = λ l. none;
  int = store_int;
  values = store_values;
  float64 = λ c l. (err_nil, l);
  run = λ c l. (ok tt, l);
  set = λ k x l. (ok tt, l);
  flush = λ l. (ok tt, l);
  close = λ l. (ok tt, l);
}

store-Blpopped :
    (k : Text) (l : Lists) (xs : List Text)
    → l k ≡ xs
    → Blpopped l k (first_of_list k l xs).0 (first_of_list k l xs).1
store-Blpopped k l [] e = (e, refl)
store-Blpopped k l (x ∷ rest) e = (x, rest, e, refl, refl)

store-Lpopped :
    (k : Text) (n : ℕ) (l : Lists) (xs : List Text)
    → l k ≡ xs
    → Lpopped l k (pos n) (some_of_list k n l xs).0 (some_of_list k n l xs).1
store-Lpopped k n l [] e = (e, refl)
store-Lpopped k n l (x ∷ rest) e = rw e (refl, refl)

store_counted-Lpopped :
    (k : Text) (n : ℤ) (l : Lists)
    → Lpopped l k n (counted_of_list k n l).0 (counted_of_list k n l).1
store_counted-Lpopped k (pos n) l = store-Lpopped k n l (l k) refl
store_counted-Lpopped k (negsuc n) l = refl

pub store-RedisLaws : RedisLaws store (λ l. l)
store-RedisLaws = record {
  rpushes = λ k xs l. refl;
  lpops = store_counted-Lpopped;
  blpops = λ k t l. store-Blpopped k l (l k) refl;
  llens = λ k l. (refl, refl);
  dels = λ k l. refl;
}

abbrev pub first_of_queue : Text → Lists → List Text → Result (Option Text) × Lists
first_of_queue k l [] = (ok none, l)
first_of_queue k l (x ∷ xs) = (ok (some x), update l k xs)

first_of_queue-FetchedOne :
    (k : Text) (l : Lists) (xs : List Text)
    → l k ≡ xs
    → FetchedOne l k (first_of_queue k l xs).0 (first_of_queue k l xs).1
first_of_queue-FetchedOne k l [] e = (e, refl)
first_of_queue-FetchedOne k l (x ∷ xs) e = (xs, e, refl)

abbrev some_of_queue : Text → ℤ → Lists → Result (List Text) × Lists
some_of_queue k (pos n) l = (ok (take n (l k)), update l k (drop n (l k)))
some_of_queue k (negsuc n) l = (err (foreign "value is out of range, must be positive"), l)

some_of_queue-Fetched :
    (k : Text) (n : ℤ) (l : Lists) → Fetched l k n (some_of_queue k n l).0 (some_of_queue k n l).1
some_of_queue-Fetched k (pos n) l = (refl, refl)
some_of_queue-Fetched k (negsuc n) l = refl

-- The world is the lists under the keys of the queue.
abbrev pub plain_queue : Queuer Lists
plain_queue = record {
  connect = λ l. (ok tt, l);
  push = λ k x l. (ok tt, update l k (l k ++ x ∷ []));
  push_many = λ k xs l. (ok tt, update l k (l k ++ xs));
  fetch = λ k l. first_of_queue k l (l k);
  fetch_many = some_of_queue;
  count_items = λ k l. (ok (pos (length (l k))), l);
  purge = λ k l. (ok tt, update l k []);
  disconnect = λ l. (ok tt, l);
}

pub plain_laws : QueuerLaws plain_queue (λ l. l)
plain_laws = record {
  pushes = λ k x l. refl;
  pushes_many = λ k xs l. refl;
  fetches = λ k l. first_of_queue-FetchedOne k l (l k) refl;
  fetches_many = some_of_queue-Fetched;
  counts = λ k l. (refl, refl);
  purges = λ k l. refl;
}

abbrev pub no_cache : Cacher Lists ℕ
no_cache = record {
  connect = λ l. (ok tt, l);
  set = λ k x l. (ok tt, l);
  get_float64 = λ k l. (ok 0, l);
  increment_by = λ k n l. (ok tt, l);
  delete = λ k l. (ok tt, l);
  disconnect = λ l. (ok tt, l);
}
