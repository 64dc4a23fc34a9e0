-- ===== src/Runtime/Queue/Refines.antt =====
-- The Redis queue keeps what clients rely on: a first-in first-out list under each key.
use mathlib.Core.Path.{fun_ext}
use mathlib.Core.List.{append-nil, append_assoc}
use multichain_liquidator_bo.Base.{
  ℕ, suc, ◌+◌, ◌≡◌, refl, sym, ap, ◌∙◌, subst, ◌⊎◌, inl, inr, List, [], ◌∷◌, ◌++◌, map, Bool,
  take_all, drop_all, arith, length, take, drop, concat, if◌then◌else◌,
}
use multichain_liquidator_bo.Base.Int.{ℤ, pos, negsuc}
use multichain_liquidator_bo.Base.Text.{Text, text_eq_refl}
use multichain_liquidator_bo.Base.Action.{Result, ok, err, panic, Action, ◌>>◌, return}
use multichain_liquidator_bo.Runtime.Helpers.{chunk_slice-IsChunked}
use multichain_liquidator_bo.Runtime.Interfaces.{
  Lists, update, update_self, Pushed, Fetched, FetchedOne, Purged, QueuerLaws,
}
use multichain_liquidator_bo.Runtime.Redis.{
  Conn, Reply, value, err_nil, failure, Value, bytes, rpush, blpop, lpop, del, RedisLaws, Rpushed,
  Lpopped, Blpopped,
}
use multichain_liquidator_bo.Runtime.Queue.Fails.{FailsOnly, redis_queuer_fails}
use multichain_liquidator_bo.Runtime.Queue.{
  chunk_size, fetched, byte_items, fetched_many, push, push_chunks, push_split, push_many, fetch,
  fetch_many, purge, redis_queuer,
}

update_twice :
    (l : Lists) (k : Text) (xs ys : List Text) → update (update l k xs) k ys ≡ update l k ys
update_twice l k xs ys = fun_ext (λ j. ground (arith))

byte_items-map : (xs : List Text) → byte_items (map bytes xs) ≡ xs
unfolding byte_items
byte_items-map [] = refl
byte_items-map (x ∷ xs) = ap (x ∷◌) (byte_items-map xs)

take-add-append : (xs ys : List Text) (n : ℕ) → take (length xs + n) (xs ++ ys) ≡ xs ++ take n ys
take-add-append [] ys n = ap (λ (m : ℕ). take m ys) (let e : 0 + n ≡ n = omega arith in e)
take-add-append (x ∷ xs) ys n =
    ap (λ (m : ℕ). take m (x ∷ xs ++ ys))
      (let e : suc (length xs) + n ≡ suc (length xs + n) = omega arith in e)
    ∙ ap (x ∷◌) (take-add-append xs ys n)

update-append :
    (l : Lists) (k : Text) (xs ys : List Text)
    → let l' = update l k (l k ++ xs) in update l' k (l' k ++ ys) ≡ update l k (l k ++ (xs ++ ys))
update-append l k xs ys =
    update_twice l k (l k ++ xs) (update l k (l k ++ xs) k ++ ys)
    ∙ ap (update l k) (
        ap (λ (b : Bool). (if b then l k ++ xs else l k) ++ ys) (text_eq_refl k)
        ∙ append_assoc (l k) xs ys)

-- A push that goes through, then another of which `r` came.
Pushed-append :
    {A : Type 0} (l l₁ l₂ : Lists) (k : Text) (xs ys : List Text) (r : Result A)
    → l₁ ≡ update l k (l k ++ xs)
    → Pushed l₁ k ys r l₂
    → Pushed l k (xs ++ ys) r l₂
Pushed-append l l₁ l₂ k xs ys (ok a) e h =
    h ∙ ap (λ (m : Lists). update m k (m k ++ ys)) e ∙ update-append l k xs ys
Pushed-append l l₁ l₂ k xs ys (err x) e (n, h) = (
  length xs + n,
  h
      ∙ ap (λ (m : Lists). update m k (m k ++ take n ys)) e
      ∙ update-append l k xs (take n ys)
      ∙ ap (λ (zs : List Text). update l k (l k ++ zs)) (sym (take-add-append xs ys n)),
)
Pushed-append l l₁ l₂ k xs ys panic e h = h

-- A command that fails has pushed nothing of its items, or all of them, and nothing after them.
Pushed_of_err :
    (l l' : Lists) (k : Text) (xs ys : List Text)
    → (l' ≡ l) ⊎ (l' ≡ update l k (l k ++ xs))
    → (n : ℕ) × (l' ≡ update l k (l k ++ take n (xs ++ ys)))
Pushed_of_err l l' k xs ys (inl same) =
    (0, same ∙ sym (update_self l k (l k ++ []) (sym (append-nil (l k)))))
Pushed_of_err l l' k xs ys (inr all) = (
  length xs + 0,
  all
      ∙ ap (λ (zs : List Text). update l k (l k ++ zs))
          (sym (append-nil xs) ∙ sym (take-add-append xs ys 0)),
)

module _ {W F : Type 0} (conn : Conn W F) (lists : W → Lists) (laws : RedisLaws conn lists) where
  push_one :
      (k : Text) (xs : List Text) (next : Action W (Unit {0})) (ys : List Text) (w : W)
      → ((v : W) → Pushed (lists v) k ys (next v).0 (lists (next v).1))
      → let (r, w') = (conn.int (rpush k xs) >> next) w in
        Pushed (lists w) k (xs ++ ys) r (lists w')
  push_one k xs next ys w h = go (conn.int (rpush k xs) w) (laws.rpushes k xs w)
    where
      go :
          (s : Result ℤ × W)
          → Rpushed (lists w) k xs s.0 (lists s.1)
          → let (r, w') = ((λ _. s) >> next) w in Pushed (lists w) k (xs ++ ys) r (lists w')
      go (ok n, v) e =
          Pushed-append (lists w) (lists v) (lists (next v).1) k xs ys (next v).0 e (h v)
      go (err x, v) e = Pushed_of_err (lists w) (lists v) k xs ys e
      go (panic, v) e = e

  push-Pushed :
      (k x : Text) (w : W)
      → Pushed (lists w) k (x ∷ []) (push conn k x w).0 (lists (push conn k x w).1)
  unfolding push
  push-Pushed k x w =
      push_one k (x ∷ []) (return tt) [] w
        (λ v. sym (update_self (lists v) k (lists v k ++ []) (sym (append-nil (lists v k)))))

  push_chunks-Pushed :
      (k : Text) (cs : List (List Text)) (w : W)
      → let (r, w') = push_chunks conn k cs w in Pushed (lists w) k (concat cs) r (lists w')
  unfolding push_chunks
  push_chunks-Pushed k [] w =
      sym (update_self (lists w) k (lists w k ++ []) (sym (append-nil (lists w k))))
  push_chunks-Pushed k (c ∷ cs) w =
      push_one k c (push_chunks conn k cs) (concat cs) w (push_chunks-Pushed k cs)

  push_many-Pushed :
      (k : Text) (xs : List Text) (w : W)
      → let (r, w') = push_many conn k xs w in Pushed (lists w) k xs r (lists w')
  unfolding push_many
  push_many-Pushed k xs w =
      let (cs, e, chunked) = chunk_slice-IsChunked xs chunk_size (omega arith) in
      rw e (
        unfold push_split in
        subst
          (λ (ys : List Text).
            let (r, w') = push_chunks conn k cs w in Pushed (lists w) k ys r (lists w'))
          chunked.joined (push_chunks-Pushed k cs w))

  fetch-FetchedOne :
      (t : ℕ) (k : Text) (w : W)
      → FetchedOne (lists w) k (fetch conn t k w).0 (lists (fetch conn t k w).1)
  unfolding fetch
  fetch-FetchedOne t k w = go (conn.values (blpop k t) w) (laws.blpops k t w)
    where
      go :
          (s : Reply (List Value) × W)
          → Blpopped (lists w) k s.0 (lists s.1)
          → FetchedOne (lists w) k (fetched s.0) (lists s.1)
      go (value vs, v) (x, rest, e, shape, after) = rw shape (rest, e, after)
      go (err_nil, v) e = e
      go (failure x, v) e = e

  fetch_many-Fetched :
      (k : Text) (n : ℤ) (w : W)
      → Fetched (lists w) k n (fetch_many conn k n w).0 (lists (fetch_many conn k n w).1)
  unfolding fetch_many
  fetch_many-Fetched k n w = go n (conn.values (lpop k n) w) (laws.lpops k n w)
    where
      go :
          (n : ℤ) (s : Reply (List Value) × W)
          → Lpopped (lists w) k n s.0 (lists s.1)
          → Fetched (lists w) k n (fetched_many s.0) (lists s.1)
      go (pos n) (value vs, v) e = (ap byte_items e.0 ∙ byte_items-map (take n (lists w k)), e.1)
      go (pos n) (err_nil, v) e = (
        sym (ap (take n) e.0 ∙ take_all n [] (omega arith)),
        e.1
            ∙ sym (
                update_self (lists w) k (drop n (lists w k))
                  (e.0 ∙ sym (ap (drop n) e.0 ∙ drop_all n [] (omega arith)))),
      )
      go (pos n) (failure x, v) e = e
      go (negsuc n) (value vs, v) e = absurd e
      go (negsuc n) (err_nil, v) e = absurd e
      go (negsuc n) (failure x, v) e = e

  purge-Purged :
      (k : Text) (w : W) → Purged (lists w) k (purge conn k w).0 (lists (purge conn k w).1)
  unfolding purge
  purge-Purged k w = go (conn.int (del k) w) (laws.dels k w)
    where
      go :
          (s : Result ℤ × W)
          → Purged (lists w) k s.0 (lists s.1)
          → let (r, w') = ((λ _. s) >> return tt) w in Purged (lists w) k r (lists w')
      go (ok n, v) e = e
      go (err x, v) e = e
      go (panic, v) e = e

  redis_queuer_keeps : (t : ℕ) → QueuerLaws (redis_queuer conn t) lists
  unfolding redis_queuer
  redis_queuer_keeps t = record {
    pushes = push-Pushed;
    pushes_many = push_many-Pushed;
    fetches = fetch-FetchedOne t;
    fetches_many = fetch_many-Fetched;
    counts = laws.llens;
    purges = purge-Purged;
  }

  -- Where Redis behaves as documented, the queue keeps a list under each key: a push appends, in
  -- chunks, all items or, with an error, a part from the front; a fetch takes from the front what
  -- it returns or, with an error, nothing or what it would have returned; a count is the length; a
  -- purge empties the list or, with an error, may leave it; no call touches another key or panics. A
  -- fetch of a negative number fails and takes nothing. A call fails only where a command of it did,
  -- by that error; the nil reply for an empty list is no error.
  pub redis_queuer-QueuerLaws :
      (t : ℕ) → QueuerLaws (redis_queuer conn t) lists × FailsOnly conn t (redis_queuer conn t)
  redis_queuer-QueuerLaws t = (redis_queuer_keeps t, redis_queuer_fails conn t)
