-- ===== src/HealthChecker/Service/Unhealthy.antt =====
-- What a round of the health checker leaves in the queue of liquidations.
use multichain_liquidator_bo.Base.{
  ◌<◌, ◌≡◌, ◌≢◌, refl, sym, ap, ◌∙◌, Bool, some, List, [], ◌∷◌, ◌++◌, append-nil, length,
}
use multichain_liquidator_bo.Base.Text.{Text, codes}
use multichain_liquidator_bo.Base.Action.{
  ok, panic, Action, bound, ignored, ignored_last, ok-ne-panic, ◌>>◌, ignore,
}
use multichain_liquidator_bo.Base.Int.{ℤ, pos}
use multichain_liquidator_bo.Runtime.Types.{HealthCheckWorkItem}
use multichain_liquidator_bo.Runtime.Interfaces.{Lists, update, update_self, QueuerLaws, Pushed-all}
use multichain_liquidator_bo.HealthChecker.Hive.{UserResult}
use multichain_liquidator_bo.HealthChecker.Jobs.{Job, generate_jobs}
use multichain_liquidator_bo.HealthChecker.Jobs.Covers.{generate_jobs-IsSplit}
use multichain_liquidator_bo.HealthChecker.Service.Selects.{
  Selects, produce_unhealthy_positions-Selects,
}
use multichain_liquidator_bo.HealthChecker.Service.{
  HealthChecker, Codec, produce_unhealthy_positions, push_unhealthy, run_jobs, check_positions,
}

abbrev total : Text
total = codes "executor.liquidations.total"

abbrev scanned : Text
scanned = codes "health_checker.accounts.scanned"

abbrev unhealthy : Text
unhealthy = codes "health_checker.unhealthy.total"

module _ {W F : Type 0} (codec : Codec)
    (pool : List (Job HealthCheckWorkItem) → Action W (List UserResult × Bool))
    (service : HealthChecker W F) (lists : W → Lists) where
  -- The metrics do not stand in the lists, and counting up does not panic.
  abbrev pub CountsApart : Type 0
  CountsApart =
      (k : Text) (n : ℤ) (w : W)
      → ((service.metrics_cache.increment_by k n w).0 ≢ panic)
        × (lists (service.metrics_cache.increment_by k n w).1 ≡ lists w)

  -- The queue is up: a push of several items succeeds.
  abbrev pub PushesAll : Type 0
  PushesAll = (k : Text) (xs : List Text) (w : W) → (service.queue.push_many k xs w).0 ≡ ok tt

  abbrev liq : Text
  liq = service.liquidation_queue_name

  push_unhealthy-lists :
      QueuerLaws service.queue lists
      → CountsApart
      → PushesAll
      → (xs : List Text) (w : W)
      → (w' : W) × (push_unhealthy codec pool service xs w ≡ (ok tt, w'))
        × (lists w' ≡ update (lists w) liq (lists w liq ++ xs))
  unfolding push_unhealthy
  push_unhealthy-lists laws apart up [] w = (
    w,
    refl,
    sym (update_self (lists w) liq (lists w liq ++ []) (sym (append-nil (lists w liq)))),
  )
  push_unhealthy-lists laws apart up (x ∷ xs) w =
      let count = service.metrics_cache.increment_by total (pos (length (x ∷ xs))) in
      let push = service.queue.push_many liq (x ∷ xs) in
      let v = (count w).1 in
      let kept = apart total (pos (length (x ∷ xs))) w in
      let pushed : lists (push v).1 ≡ update (lists v) liq (lists v liq ++ (x ∷ xs)) =
        Pushed-all (push v).0 (lists v) liq (x ∷ xs) (lists (push v).1) (up liq (x ∷ xs) v)
          (laws.pushes_many liq (x ∷ xs) v) in
      (
        (push v).1,
        ignored count (ignore push) w kept.0
            ∙ ignored_last push v (ok-ne-panic (push v).0 tt (up liq (x ∷ xs) v)),
        pushed ∙ ap (λ (l : Lists). update l liq (l liq ++ (x ∷ xs))) kept.1,
      )

  pub produced_pushed :
      QueuerLaws service.queue lists
      → CountsApart
      → PushesAll
      → 0 < service.addresses_per_job
      → (positions : List HealthCheckWorkItem) (w v : W) (rs : List UserResult) (b : Bool)
      → ((jobs : List (Job HealthCheckWorkItem))
          → generate_jobs positions service.addresses_per_job ≡ some jobs
          → pool jobs w ≡ (ok (rs, b), v))
      → lists v ≡ lists w
      → (w' : W) × (check_positions codec pool service positions w ≡ (ok tt, w'))
        × (lists w' ≡ update (lists w) liq (lists w liq ++ produce_unhealthy_positions codec rs))
  unfolding check_positions run_jobs
  produced_pushed laws apart up enough positions w v rs b answers same =
      let (jobs, e, _, _) = generate_jobs-IsSplit positions service.addresses_per_job enough in
      let bad = produce_unhealthy_positions codec rs in
      let scan = service.metrics_cache.increment_by scanned (pos (length rs)) in
      let note = service.metrics_cache.increment_by unhealthy (pos (length bad)) in
      let after = λ (results : List UserResult × Bool).
        ignore (service.metrics_cache.increment_by scanned (pos (length results.0)))
        >> (push_unhealthy codec pool service (produce_unhealthy_positions codec results.0)
            >> ignore (
                service.metrics_cache.increment_by unhealthy
                  (pos (length (produce_unhealthy_positions codec results.0))))) in
      let s = (scan v).1 in
      let scan_kept = apart scanned (pos (length rs)) v in
      let (u, pushed, l) = push_unhealthy-lists laws apart up bad s in
      let note_kept = apart unhealthy (pos (length bad)) u in
      let ran : run_jobs codec pool service (some jobs) w ≡ (ok (rs, b), v) = answers jobs e in
      (
        (note u).1,
        bound (run_jobs codec pool service (generate_jobs positions service.addresses_per_job))
              after w (rs, b) v (ap (λ j. run_jobs codec pool service j w) e ∙ ran)
            ∙ ignored scan (push_unhealthy codec pool service bad >> ignore note) v scan_kept.0
            ∙ bound (push_unhealthy codec pool service bad) (λ _. ignore note) s tt u pushed
            ∙ ignored_last note u note_kept.0,
        note_kept.1 ∙ l ∙ ap (λ (m : Lists). update m liq (m liq ++ bad)) (scan_kept.1 ∙ same),
      )

  -- When adding to the counters does not panic and leaves the lists alone, pushes succeed, the
  -- number of addresses per job is above 0, and the pool answers the jobs made of the positions with
  -- the results `rs` and leaves the lists as they were, a round over decoded positions succeeds, and
  -- all it changes in the lists is that texts stand behind what the queue of liquidations held: one,
  -- the encoding, for each result whose health factor is a number below 1 and which can be encoded, in
  -- the order of the results, and none for a result that is healthy, that has no number for a health
  -- factor, or that cannot be encoded.
  pub unhealthy_pushed :
      QueuerLaws service.queue lists
      → CountsApart
      → PushesAll
      → 0 < service.addresses_per_job
      → (positions : List HealthCheckWorkItem) (w v : W) (rs : List UserResult) (b : Bool)
      → ((jobs : List (Job HealthCheckWorkItem))
          → generate_jobs positions service.addresses_per_job ≡ some jobs
          → pool jobs w ≡ (ok (rs, b), v))
      → lists v ≡ lists w
      → (w' : W) × (out : List Text) × (check_positions codec pool service positions w
          ≡ (ok tt, w'))
        × Selects codec rs out
        × (lists w' ≡ update (lists w) liq (lists w liq ++ out))
  unhealthy_pushed laws apart up enough positions w v rs b answers same =
      let (w', done, pushed) =
        produced_pushed laws apart up enough positions w v rs b answers same in
      (
        w',
        produce_unhealthy_positions codec rs,
        done,
        produce_unhealthy_positions-Selects codec rs,
        pushed,
      )
