-- ===== src/HealthChecker/Service/Round.antt =====
-- A round of the service, with the worker pool that it runs.
use mathlib.Core.List.{Perm}
use multichain_liquidator_bo.Base.{◌<◌, ◌≡◌, refl, ap, true, Bool, some, List, [], ◌∷◌, ◌++◌, map}
use multichain_liquidator_bo.Base.Perms.{joined, Perm-joined}
use multichain_liquidator_bo.Base.Text.{Text}
use multichain_liquidator_bo.Base.Action.{ok, Action}
use multichain_liquidator_bo.Runtime.Types.{HealthCheckWorkItem}
use multichain_liquidator_bo.Runtime.Interfaces.{Lists, update, QueuerLaws}
use multichain_liquidator_bo.HealthChecker.Hive.{UserResult, ContractQuery, HiveApi}
use multichain_liquidator_bo.HealthChecker.Hive.Answers.{HiveLaws, Apart, answer_for}
use multichain_liquidator_bo.HealthChecker.Service.Selects.{
  Selects, produce_unhealthy_positions-Selects,
}
use multichain_liquidator_bo.HealthChecker.Jobs.{Job, generate_jobs}
use multichain_liquidator_bo.HealthChecker.Pool.{Pool, start, Reach}
use multichain_liquidator_bo.HealthChecker.Results.{JobResult, user_results}
use multichain_liquidator_bo.HealthChecker.Results.Joined.{run_job, pool_answers}
use multichain_liquidator_bo.HealthChecker.Service.{
  HealthChecker, Codec, unhealthy_result, produce_unhealthy_positions, check_positions,
}
use multichain_liquidator_bo.HealthChecker.Service.Unhealthy.{
  CountsApart, PushesAll, produced_pushed,
}

module _ (codec : Codec) where
  text_of : UserResult → List Text
  text_of r =
      unhealthy_result (codec.parse_below_one r.contract_query.liquidation_threshold_hf)
        (codec.marshal_result r)

  produce-joined : (rs : List UserResult) → produce_unhealthy_positions codec rs ≡ joined text_of rs
  unfolding produce_unhealthy_positions text_of
  produce-joined [] = refl
  produce-joined (r ∷ rs) = ap (text_of r ++◌) (produce-joined rs)

module _ {W F : Type 0} (codec : Codec)
    (pool : List (Job HealthCheckWorkItem) → Action W (List UserResult × Bool))
    (service : HealthChecker W F) (lists : W → Lists) (hive : HiveApi W) (hive_endpoint : Text)
    (query_of : Text → Text → ContractQuery) (hive_laws : HiveLaws hive hive_endpoint query_of)
    (world : Job HealthCheckWorkItem → W) where
  -- The jobs of the service, and their answers.
  abbrev ask : Job HealthCheckWorkItem → JobResult
  ask = run_job hive hive_endpoint query_of hive_laws service.redbank_address world

  abbrev said : HealthCheckWorkItem → UserResult
  said = answer_for (query_of service.redbank_address)

  -- Where the queue keeps its contract, Hive is up and says of a user the same whenever it is asked,
  -- the positions have pairwise different addresses, the counts of addresses per job and of workers
  -- are above 0, adding to the counters does not panic and leaves the lists alone, pushes succeed, and
  -- the pool, which leaves the lists alone, hands over what it received in some run of the jobs made
  -- of the positions that left no result behind, then in whichever order the workers ran and Hive
  -- answered, a round succeeds and all it changes in the lists is that texts stand behind what the
  -- queue of liquidations held: rearranged, one for each position for whose user Hive gives a health
  -- factor that is a number below 1 and whose answer can be encoded, the encoding of what Hive says of
  -- the user together with the position's own debts and collateral, and none for any other position.
  pub round_pushes_answers :
      QueuerLaws service.queue lists
      → CountsApart codec pool service lists
      → PushesAll codec pool service lists
      → 0 < service.addresses_per_job
      → 0 < service.jobs_per_worker
      → (positions : List HealthCheckWorkItem) (jobs : List (Job HealthCheckWorkItem))
        {s : Pool (Job HealthCheckWorkItem) JobResult} (w v : W) (b : Bool)
      → Apart positions
      → generate_jobs positions service.addresses_per_job ≡ some jobs
      → Reach service.jobs_per_worker ask (start service.jobs_per_worker jobs) s
      → s.returned ≡ true
      → s.results ≡ []
      → pool jobs w ≡ (ok (user_results s.received, b), v)
      → lists v ≡ lists w
      → (w' : W) × (texts : List Text) × (out : List Text) × (check_positions codec pool service
            positions w
          ≡ (ok tt, w'))
        × Selects codec (map said positions) texts
        × Perm texts out
        × (lists w'
            ≡ update
                (lists w)
                service.liquidation_queue_name
                (lists w service.liquidation_queue_name ++ out))
  round_pushes_answers laws apart up enough some_worker positions jobs {s} w v b different made run
        returned drained ran same =
      let rs = user_results s.received in
      let (w', done, pushed) =
        produced_pushed codec pool service lists laws apart up enough positions w v rs b
          (λ js e. let same_jobs : js ≡ jobs = cc in rw same_jobs ran) same in
      (
        w',
        produce_unhealthy_positions codec (map said positions),
        produce_unhealthy_positions codec rs,
        done,
        produce_unhealthy_positions-Selects codec (map said positions),
        Perm-joined (text_of codec) (produce_unhealthy_positions codec) (produce-joined codec) (
            pool_answers hive hive_endpoint query_of hive_laws service.redbank_address world
              positions service.addresses_per_job service.jobs_per_worker jobs different enough
              some_worker made run returned drained),
        pushed,
      )
