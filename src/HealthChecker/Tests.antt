-- ===== src/HealthChecker/Tests.antt =====
-- The worker pool on one job, Hive's answer on one account, and rounds of the service on queues held
-- in memory.
use mathlib.Core.List.{Perm}
use multichain_liquidator_bo.Base.{
  ◌≤◌, ◌*◌, ◌+◌, ◌⊎◌, ℕ, suc, ◌≡◌, refl, inl, inr, Bool, true, some, List, [], ◌∷◌, ◌++◌, map,
  arith, length,
}
use multichain_liquidator_bo.Base.Int.{pos}
use multichain_liquidator_bo.Base.Text.{Text, codes, text_eq}
use multichain_liquidator_bo.Base.Action.{foreign, ok, err, Action}
use multichain_liquidator_bo.Runtime.Types.{HealthCheckWorkItem}
use multichain_liquidator_bo.Runtime.Interfaces.{Lists, update}
use multichain_liquidator_bo.Runtime.Sample.{plain_queue, plain_laws, no_cache}
use multichain_liquidator_bo.Runtime.Helpers.{IsChunked}
use multichain_liquidator_bo.Manager.Pages.Covers.{offsets}
use multichain_liquidator_bo.HealthChecker.Jobs.{Job, generate_jobs}
use multichain_liquidator_bo.HealthChecker.Jobs.Covers.{args_of, id_of, generate_jobs-IsSplit}
use multichain_liquidator_bo.HealthChecker.Pool.{
  Step, Pool, start, send_job, close_jobs, take_job, send_result, stop_worker, close_done, receive,
  return_results, Reach, here, next,
}
use multichain_liquidator_bo.HealthChecker.Pool.Conserves.{
  all_results, pool_conserves, pool_returns,
}
use multichain_liquidator_bo.HealthChecker.Sample.{
  position, low_health, low_result, healthy_position, health_of, positions, apart, hive, hive_laws,
}
use multichain_liquidator_bo.HealthChecker.Results.{JobResult, user_results}
use multichain_liquidator_bo.HealthChecker.Results.Joined.{run_job, pool_answers}
use multichain_liquidator_bo.HealthChecker.Pool.Loses.{pool_loses}
use multichain_liquidator_bo.HealthChecker.Pool.Ends.{steps, pool_ends}
use multichain_liquidator_bo.HealthChecker.Hive.{UserResult, join_event}
use multichain_liquidator_bo.HealthChecker.Hive.Answers.{answer_for}
use multichain_liquidator_bo.HealthChecker.Service.Selects.{Selects}
use multichain_liquidator_bo.HealthChecker.Hive.Joins.{join_event_last}
use multichain_liquidator_bo.HealthChecker.Service.{
  HealthChecker, Codec, check_positions, check_once,
}
use multichain_liquidator_bo.HealthChecker.Service.LastItem.{last_item_decides}
use multichain_liquidator_bo.HealthChecker.Service.Round.{round_pushes_answers}
use multichain_liquidator_bo.HealthChecker.Service.Unhealthy.{CountsApart, unhealthy_pushed}

abbrev five : List ℕ
five = 1 ∷ 2 ∷ 3 ∷ 4 ∷ 5 ∷ []

generate_jobs-IsSplit_example :
    (jobs : List (Job ℕ)) × (generate_jobs five 2 ≡ some jobs)
    × IsChunked 2 five (map args_of jobs)
    × (map id_of jobs ≡ offsets 2 (length jobs) 0)
generate_jobs-IsSplit_example = generate_jobs-IsSplit five 2 (omega arith)

abbrev finished : {J R : Type 0} → (J → R) → J → Pool J R
finished exec j = record {
  unsent = [];
  jobs = [];
  jobs_closed = true;
  idle = 0;
  held = [];
  stopped = 1;
  results = [];
  done = true;
  received = exec j ∷ [];
  returned = true;
}

one_job : {J R : Type 0} (exec : J → R) (j : J) → Reach 1 exec (start 1 (j ∷ [])) (finished exec j)
unfolding start
one_job exec j =
    next
      (next
        (next
          (next
            (next
              (next
                (next (next here (send_job j [] refl (omega arith) refl))
                  (take_job j [] 0 refl refl refl))
                (send_result [] [] (exec j) refl (omega arith) refl))
              (receive (exec j) [] refl refl refl))
            (close_jobs refl refl refl))
          (stop_worker 0 refl refl refl refl))
        (close_done refl refl refl))
      (return_results refl refl refl)

pool_conserves_example : Perm (map suc (3 ∷ [])) (all_results 1 suc (finished suc 3))
pool_conserves_example = pool_conserves 1 suc (3 ∷ []) (one_job suc 3)

pool_returns_example : Perm (map suc (3 ∷ [])) (4 ∷ [] ++ [])
pool_returns_example = pool_returns 1 suc (3 ∷ []) (omega arith) (one_job suc 3) refl

pool_loses_example :
    (s : Pool ℕ ℕ) × Reach 4 suc (start 4 (3 ∷ [])) s
    × (s.returned ≡ true)
    × (s.received ≡ [])
    × (s.results ≡ 4 ∷ [])
pool_loses_example = pool_loses 3 suc 3

join_event_last_example :
    join_event (position ∷ []) ((position.address, low_health) ∷ [])
    ≡ join_event (position ∷ []) [] ++ low_result ∷ join_event (position ∷ []) []
join_event_last_example = join_event_last [] [] position [] [] low_health tt

abbrev no_items : Lists
no_items k = []

abbrev ask : Job HealthCheckWorkItem → JobResult
ask = run_job hive [] health_of hive_laws [] (λ job. no_items)

abbrev job : Job HealthCheckWorkItem
job = record { id = 0; args = positions }

one_made : generate_jobs positions 2 ≡ some (job ∷ [])
unfolding generate_jobs
one_made = refl

pool_answers_example :
    Perm (map (answer_for (health_of [])) positions) (user_results (ask job ∷ []))
pool_answers_example =
    pool_answers hive [] health_of hive_laws [] (λ job. no_items) positions 2 1 (job ∷ []) apart
      (omega arith) (omega arith) one_made (one_job ask job) refl refl

abbrev codec : Codec
codec = record {
  unmarshal_item =
      λ text. elim text [ [] ↦ inl (foreign "unexpected end") | x ∷ xs ↦ inr position ];
  marshal_result = λ r. inr r.address;
  parse_below_one = λ text. inr (text_eq text (codes "0.5"));
}

abbrev service : HealthChecker Lists ℕ
service = record {
  queue = plain_queue;
  metrics_cache = no_cache;
  health_check_queue_name = codes "health";
  liquidation_queue_name = codes "liquidate";
  jobs_per_worker = 1;
  addresses_per_job = 2;
  batch_size = pos 10;
  redbank_address = [];
}

abbrev healthy_result : UserResult
healthy_result = answer_for (health_of []) healthy_position

abbrev pool : List (Job HealthCheckWorkItem) → Action Lists (List UserResult × Bool)
pool jobs l = (ok (healthy_result ∷ low_result ∷ [], true), l)

counts_apart : CountsApart codec pool service (λ l. l)
counts_apart k n l = (λ e. cc, refl)

unhealthy_pushed_example :
    (l : Lists) × (out : List Text) × (check_positions codec pool service positions no_items
      ≡ (ok tt, l))
    × Selects codec (healthy_result ∷ low_result ∷ []) out
    × (l ≡ update no_items (codes "liquidate") ([] ++ out))
unhealthy_pushed_example =
    unhealthy_pushed codec pool service (λ l. l) plain_laws counts_apart (λ k xs l. refl)
      (omega arith) positions no_items no_items (healthy_result ∷ low_result ∷ []) true
      (λ jobs e. refl) refl

-- One item that can be read and one, the last, that cannot.
abbrev two_items : Lists
two_items k = codes "p" ∷ [] ∷ []

last_item_decides_example :
    check_once codec pool service two_items
    ≡ (err (foreign "unexpected end"), update two_items (codes "health") [])
last_item_decides_example =
    last_item_decides codec pool service two_items (update two_items (codes "health") [])
      (codes "p" ∷ []) [] refl

pool_ends_example :
    (steps 1 suc (one_job suc 3) ≤ 4 * length {A = ℕ} (3 ∷ []) + 1 + 3)
    × (((finished suc 3).returned ≡ true) ⊎ ((s' : Pool ℕ ℕ) × Step 1 suc (finished suc 3) s'))
pool_ends_example = pool_ends 1 suc (3 ∷ []) (one_job suc 3)

abbrev answered_pool : List (Job HealthCheckWorkItem) → Action Lists (List UserResult × Bool)
answered_pool jobs l = (ok (user_results (ask job ∷ []), true), l)

round_pushes_answers_example :
    (l : Lists) × (texts : List Text) × (out : List Text) × (check_positions codec answered_pool
        service positions no_items
      ≡ (ok tt, l))
    × Selects codec (map (answer_for (health_of [])) positions) texts
    × Perm texts out
    × (l ≡ update no_items (codes "liquidate") ([] ++ out))
round_pushes_answers_example =
    round_pushes_answers codec answered_pool service (λ l. l) hive [] health_of hive_laws
      (λ job. no_items) plain_laws (λ k n l. (λ e. cc, refl)) (λ k xs l. refl) (omega arith)
      (omega arith) positions (job ∷ []) no_items no_items true apart one_made (one_job ask job)
      refl refl refl refl
