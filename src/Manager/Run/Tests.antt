-- ===== src/Manager/Run/Tests.antt =====
-- Two blocks handled on the sample.
use multichain_liquidator_bo.Base.{
  length, Option, ℕ, ◌≡◌, ◌⊎◌, refl, true, false, Bool, some, [], ◌∷◌, arith,
}
use multichain_liquidator_bo.Base.Int.{pos}
use multichain_liquidator_bo.Base.Text.{Text, codes, text_eq}
use multichain_liquidator_bo.Base.Action.{foreign, err, ok}
use multichain_liquidator_bo.Runtime.Types.{WorkItem}
use multichain_liquidator_bo.Manager.Block.{scale_running}
use multichain_liquidator_bo.Manager.Receiver.{Websocket, subscribe}
use multichain_liquidator_bo.Manager.Run.{run, Surroundings, Arrival, handle_blocks}
use multichain_liquidator_bo.Manager.Run.Closes.{WaitedOut, StoppedAt, run_closes}
use multichain_liquidator_bo.Manager.Run.Fills.{rounds, Filled, handle_blocks_fills}
use multichain_liquidator_bo.Manager.Sample.{
  World, floats, queues_of, numbers_of, queue_laws, cache_laws, manager, counts_only, used,
}

-- The offset of a page stands for its encoding. A submission is over at once.
abbrev encode : WorkItem → Text
encode item = item.contract_page_offset ∷ []

abbrev env : Surroundings World (Option ℕ)
env = record {
  marshal = λ item. ok (encode item);
  parse_int = λ s. pos (length s);
  submit = λ m w. (ok tt, w);
  start = λ m w. (ok tt, (m w).1);
  wait = λ w. some w;
}

abbrev arrival : ℕ → Arrival ℕ
arrival total = record {
  block = record {
    query = [];
    data_type = [];
    version_block = [];
    version_app = [];
    chain_id = [];
    height = codes "41";
    time = 0;
  };
  running = true;
  total = total;
}

scales : (running : Bool) (w : World) → (scale_running running manager w).0 ≡ ok tt
unfolding scale_running
scales true w = refl
scales false w = refl

other_names :
    (text_eq (codes "collect") (codes "health") ≡ false)
    × (text_eq (codes "collect") (codes "execute") ≡ false)
unfolding text_eq
other_names = (refl, refl)

handle_blocks_fills_example :
    (w' : World) × (handle_blocks floats env manager
        (rounds manager)
        (arrival 25 ∷ arrival 30 ∷ [])
        used
      ≡ some (ok tt, w'))
    × Filled manager encode 30 (queues_of w')
handle_blocks_fills_example =
    handle_blocks_fills floats env manager numbers_of cache_laws counts_only (λ m w. refl) queues_of
      queue_laws encode (λ item. refl) (λ k x w. refl) (λ k w. refl) scales (omega arith)
      other_names.0 other_names.1 (arrival 25 ∷ []) (arrival 30) used (omega arith, tt)
      (omega arith)

-- A websocket that accepts the subscription.
abbrev socket : Websocket World (Unit {0}) ℕ
socket = record {
  dial = λ endpoint w. (ok tt, w);
  write_text = λ c m w. (ok tt, w);
  marshal_method = λ r. ok r.query;
  unmarshal_block = λ m. err (foreign "invalid character");
  is_zero_time = λ t. true;
}

two_handled :
    (w' : World) × (handle_blocks floats env manager
        (rounds manager)
        (arrival 25 ∷ arrival 30 ∷ [])
        used
      ≡ some (ok tt, w'))
    × Filled manager encode 30 (queues_of w')
two_handled =
    handle_blocks_fills floats env manager numbers_of cache_laws counts_only (λ m w. refl) queues_of
      queue_laws encode (λ item. refl) (λ k x w. refl) (λ k w. refl) scales (omega arith)
      other_names.0 other_names.1 (arrival 25 ∷ []) (arrival 30) used (omega arith, tt)
      (omega arith)

subscribed : subscribe socket manager.rpc_websocket_endpoint used ≡ (ok tt, used)
unfolding subscribe
subscribed = refl

two_run :
    run floats env manager socket (rounds manager) (arrival 25 ∷ arrival 30 ∷ []) used
    ≡ some (ok tt, two_handled.0)
unfolding run subscribe
two_run = rw two_handled.1 refl

run_closes_example :
    (u : World) × (WaitedOut floats env manager
        (rounds manager)
        (arrival 25 ∷ arrival 30 ∷ [])
        used
        (ok tt)
        u
      ⊎ StoppedAt floats env manager (rounds manager) (arrival 25 ∷ arrival 30 ∷ []) used (ok tt) u)
    × (two_handled.0 ≡ (manager.queue.disconnect (manager.metrics_cache.disconnect u).1).1)
run_closes_example =
    run_closes floats env manager socket (rounds manager) (arrival 25 ∷ arrival 30 ∷ []) tt used
      used used used two_handled.0 (ok tt) refl refl subscribed two_run
