-- ===== src/Manager/Block/Tests.antt =====
-- A block handled on queues held in memory.
use multichain_liquidator_bo.Base.{
  ℕ, ◌+◌, ◌/◌, ◌≡◌, refl, true, false, none, some, [], ◌∷◌, map, arith,
}
use multichain_liquidator_bo.Base.Int.{pos}
use multichain_liquidator_bo.Base.Text.{Text, codes, text_eq}
use multichain_liquidator_bo.Base.Action.{ok}
use multichain_liquidator_bo.Runtime.Types.{WorkItem}
use multichain_liquidator_bo.Runtime.Interfaces.{Lists}
use multichain_liquidator_bo.Runtime.Sample.{plain_queue, plain_laws, no_cache}
use multichain_liquidator_bo.Manager.Interfaces.{unchanged, Scaler}
use multichain_liquidator_bo.Manager.Pages.{work_item}
use multichain_liquidator_bo.Manager.Pages.Covers.{offsets}
use multichain_liquidator_bo.Manager.Block.{Manager, scale_running, process_block}
use multichain_liquidator_bo.Manager.Block.Fills.{process_block_fills}

abbrev calm : Scaler Lists
calm = record {
  scale_automatic = λ l. (ok (unchanged, false, none), l);
  scale_up = λ l. (ok tt, l);
  scale_down = λ l. (ok tt, l);
  scale_to_zero = λ l. (ok tt, l);
  count = λ l. (ok (pos 1), l);
}

abbrev manager : Manager Lists ℕ
manager = record {
  chain_id = codes "osmosis-1";
  rpc_websocket_endpoint = codes "ws";
  queue = plain_queue;
  metrics_cache = no_cache;
  collector_queue_name = codes "collect";
  health_check_queue_name = codes "health";
  executor_queue_name = codes "execute";
  scalers = (codes "collector", calm) ∷ [];
  target = record {
    rpc_endpoint = codes "rpc";
    hive_endpoint = codes "hive";
    lcd_endpoint = codes "lcd";
    collector_contract = codes "redbank";
  };
  collector_items_per_packet = pos 10;
  metrics_enabled = false;
}

-- The offset of a page stands for its encoding.
abbrev encode : WorkItem → Text
encode item = item.contract_page_offset ∷ []

-- Work is left in every queue.
abbrev leftovers : Lists
leftovers k = codes "old" ∷ []

calm_scaled : scale_running true manager leftovers ≡ (ok tt, leftovers)
unfolding scale_running
calm_scaled = refl

other_names :
    (text_eq (codes "collect") (codes "health") ≡ false)
    × (text_eq (codes "collect") (codes "execute") ≡ false)
unfolding text_eq
other_names = (refl, refl)

process_block_fills_example :
    (l : Lists) × (process_block (λ item. ok (encode item)) manager (25 / 10 + 3) true 25 leftovers
      ≡ some (ok tt, l))
    × (l (codes "collect")
        ≡ map (λ (o : ℕ). encode (work_item manager.target o 10)) (offsets 10 (25 / 10 + 1) 0))
    × (l (codes "health") ≡ [])
    × (l (codes "execute") ≡ [])
process_block_fills_example =
    process_block_fills manager (λ l. l) plain_laws (λ item. ok (encode item)) encode (λ item. refl)
      (λ k x l. refl) (λ k l. refl) true 25 leftovers leftovers calm_scaled (omega arith)
      (omega arith) other_names.0 other_names.1
