-- ===== src/System/Pipeline/Tests.antt =====
-- A block of three pages, collected on queues held in memory.
use multichain_liquidator_bo.Base.{
  if◌then◌else◌, ℕ, ◌+◌, ◌/◌, ◌≡◌, refl, false, Option, none, some, List, [], ◌∷◌,
}
use multichain_liquidator_bo.Base.Int.{pos}
use multichain_liquidator_bo.Base.Perms.{joined}
use multichain_liquidator_bo.Base.Text.{Text, codes, text_eq, has_prefix, contains}
use multichain_liquidator_bo.Base.Action.{Result, ok, err, foreign}
use multichain_liquidator_bo.Runtime.Types.{WorkItem}
use multichain_liquidator_bo.Runtime.Interfaces.{Lists}
use multichain_liquidator_bo.Runtime.Sample.{first_of_queue, plain_queue, plain_laws, no_cache}
use multichain_liquidator_bo.Manager.Pages.{Target, work_item}
use multichain_liquidator_bo.Manager.Pages.Covers.{offsets}
use multichain_liquidator_bo.Manager.Block.{Manager}
use multichain_liquidator_bo.Manager.Run.Fills.{Filled}
use multichain_liquidator_bo.Collector.Accounts.{gather}
use multichain_liquidator_bo.Collector.Service.{Collector, Remote, fetch_contract_items}
use multichain_liquidator_bo.Collector.Keys.{parse_key, section}
use multichain_liquidator_bo.Collector.Keys.RoundTrip.{build_key}
use multichain_liquidator_bo.Collector.Service.Drains.{Answered, collect_times}
use multichain_liquidator_bo.System.Pipeline.{pages_collected}

abbrev target : Target
target = record {
  rpc_endpoint = codes "rpc";
  hive_endpoint = codes "hive";
  lcd_endpoint = codes "lcd";
  collector_contract = codes "redbank";
}

abbrev manager : Manager Lists ℕ
manager = record {
  chain_id = codes "osmosis-1";
  rpc_websocket_endpoint = codes "ws";
  queue = plain_queue;
  metrics_cache = no_cache;
  collector_queue_name = codes "collect";
  health_check_queue_name = codes "health";
  executor_queue_name = codes "execute";
  scalers = [];
  target = target;
  collector_items_per_packet = pos 10;
  metrics_enabled = false;
}

-- The offset of a page stands for its encoding.
abbrev encode : WorkItem → Text
encode item = item.contract_page_offset ∷ []

abbrev decode : Text → Result WorkItem
decode [] = err (foreign "unexpected end")
decode (o ∷ s) = ok (work_item target o 10)

abbrev account : Text
account = codes "osmo1cyyzpxplxdzkeea7kwsydadg87357qnahakaks"

-- Every page is one debt. An account is encoded as its address.
abbrev remote : Remote Lists
remote = record {
  Client = Unit {0};
  new_rpc_client = λ endpoint l. (ok tt, l);
  marshal_request = λ request. ok [];
  abci_query = λ client path request l. (ok [], l);
  unmarshal_response = λ response. ok (
      record { key = build_key (codes "debts") account (codes "uosmo"); value = codes "100" } ∷ []);
  unmarshal_work_item = decode;
  unmarshal_value = λ value. ok value;
  marshal_health_check = λ h. ok h.address;
  range = λ accounts. accounts;
}

abbrev collector : Collector Lists ℕ
collector = record {
  queue = plain_queue;
  metrics_cache = no_cache;
  collector_queue_name = codes "collect";
  health_check_queue_name = codes "health";
}

abbrev of_list : List Text → Option Text
of_list [] = none
of_list (x ∷ xs) = some x

fetches : (k : Text) (l : Lists) → (o : Option Text) × ((plain_queue.fetch k l).0 ≡ ok o)
fetches k l = go (l k)
  where
    go : (xs : List Text) → (o : Option Text) × ((first_of_queue k l xs).0 ≡ ok o)
    go [] = (none, refl)
    go (x ∷ xs) = (some x, refl)

one_found :
    (o : ℕ)
    → Answered remote collector (λ l. l) encode (λ item. (account ∷ [], 1)) (work_item target o 10)
unfolding fetch_contract_items gather work_item parse_key section contains has_prefix text_eq
one_found o = (refl, λ l. (l, refl, refl))

other_name : text_eq (codes "collect") (codes "health") ≡ false
unfolding text_eq
other_name = refl

abbrev filled : Lists
filled k = if text_eq k (codes "collect") then (0 ∷ []) ∷ (10 ∷ []) ∷ (20 ∷ []) ∷ [] else []

filled-Filled : Filled manager encode 25 filled
unfolding text_eq work_item
filled-Filled = (refl, refl, refl)

pages_collected_example :
    (l : Lists) × (collect_times remote collector (25 / 10 + 1) filled ≡ (ok tt, l))
    × (l (codes "collect") ≡ [])
    × (l (codes "health") ≡ joined (λ (o : ℕ). account ∷ []) (offsets 10 (25 / 10 + 1) 0))
pages_collected_example =
    pages_collected manager remote collector (λ l. l) plain_laws (λ k n l. (λ e. cc, refl))
      (λ k xs l. refl) fetches encode (λ item. (account ∷ [], 1)) one_found other_name refl refl 25
      filled filled-Filled
