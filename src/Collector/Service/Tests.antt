-- ===== src/Collector/Service/Tests.antt =====
-- A round of the collector on queues held in memory.
use multichain_liquidator_bo.Base.{ℕ, ◌≡◌, refl, [], ◌∷◌, ◌++◌}
use multichain_liquidator_bo.Base.Text.{Text, codes, text_eq, has_prefix, contains}
use multichain_liquidator_bo.Base.Action.{ok}
use multichain_liquidator_bo.Runtime.Types.{WorkItem}
use multichain_liquidator_bo.Runtime.Interfaces.{Lists, update}
use multichain_liquidator_bo.Runtime.Sample.{plain_queue, plain_laws, no_cache}
use multichain_liquidator_bo.Collector.Keys.{parse_key, section}
use multichain_liquidator_bo.Collector.Keys.RoundTrip.{build_key}
use multichain_liquidator_bo.Collector.Accounts.{gather}
use multichain_liquidator_bo.Collector.Service.{
  Collector, Remote, fetch_contract_items, collect_once,
}
use multichain_liquidator_bo.Collector.Service.Pushes.{collect_once_pushes}

abbrev account : Text
account = codes "osmo1cyyzpxplxdzkeea7kwsydadg87357qnahakaks"

abbrev item : WorkItem
item = record {
  hive_endpoint = [];
  rpc_endpoint = [];
  lcd_endpoint = [];
  contract_address = [];
  contract_item_prefix = codes "debts";
  contract_page_offset = 0;
  contract_page_limit = 10;
}

-- The contract's state is one debt. An account is encoded as its address.
abbrev one_debt : Remote Lists
one_debt = record {
  Client = Unit {0};
  new_rpc_client = λ endpoint l. (ok tt, l);
  marshal_request = λ request. ok [];
  abci_query = λ client path request l. (ok [], l);
  unmarshal_response = λ response. ok (
      record { key = build_key (codes "debts") account (codes "uosmo"); value = codes "100" } ∷ []);
  unmarshal_work_item = λ bytes. ok item;
  unmarshal_value = λ value. ok value;
  marshal_health_check = λ h. ok h.address;
  range = λ accounts. accounts;
}

abbrev service : Collector Lists ℕ
service = record {
  queue = plain_queue;
  metrics_cache = no_cache;
  collector_queue_name = codes "collect";
  health_check_queue_name = codes "health";
}

abbrev one_page : Lists
one_page k = codes "page" ∷ []

abbrev fetched : Lists
fetched = update one_page (codes "collect") []

one_account : fetch_contract_items one_debt service item fetched ≡ (ok (account ∷ [], 1), fetched)
unfolding fetch_contract_items gather parse_key section contains has_prefix text_eq
one_account = refl

collect_once_pushes_example :
    (l : Lists) × (collect_once one_debt service one_page ≡ (ok tt, l))
    × (l ≡ update fetched (codes "health") (fetched (codes "health") ++ account ∷ []))
collect_once_pushes_example =
    collect_once_pushes one_debt service (λ l. l) plain_laws (λ k n l. (λ e. cc, refl))
      (λ k xs l. refl) (codes "page") item (account ∷ []) 1 one_page fetched fetched refl refl
      one_account refl
