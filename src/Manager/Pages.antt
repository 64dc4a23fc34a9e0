-- ===== src/Manager/Pages.antt =====
-- The loop of manager/src/manager/manager.go that hands out the pages of the contract's state.
pub mod Covers
pub mod Delivers
mod Tests
use multichain_liquidator_bo.Base.{
  ℕ, zero, suc, ◌+◌, ◌%◌, ◌^◌, Bool, Option, none, some, List, [], ◌∷◌, leb, if◌then◌else◌,
}
use multichain_liquidator_bo.Base.Text.{Text, codes}
use multichain_liquidator_bo.Base.Action.{Error, Result, ok, err, panic, Action}
use multichain_liquidator_bo.Runtime.Types.{WorkItem}
use multichain_liquidator_bo.Runtime.Interfaces.{Queuer}

-- What the manager tells the collectors besides offset and limit.
pub record Target : Type 0 where
  pub rpc_endpoint : Text
  pub hive_endpoint : Text
  pub lcd_endpoint : Text
  pub collector_contract : Text

abbrev pub u64_mod : ℕ
u64_mod = 2 ^ 64

unfoldable pub work_item : Target → ℕ → ℕ → WorkItem
work_item t offset limit = record {
  hive_endpoint = t.hive_endpoint;
  rpc_endpoint = t.rpc_endpoint;
  lcd_endpoint = t.lcd_endpoint;
  contract_address = t.collector_contract;
  contract_item_prefix = codes "debts";
  contract_page_offset = offset;
  contract_page_limit = limit;
}

-- What follows a round of the loop: after an error, which is logged, the next round; a panic ends it.
unfoldable pub after_send :
    {W : Type 0}
    → (W → Option (Result (Unit {0}) × W))
    → Result (Unit {0}) × W
    → Option (Result (Unit {0}) × W)
after_send next (ok _, w) = next w
after_send next (err _, w) = next w
after_send next (panic, w) = some (panic, w)

-- The queue and the JSON encoding of a work item (encoding/json), the queue's name and the page size
-- as a uint64.
module _ {W : Type 0} (queue : Queuer W) (marshal : WorkItem → Result Text) (queue_name : Text)
    (t : Target) (items_per_packet : ℕ) where
  push_encoded : Result Text → Action W (Unit {0})
  push_encoded (ok item) w = queue.push queue_name item w
  push_encoded (err e) w = (err e, w)
  push_encoded panic w = (panic, w)

  -- One round of the loop: an item that cannot be encoded or pushed is logged and passed over.
  pub send : ℕ → Action W (Unit {0})
  unfolding push_encoded
  send offset = push_encoded (marshal (work_item t offset items_per_packet))

  -- The loop on fuel, from offset `i`. `none` means that the fuel ran out; a panic ends the loop.
  -- The sum of offsets wraps at 64 bits. Another goroutine may write the total; here it stands still
  -- for the length of the loop.
  unfoldable pub send_pages : ℕ → ℕ → ℕ → W → Option (Result (Unit {0}) × W)
  unfolding after_send
  send_pages zero total i w = none
  send_pages (suc f) total i w =
      let rest = after_send (send_pages f total ((i + items_per_packet) % u64_mod)) (send i w) in
      if leb i total then rest else some (ok tt, w)
