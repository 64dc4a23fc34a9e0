-- ===== src/Runtime/Types.antt =====
-- The messages that the services exchange through the queues (runtime/types).
use multichain_liquidator_bo.Base.{ℕ, List}
use multichain_liquidator_bo.Base.Text.{Text}

-- What the manager asks of a collector: a page of the contract's state. Offset and limit are
-- uint64.
pub record WorkItem : Type 0 where
  pub hive_endpoint : Text
  pub rpc_endpoint : Text
  pub lcd_endpoint : Text
  pub contract_address : Text
  pub contract_item_prefix : Text
  pub contract_page_offset : ℕ
  pub contract_page_limit : ℕ

pub record Asset : Type 0 where
  pub token : Text
  pub amount : Text

pub record Endpoints : Type 0 where
  pub hive : Text
  pub lcd : Text
  pub rpc : Text

-- What a collector asks of a health checker: an account with its debts and its collateral.
pub record HealthCheckWorkItem : Type 0 where
  pub address : Text
  pub debts : List Asset
  pub collateral : List Asset
  pub endpoints : Endpoints
