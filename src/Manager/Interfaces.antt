-- ===== src/Manager/Interfaces.antt =====
-- The interfaces of manager/src/interfaces: `Deployer` and `Scaler`, over a state `S` that holds the
-- implementation's own fields and the world outside.
use multichain_liquidator_bo.Base.{Bool, Option}
use multichain_liquidator_bo.Base.Int.{ℤ}
use multichain_liquidator_bo.Base.Action.{Error, Result, Action}

pub record Deployer (S : Type 0) : Type 0 where
  pub increase : Action S (Unit {0})
  pub decrease : Action S (Unit {0})
  pub remove_all : Action S (Unit {0})
  pub count : Action S ℤ
  -- `none` is a panic: the method returns no error.
  pub is_deploying : S → Option Bool × S

-- The texts "none", "up" and "down".
pub data Direction : Type 0 where
  unchanged up down : Direction

-- The three results of `ScaleAutomatic`.
abbrev pub Scaled : Type 0
Scaled = Direction × Bool × Option Error

pub record Scaler (S : Type 0) : Type 0 where
  -- Its error stands in `Scaled`: the result itself is `ok` or a panic.
  pub scale_automatic : S → Result Scaled × S
  pub scale_up : Action S (Unit {0})
  pub scale_down : Action S (Unit {0})
  pub scale_to_zero : Action S (Unit {0})
  pub count : Action S ℤ
