-- ===== src/Base/Float.antt =====
-- What the services do with a float64: Go's operations as a parameter.
use multichain_liquidator_bo.Base.Tests.{if◌then◌else◌}
use multichain_liquidator_bo.Base.Int.{ℤ}
use mathlib.Core.Bool.{Bool}

-- `float64(n)`, `x - y`, `x < 0`, and the constant 0.
pub record Float (F : Type 0) : Type 0 where
  pub nought : F
  pub of_int : ℤ → F
  pub minus : F → F → F
  pub is_negative : F → Bool

-- `if x < 0 { x = 0 }`.
unfoldable pub at_least_nought : {F : Type 0} → Float F → F → F
at_least_nought fl x = if fl.is_negative x then fl.nought else x
