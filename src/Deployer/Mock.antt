-- ===== src/Deployer/Mock.antt =====
-- manager/src/deployer/mock.go: a deployer that only counts.
use multichain_liquidator_bo.Base.{false, some}
use multichain_liquidator_bo.Base.Int.{ℤ, pos, inc_int, dec_int}
use multichain_liquidator_bo.Base.Action.{ok}
use multichain_liquidator_bo.Manager.Interfaces.{Deployer}

-- The field `serviceCount`, an int.
abbrev pub Mock : Type 0
Mock = ℤ

abbrev pub new_mock : Mock
new_mock = pos 0

-- Over a state that also holds the world `W` of other components.
module _ {W : Type 0} where
  unfoldable pub mock_deployer : Deployer (Mock × W)
  mock_deployer = record {
    increase = λ (n, w). (ok tt, (inc_int n, w));
    decrease = λ (n, w). (ok tt, (dec_int n, w));
    remove_all = λ (n, w). (ok tt, (pos 0, w));
    count = λ (n, w). (ok n, (n, w));
    is_deploying = λ (n, w). (some false, (n, w));
  }
