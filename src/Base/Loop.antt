-- ===== src/Base/Loop.antt =====
-- A service's `Run`: it connects, then repeats a body while its flag reads 1. Another goroutine
-- clears the flag, so the values read are a list that is given; when they are used up the service is
-- still running.
use multichain_liquidator_bo.Base.{Bool, true, false, Option, none, some, List, [], ◌∷◌}
use multichain_liquidator_bo.Base.Action.{Error, Result, ok, err, panic, Action}

pub data Outcome : Type 0 where
  running crashed : Outcome
  returned : Option Error → Outcome

module _ {W : Type 0} where
  -- `defer service.queue.Disconnect()` runs when the loop returns, and when it panics.
  pub closed : Action W (Unit {0}) → Outcome → W → Outcome × W
  closed disconnect o w = (o, (disconnect w).1)

  pub after_body : Action W (Unit {0}) → (W → Outcome × W) → Result (Unit {0}) × W → Outcome × W
  unfolding closed
  after_body disconnect next (ok _, w) = next w
  after_body disconnect next (err e, w) = closed disconnect (returned (some e)) w
  after_body disconnect next (panic, w) = closed disconnect crashed w

  unfoldable pub while_flag :
      Action W (Unit {0}) → Action W (Unit {0}) → List Bool → W → Outcome × W
  unfolding after_body
  while_flag body disconnect [] w = (running, w)
  while_flag body disconnect (false ∷ reads) w = closed disconnect (returned none) w
  while_flag body disconnect (true ∷ reads) w =
      after_body disconnect (while_flag body disconnect reads) (body w)

  unfoldable pub connected : (W → Outcome × W) → Result (Unit {0}) × W → Outcome × W
  connected next (ok _, w) = next w
  connected next (err e, w) = (returned (some e), w)
  connected next (panic, w) = (crashed, w)
