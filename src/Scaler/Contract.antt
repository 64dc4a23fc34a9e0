-- ===== src/Scaler/Contract.antt =====
-- What a scaler relies on of a deployer, and what it promises about the number of services.
use multichain_liquidator_bo.Base.{◌+◌, ◌<◌, ◌≤◌, ◌≡◌, refl, true, false, arith, ◌⊎◌, inl, inr}
use multichain_liquidator_bo.Base.Int.{
  ℤ, ◌≤ℤ◌, ltb_ℤ, pos_part, neg_part, half64, inc_int, dec_int, inc_int_parts, dec_int_parts,
}
use multichain_liquidator_bo.Base.Action.{ok}
use multichain_liquidator_bo.Manager.Interfaces.{Deployer}
use multichain_liquidator_bo.Deployer.Mock.{mock_deployer}

abbrev pub IsRoom : ℤ → Type 0
IsRoom n = (pos_part n + 1 < half64) × (neg_part n < half64)

-- A deployer of `services s` services: a count reads that number or fails, an increase adds one or
-- none, a decrease removes one or none.
pub record Counting {S : Type 0} (d : Deployer S) (services : S → ℤ) : Type 0 where
  pub asks : (s : S) → services (d.is_deploying s).1 ≡ services s
  pub keeps : (s : S) → services (d.count s).1 ≡ services s
  pub counts : (s : S) (n : ℤ) → (d.count s).0 ≡ ok n → n ≡ services s
  pub ups :
      (s : S)
      → IsRoom (services s)
      → (services (d.increase s).1 ≡ inc_int (services s))
        ⊎ (services (d.increase s).1 ≡ services s)
  pub downs :
      (s : S)
      → IsRoom (services s)
      → (services (d.decrease s).1 ≡ dec_int (services s))
        ⊎ (services (d.decrease s).1 ≡ services s)

pub mock-Counting : {W : Type 0} → Counting (mock_deployer {W = W}) (λ s. s.0)
unfolding mock_deployer
mock-Counting = record {
  asks = λ s. refl;
  keeps = λ s. refl;
  counts = λ s n e. ground arith;
  ups = λ s h. inl refl;
  downs = λ s h. inl refl;
}

-- From `n` services to `n'`: not below a minimum that was met, not below `n` by more than one nor
-- above it by more than one.
pub record IsSafe (minimum n n' : ℤ) : Type 0 where
  pub floor : (ltb_ℤ n minimum ≡ true) ⊎ (minimum ≤ℤ n')
  pub fall : pos_part n + neg_part n' ≤ pos_part n' + neg_part n + 1
  pub growth : pos_part n' + neg_part n ≤ pos_part n + neg_part n' + 1

below-or-above : (m n : ℤ) → (ltb_ℤ n m ≡ true) ⊎ (m ≤ℤ n)
below-or-above m n = ground arith

pub same-IsSafe : (m n : ℤ) → IsSafe m n n
same-IsSafe m n = record { floor = below-or-above m n; fall = omega arith; growth = omega arith }

pub inc-IsSafe : (m n : ℤ) → IsRoom n → IsSafe m n (inc_int n)
inc-IsSafe m n h =
    let e = inc_int_parts n h.0 (omega arith) in
    record {
      floor = elim (below-or-above m n) [ inl b ↦ inl b | inr a ↦ inr (omega arith) ];
      fall = omega arith;
      growth = omega arith;
    }

-- The guard of `ScaleDown`.
pub dec-IsSafe : (m n : ℤ) → IsRoom n → ltb_ℤ (dec_int n) m ≡ false → IsSafe m n (dec_int n)
dec-IsSafe m n h above =
    let e = dec_int_parts n (omega arith) h.1 in
    record { floor = inr (ground arith); fall = omega arith; growth = omega arith }
