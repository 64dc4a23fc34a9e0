-- ===== src/Runtime/Numbers.antt =====
-- What the clients of a `Cacher` of runtime/interfaces/cacher.go rely on: a number under each key.
use multichain_liquidator_bo.Base.{◌≡◌, ◌⊎◌, if◌then◌else◌}
use multichain_liquidator_bo.Base.Text.{Text, text_eq}
use multichain_liquidator_bo.Base.Action.{Result, ok, err, panic}
use multichain_liquidator_bo.Runtime.Interfaces.{Cacher}

-- The numbers that stand under the keys of a cache.
abbrev pub Numbers : Type 0 → Type 0
Numbers F = Text → F

abbrev pub put : {F : Type 0} → Numbers F → Text → F → Numbers F
put c k x j = if text_eq k j then x else c j

-- What a call that sets the number at `k` may do: it does so, or fails, and then it may have.
abbrev pub Set : {A F : Type 0} → Numbers F → Text → F → Result A → Numbers F → Type 0
Set c k x (ok _) c' = c' ≡ put c k x
Set c k x (err _) c' = (c' ≡ c) ⊎ (c' ≡ put c k x)
Set c k x panic c' = ⊥

-- What a call that reads the number at `k` gives.
abbrev pub Got : {F : Type 0} → Numbers F → Text → Result F → Numbers F → Type 0
Got c k (ok x) c' = (x ≡ c k) × (c' ≡ c)
Got c k (err _) c' = c' ≡ c
Got c k panic c' = ⊥

-- A missing key reads as `nought`, so that a deletion sets it.
pub record CacherLaws {W F : Type 0} (q : Cacher W F) (nought : F) (numbers : W → Numbers F)
    : Type 0 where
  pub sets :
      (k : Text) (x : F) (w : W) → Set (numbers w) k x (q.set k x w).0 (numbers (q.set k x w).1)
  pub gets :
      (k : Text) (w : W) → Got (numbers w) k (q.get_float64 k w).0 (numbers (q.get_float64 k w).1)
  pub deletes :
      (k : Text) (w : W) → Set (numbers w) k nought (q.delete k w).0 (numbers (q.delete k w).1)
