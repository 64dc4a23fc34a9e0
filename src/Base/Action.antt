-- ===== src/Base/Action.antt =====
-- Go's error returns as values, and calls that read and change the world outside the program.
use Prim.Native.String.{String}
use mathlib.Core.Path.{◌≡◌, refl, ap}
use mathlib.Core.Logic.{◌≢◌}

-- An error: the text of one that the program makes, or one that a call of foreign code returned.
pub data Error : Type 0 where
  message : String → Error
  foreign : String → Error

-- How a call ends: with a value and a nil error, with an error, or by a panic, which nothing in
-- the program recovers.
pub data Result {ℓ} (A : Type ℓ) : Type ℓ where
  ok : A → Result A
  err : Error → Result A
  panic : Result A

-- A call on a world `W`: what was done before a failure stays done.
abbrev pub Action : Type 0 → Type 0 → Type 0
Action W A = W → Result A × W

module _ {W A : Type 0} where
  abbrev pub return : A → Action W A
  return a w = (ok a, w)

  abbrev pub fail : Error → Action W A
  fail e w = (err e, w)

infixl 5 ◌>>=◌ ◌>>◌
abbrev pub ◌>>=◌ : {W A B : Type 0} → Action W A → (A → Action W B) → Action W B
◌>>=◌ m f w = let (r, v) = m w in elim r [ ok a ↦ f a v | err e ↦ (err e, v) | panic ↦ (panic, v) ]

abbrev pub ◌>>◌ : {W A B : Type 0} → Action W A → Action W B → Action W B
m >> k = m >>= λ _. k

-- A call whose value and error the caller drops.
abbrev pub dropped : {A : Type 0} → Result A → Result (Unit {0})
dropped (ok _) = ok tt
dropped (err _) = ok tt
dropped panic = panic

abbrev pub ignore : {W A : Type 0} → Action W A → Action W (Unit {0})
ignore m w = (dropped (m w).0, (m w).1)

-- A call that succeeded, and what comes after it.
pub bound :
    {W A B : Type 0} (m : Action W A) (next : A → Action W B) (w : W) (a : A) (v : W)
    → m w ≡ (ok a, v)
    → (m >>= next) w ≡ next a v
bound {W} {A} {B} m next w a v h = ap (λ (r : Result A × W). ((λ (u : W). r) >>= next) w) h

-- A call whose error is dropped, and what comes after it.
pub ignored :
    {W A B : Type 0} (m : Action W A) (next : Action W B) (w : W)
    → (m w).0 ≢ panic
    → (ignore m >> next) w ≡ next (m w).1
ignored {W} {A} {B} m next w h = go (m w) h
  where
    go : (r : Result A × W) → r.0 ≢ panic → (ignore (λ (v : W). r) >> next) w ≡ next r.1
    go (ok a, v) p = refl
    go (err e, v) p = refl
    go (panic, v) p = absurd (p refl)

pub ignored_last :
    {W A : Type 0} (m : Action W A) (w : W) → (m w).0 ≢ panic → ignore m w ≡ (ok tt, (m w).1)
ignored_last {W} {A} m w h = go (m w) h
  where
    go : (r : Result A × W) → r.0 ≢ panic → ignore (λ (v : W). r) w ≡ (ok tt, r.1)
    go (ok a, v) p = refl
    go (err e, v) p = refl
    go (panic, v) p = absurd (p refl)

pub ok-ne-panic : {A : Type 0} (r : Result A) (a : A) → r ≡ ok a → r ≢ panic
ok-ne-panic r a e h = cc

-- A chain of calls that succeeded: so did the first call.
pub bound_inv :
    {W A B : Type 0} (m : Action W A) (next : A → Action W B) (w : W) (b : B) (v : W)
    → (m >>= next) w ≡ (ok b, v)
    → (a : A) × (u : W) × (m w ≡ (ok a, u)) × (next a u ≡ (ok b, v))
bound_inv {W} {A} {B} m next w b v h = go (m w) refl h
  where
    go :
        (r : Result A × W)
        → m w ≡ r
        → ((λ (u : W). r) >>= next) w ≡ (ok b, v)
        → (a : A) × (u : W) × (m w ≡ (ok a, u)) × (next a u ≡ (ok b, v))
    go (ok a, u) e h = (a, u, e, h)
    go (err x, u) e h = absurd (let c : ⊥ = cc in c)
    go (panic, u) e h = absurd (let c : ⊥ = cc in c)
