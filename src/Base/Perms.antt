-- ===== src/Base/Perms.antt =====
-- Rearrangements of a list, and of the lists that its items stand for.
use mathlib.Core.Path.{◌≡◌, sym, subst}
use mathlib.Core.Logic.{∥∥₁_map}
use mathlib.Core.List.{List, [], ◌∷◌, ◌++◌, append_assoc, Perm, Permᴰ}
use mathlib.Core.List.Permᴰ

module _ {A B : Type 0} (f : A → List B) where
  -- The lists of all items, one behind the other.
  abbrev pub joined : List A → List B
  joined [] = []
  joined (x ∷ xs) = f x ++ joined xs

  swapped : (xs ys zs : List B) → Permᴰ (xs ++ (ys ++ zs)) (ys ++ (xs ++ zs))
  swapped xs ys zs =
      subst (λ (us : List B). Permᴰ us (ys ++ (xs ++ zs))) (append_assoc xs ys zs)
        (subst (λ (us : List B). Permᴰ ((xs ++ ys) ++ zs) us) (append_assoc ys xs zs)
          (Permᴰ.append_right zs (Permᴰ.append_comm xs ys)))

  joined-Permᴰ : {xs ys : List A} → Permᴰ xs ys → Permᴰ (joined xs) (joined ys)
  joined-Permᴰ Permᴰ.nil = Permᴰ.refl []
  joined-Permᴰ (Permᴰ.cons {a} {b} {l₁} {l₂} e p) = rw e (Permᴰ.append_left (f b) (joined-Permᴰ p))
  joined-Permᴰ (Permᴰ.swap {a} {b} {a'} {b'} {l} e e') =
      rw (sym e, sym e') (swapped (f a) (f b) (joined l))
  joined-Permᴰ (Permᴰ.trans p q) = Permᴰ.trans (joined-Permᴰ p) (joined-Permᴰ q)

  pub joined-Perm : {xs ys : List A} → Perm xs ys → Perm (joined xs) (joined ys)
  joined-Perm {xs} {ys} p = ∥∥₁_map {B = Permᴰ (joined xs) (joined ys)} p joined-Permᴰ

  -- The same for a function that computes `joined`.
  pub Perm-joined :
      (g : List A → List B)
      → ((xs : List A) → g xs ≡ joined xs)
      → {xs ys : List A} → Perm xs ys
      → Perm (g xs) (g ys)
  Perm-joined g e {xs} {ys} p = rw (e xs, e ys) (joined-Perm p)
