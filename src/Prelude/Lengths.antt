-- ===== src/Prelude/Lengths.antt =====
-- How many rows a statement on a table selects, keeps and leaves.
use Prim.Native.Nat.{◌+◌, ◌≤◌}
use payman.Prelude.Tests.{Bool-cases}
use payman.Prelude.Lists.{All, select, delete, length}
use mathlib.Core.Path.{◌≡◌, refl, ap}
use mathlib.Core.Logic.{inl, inr}
use mathlib.Core.Bool.{Bool, false}
use mathlib.Core.List.{List, [], ◌∷◌, ◌++◌}
use native.Mathlib.Omega.{arith}

pub delete_none {ℓ} :
    {A : Type ℓ} (p : A → Bool) (xs : List A) → All (λ x. p x ≡ false) xs → delete p xs ≡ xs
delete_none p [] h = refl
delete_none p (x ∷ xs) h = rw h.0 (ap (◌∷◌ x) (delete_none p xs h.1))

pub length-select_le {ℓ} :
    {A : Type ℓ} (p : A → Bool) (xs : List A) → length (select p xs) ≤ length xs
length-select_le p [] = omega arith
length-select_le p (x ∷ xs) = elim (Bool-cases (p x)) [
  | inl e ↦ rw e (omega (arith, length-select_le p xs))
  | inr e ↦ rw e (omega (arith, length-select_le p xs))
]

pub length-delete_le {ℓ} :
    {A : Type ℓ} (p : A → Bool) (xs : List A) → length (delete p xs) ≤ length xs
length-delete_le p [] = omega arith
length-delete_le p (x ∷ xs) = elim (Bool-cases (p x)) [
  | inl e ↦ rw e (omega (arith, length-delete_le p xs))
  | inr e ↦ rw e (omega (arith, length-delete_le p xs))
]

pub length-snoc {ℓ} : {A : Type ℓ} (xs : List A) (x : A) → length (xs ++ x ∷ []) ≡ length xs + 1
length-snoc [] x = refl
length-snoc (y ∷ ys) x = omega (arith, length-snoc ys x)
