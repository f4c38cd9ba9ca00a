-- ===== src/Prelude/Passing.antt =====
-- Booleans, and the rows of a table that pass a test.
use payman.Prelude.Tests.{Bool-cases}
use payman.Prelude.Lists.{All, select, exists, head?}
use mathlib.Core.Path.{◌≡◌, refl}
use mathlib.Core.Logic.{inl, inr, ◌≢◌}
use mathlib.Core.Bool.{Bool, true, false, ◌&&◌}
use mathlib.Core.Option.{some}
use mathlib.Core.List.{List, [], ◌∷◌, ◌++◌}
use native.Mathlib.Omega.{arith}

pub and_true : (a b : Bool) → a ≡ true → b ≡ true → (a && b) ≡ true
and_true a b h k = ground arith

pub and_left : (a b : Bool) → (a && b) ≡ true → a ≡ true
and_left a b h = ground arith

pub exists-last {ℓ} :
    {A : Type ℓ} (p : A → Bool) (xs : List A) (x : A) → p x ≡ true → exists p (xs ++ x ∷ []) ≡ true
exists-last p [] x h = rw h refl
exists-last p (y ∷ xs) x h = ground (arith, exists-last p xs x h)

pub not_both : (b : Bool) → b ≡ false → b ≡ true → ⊥
not_both b h k = cc

exists-later {ℓ} :
    {A : Type ℓ} (q : A → Bool) (x : A) (xs : List A)
    → exists q (x ∷ xs) ≡ true
    → q x ≢ true
    → exists q xs ≡ true
exists-later q x xs h k = ground arith

-- Where a row passes `q`, and all that pass it pass `p`, the first that passes `p` has what all such
-- rows have.
pub first_passing {ℓ κ} :
    {A : Type ℓ} (P : A → Type κ) (p q : A → Bool) (xs : List A)
    → exists q xs ≡ true
    → All (λ x. q x ≡ true → p x ≡ true) xs
    → All (λ x. p x ≡ true → P x) xs
    → (x : A) × (head? (select p xs) ≡ some x) × P x
first_passing P p q [] h l k = absurd (cc)
first_passing P p q (x ∷ xs) h l k = elim (Bool-cases (p x)) [
  | inl e ↦ rw e (x, refl, k.0 e)
  | inr e ↦
      rw e (first_passing P p q xs (exists-later q x xs h (λ t. not_both _ e (l.0 t))) l.1 k.1)
]
