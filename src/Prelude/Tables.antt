-- ===== src/Prelude/Tables.antt =====
-- Lemmas on tables: predicates on all rows, and what a statement selects after a write.
use payman.Prelude.Tests.{if◌then◌else◌, Bool-cases}
use payman.Prelude.Lists.{All, select, update, delete, exists}
use mathlib.Core.Path.{◌≡◌, refl, ap}
use mathlib.Core.Logic.{inl, inr}
use mathlib.Core.Bool.{Bool, true, false}
use mathlib.Core.List.{List, [], ◌∷◌, ◌++◌}
use native.Mathlib.Omega.{arith}

module _ {ℓ κ} {A : Type ℓ} (P : A → Type κ) where
  pub All-append : (xs ys : List A) → All P xs → All P ys → All P (xs ++ ys)
  All-append [] ys h k = k
  All-append (x ∷ xs) ys h k = (h.0, All-append xs ys h.1 k)

  pub All-update :
      (p : A → Bool) (f : A → A) (xs : List A)
      → ((x : A) → P x → P (f x))
      → All P xs
      → All P (update p f xs)
  All-update p f [] k h = tt
  All-update p f (x ∷ xs) k h = elim (Bool-cases (p x)) [
    | inl e ↦ rw e (k x h.0, All-update p f xs k h.1)
    | inr e ↦ rw e (h.0, All-update p f xs k h.1)
  ]

  pub All-delete : (p : A → Bool) (xs : List A) → All P xs → All P (delete p xs)
  All-delete p [] h = tt
  All-delete p (x ∷ xs) h = elim (Bool-cases (p x)) [
    | inl e ↦ rw e (All-delete p xs h.1)
    | inr e ↦ rw e (h.0, All-delete p xs h.1)
  ]

  -- An update after which all rows have `P`, whatever they had before.
  pub All-update_of :
      (p : A → Bool) (f : A → A) (xs : List A)
      → ((x : A) → p x ≡ true → P (f x))
      → ((x : A) → p x ≡ false → P x)
      → All P (update p f xs)
  All-update_of p f [] k l = tt
  All-update_of p f (x ∷ xs) k l = elim (Bool-cases (p x)) [
    | inl e ↦ rw e (k x e, All-update_of p f xs k l)
    | inr e ↦ rw e (l x e, All-update_of p f xs k l)
  ]

  -- All the selected rows satisfy the test.
  pub All-select : (p : A → Bool) (xs : List A) → ((x : A) → p x ≡ true → P x) → All P (select p xs)
  All-select p [] k = tt
  All-select p (x ∷ xs) k = elim (Bool-cases (p x)) [
    | inl e ↦ rw e (k x e, All-select p xs k)
    | inr e ↦ rw e (All-select p xs k)
  ]

module _ {ℓ κ μ} {A : Type ℓ} (P : A → Type κ) (Q : A → Type μ) where
  pub All-imp : (xs : List A) → ((x : A) → P x → Q x) → All P xs → All Q xs
  All-imp [] k h = tt
  All-imp (x ∷ xs) k h = (k x h.0, All-imp xs k h.1)

  -- An update that turns `P` into `Q` on the rows it sets, where the others have `Q` already.
  pub All-update_imp :
      (p : A → Bool) (f : A → A) (xs : List A)
      → ((x : A) → p x ≡ true → P x → Q (f x))
      → ((x : A) → p x ≡ false → P x → Q x)
      → All P xs
      → All Q (update p f xs)
  All-update_imp p f [] k l h = tt
  All-update_imp p f (x ∷ xs) k l h = elim (Bool-cases (p x)) [
    | inl e ↦ rw e (k x e h.0, All-update_imp p f xs k l h.1)
    | inr e ↦ rw e (l x e h.0, All-update_imp p f xs k l h.1)
  ]

pub All-zip {ℓ κ μ ν} :
    {A : Type ℓ} (P : A → Type κ) (Q : A → Type μ) (R : A → Type ν) (xs : List A)
    → ((x : A) → P x → Q x → R x)
    → All P xs
    → All Q xs
    → All R xs
All-zip P Q R [] k h g = tt
All-zip P Q R (x ∷ xs) k h g = (k x h.0 g.0, All-zip P Q R xs k h.1 g.1)

module _ {ℓ} {A : Type ℓ} where
  pub select-append :
      (p : A → Bool) (xs ys : List A) → select p (xs ++ ys) ≡ select p xs ++ select p ys
  select-append p [] ys = refl
  select-append p (x ∷ xs) ys = elim (Bool-cases (p x)) [
    | inl e ↦ rw e (ap (◌∷◌ x) (select-append p xs ys))
    | inr e ↦ rw e (select-append p xs ys)
  ]

  pub select_none : (p : A → Bool) (xs : List A) → All (λ x. p x ≡ false) xs → select p xs ≡ []
  select_none p [] h = refl
  select_none p (x ∷ xs) h = rw h.0 (select_none p xs h.1)

  pub select-delete_self : (p : A → Bool) (xs : List A) → select p (delete p xs) ≡ []
  select-delete_self p [] = refl
  select-delete_self p (x ∷ xs) = elim (Bool-cases (p x)) [
    | inl e ↦ rw e (select-delete_self p xs)
    | inr e ↦ rw (e, e) (select-delete_self p xs)
  ]

  -- Deleting rows that the test does not select leaves the selection alone.
  pub select-delete_disjoint :
      (p q : A → Bool) (xs : List A)
      → ((x : A) → q x ≡ true → p x ≡ false)
      → select p (delete q xs) ≡ select p xs
  select-delete_disjoint p q [] k = refl
  select-delete_disjoint p q (x ∷ xs) k = elim (Bool-cases (q x)) [
    | inl e ↦ rw (e, k x e) (select-delete_disjoint p q xs k)
    | inr e ↦ rw e (ap (λ l. if p x then x ∷ l else l) (select-delete_disjoint p q xs k))
  ]

  pub delete-same :
      (p q : A → Bool) (xs : List A) → ((x : A) → p x ≡ q x) → delete p xs ≡ delete q xs
  delete-same p q [] k = refl
  delete-same p q (x ∷ xs) k = rw (k x, delete-same p q xs k) refl

  pub exists-append :
      (p : A → Bool) (xs ys : List A) → exists p xs ≡ true → exists p (xs ++ ys) ≡ true
  exists-append p [] ys h = cc
  exists-append p (x ∷ xs) ys h = ground (arith, exists-append p xs ys)

  pub exists-update :
      (p q : A → Bool) (f : A → A) (xs : List A)
      → ((x : A) → p (f x) ≡ p x)
      → exists p (update q f xs) ≡ exists p xs
  exists-update p q f [] k = refl
  exists-update p q f (x ∷ xs) k = ground (arith, k x, exists-update p q f xs k)

  -- A test that no row passes fails on each.
  pub All-not_exists :
      (p : A → Bool) (xs : List A) → exists p xs ≡ false → All (λ x. p x ≡ false) xs
  All-not_exists p [] h = tt
  All-not_exists p (x ∷ xs) h = elim (Bool-cases (p x)) [
    | inl e ↦ absurd (ground arith)
    | inr e ↦ (e, All-not_exists p xs (ground arith))
  ]
