-- ===== src/Prelude/Membership.antt =====
-- The row that a query found is a row of the table.
use native.Mathlib.Omega.{arith}
use payman.Prelude.Tests.{◌==◌, Bool-cases, ltb}
use payman.Prelude.Lists.{length, All, select, exists, head?, insert_desc, order_by_desc}
use Prim.Native.Nat.{ℕ}
use mathlib.Core.Path.{◌≡◌, ap, subst}
use mathlib.Core.Logic.{inl, inr}
use mathlib.Core.Bool.{Bool, true, false}
use mathlib.Core.Option.{some, some_inj, none-ne-some}
use mathlib.Core.List.{map, List, [], ◌∷◌, Mem, mem-cons_self, mem-cons_of_mem}

module _ {ℓ} {A : Type ℓ} (p : A → Bool) where
  pub exists-Mem : (xs : List A) → exists p xs ≡ true → (x : A) × Mem x xs × (p x ≡ true)
  exists-Mem [] h = absurd (cc)
  exists-Mem (x ∷ xs) h = elim (Bool-cases (p x)) [
    | inl e ↦ (x, mem-cons_self, e)
    | inr e ↦ let (y, m, k) = exists-Mem xs (rw e at h) in (y, mem-cons_of_mem x m, k)
  ]

  pub head-select : (xs : List A) {x : A} → head? (select p xs) ≡ some x → Mem x xs × (p x ≡ true)
  head-select [] h = absurd cc
  head-select (y ∷ xs) {x} h = elim (Bool-cases (p y)) [
    | inl e ↦
        let same : y ≡ x = some_inj.0 (rw e at h) in
        (subst (λ z. Mem z (y ∷ xs)) same mem-cons_self, subst (λ z. p z ≡ true) same e)
    | inr e ↦ let (m, k) = head-select xs (rw e at h) in (mem-cons_of_mem y m, k)
  ]

module _ {ℓ κ} {A : Type ℓ} (P : A → Type κ) (key : A → ℕ) where
  All-insert_desc : (x : A) (xs : List A) → P x → All P xs → All P (insert_desc key x xs)
  unfolding insert_desc
  All-insert_desc x [] p h = (p, tt)
  All-insert_desc x (y ∷ xs) p h = elim (Bool-cases (ltb (key x) (key y))) [
    | inl e ↦ rw e (h.0, All-insert_desc x xs p h.1)
    | inr e ↦ rw e (p, h)
  ]

  pub All-order_by_desc : (xs : List A) → All P xs → All P (order_by_desc key xs)
  unfolding order_by_desc
  All-order_by_desc [] h = tt
  All-order_by_desc (x ∷ xs) h =
      All-insert_desc x (order_by_desc key xs) h.0 (All-order_by_desc xs h.1)

-- What a statement returns first, where it found a row.
module _ {ℓ κ} {A : Type ℓ} {B : Type κ} (f : A → B) where
  pub head-map : (xs : List A) {x : A} → head? xs ≡ some x → head? (map f xs) ≡ some (f x)
  head-map [] h = absurd (none-ne-some _ h)
  head-map (x ∷ xs) h = ap some (ap f (some_inj.0 h))

  pub length-map-some : (xs : List A) {x : A} → head? xs ≡ some x → (length (map f xs) == 0) ≡ false
  length-map-some [] h = absurd (none-ne-some _ h)
  length-map-some (x ∷ xs) h = ground arith

-- Where a test finds a row, one that it implies holds of some row.
pub head-exists {ℓ} :
    {A : Type ℓ} (p q : A → Bool) (xs : List A) {x : A}
    → ((y : A) → p y ≡ true → q y ≡ true)
    → head? (select p xs) ≡ some x
    → exists q xs ≡ true
head-exists p q [] h first = absurd (none-ne-some _ first)
head-exists p q (y ∷ xs) h first = elim (Bool-cases (p y)) [
  | inl e ↦ let same = h y e in ground arith
  | inr e ↦ let rest = head-exists p q xs h (rw e at first) in ground arith
]
