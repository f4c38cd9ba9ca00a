-- ===== src/Prelude/Ordering.antt =====
-- `ORDER BY … DESC` returns the rows that it is given, in order.
use payman.Prelude.Tests.{ltb, Bool-cases}
use payman.Prelude.Lists.{All, insert_desc, order_by_desc}
use payman.Prelude.Tables.{All-imp}
use Prim.Native.Nat.{ℕ, ◌≤◌}
use mathlib.Core.Path.{◌≡◌}
use mathlib.Core.Logic.{inl, inr}
use mathlib.Core.Bool.{true, false}
use mathlib.Core.List.{List, [], ◌∷◌, Perm}
use mathlib.Core.List.Perm
use native.Mathlib.Omega.{arith}

module _ {ℓ} {A : Type ℓ} (key : A → ℕ) where
  -- No row comes before one with a greater key.
  abbrev pub IsDescending : List A → Type 0
  IsDescending [] = Unit
  IsDescending (x ∷ xs) = All (λ y. key y ≤ key x) xs × IsDescending xs

  insert_desc-Perm : (x : A) (xs : List A) → Perm (insert_desc key x xs) (x ∷ xs)
  unfolding insert_desc
  insert_desc-Perm x [] = Perm.refl (x ∷ [])
  insert_desc-Perm x (y ∷ ys) = elim (Bool-cases (ltb (key x) (key y))) [
    | inl e ↦ rw e (Perm.trans (Perm.cons y (insert_desc-Perm x ys)) (Perm.swap x y ys))
    | inr e ↦ rw e (Perm.refl (x ∷ y ∷ ys))
  ]

  pub order_by_desc-Perm : (xs : List A) → Perm (order_by_desc key xs) xs
  unfolding order_by_desc
  order_by_desc-Perm [] = Perm.nil
  order_by_desc-Perm (x ∷ xs) =
      Perm.trans (insert_desc-Perm x (order_by_desc key xs)) (Perm.cons x (order_by_desc-Perm xs))

  All-insert_desc {κ} :
      (P : A → Type κ) (x : A) (xs : List A) → P x → All P xs → All P (insert_desc key x xs)
  unfolding insert_desc
  All-insert_desc P x [] h k = (h, tt)
  All-insert_desc P x (y ∷ ys) h k = elim (Bool-cases (ltb (key x) (key y))) [
    | inl e ↦ rw e (k.0, All-insert_desc P x ys h k.1)
    | inr e ↦ rw e (h, k)
  ]

  ge_of_test : (a b : ℕ) → ltb a b ≡ false → b ≤ a
  ge_of_test a b h = ground arith

  le_of_test : (a b : ℕ) → ltb a b ≡ true → a ≤ b
  le_of_test a b h = ground arith

  le_trans : (a b c : ℕ) → a ≤ b → b ≤ c → a ≤ c
  le_trans a b c h k = omega arith

  insert_desc-IsDescending :
      (x : A) (xs : List A) → IsDescending xs → IsDescending (insert_desc key x xs)
  unfolding insert_desc
  insert_desc-IsDescending x [] h = (tt, tt)
  insert_desc-IsDescending x (y ∷ ys) h = elim (Bool-cases (ltb (key x) (key y))) [
    | inl e ↦ rw e (
      All-insert_desc (λ z. key z ≤ key y) x ys (le_of_test _ _ e) h.0,
      insert_desc-IsDescending x ys h.1,
    )
    | inr e ↦
        let first = ge_of_test (key x) (key y) e in
        rw e (
          (
            first,
            All-imp (λ z. key z ≤ key y) (λ z. key z ≤ key x) ys (λ z k. le_trans _ _ _ k first)
                h.0,
          ),
          h,
        )
  ]

  pub order_by_desc-IsDescending : (xs : List A) → IsDescending (order_by_desc key xs)
  unfolding order_by_desc
  order_by_desc-IsDescending [] = tt
  order_by_desc-IsDescending (x ∷ xs) =
      insert_desc-IsDescending x (order_by_desc key xs) (order_by_desc-IsDescending xs)
