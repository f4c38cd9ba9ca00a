-- ===== src/Prelude/Indexes.antt =====
-- Tables where no two rows are the same for a test: a unique index.
use payman.Prelude.Tests.{Bool-cases}
use payman.Prelude.Lists.{update, exists}
use payman.Prelude.Tables.{exists-update}
use mathlib.Core.Path.{◌≡◌, refl, ◌∙◌}
use mathlib.Core.Logic.{inl, inr}
use mathlib.Core.Bool.{Bool, true, false}
use mathlib.Core.List.{List, [], ◌∷◌, ◌++◌}
use native.Mathlib.Omega.{arith}

abbrev pub Unique {ℓ} : {A : Type ℓ} → (A → A → Bool) → List A → Type 0
Unique same [] = Unit
Unique same (r ∷ rows) = (exists (same r) rows ≡ false) × Unique same rows

module _ {ℓ} {A : Type ℓ} where
  exists-append_ne :
      (p : A → Bool) (rows : List A) (row : A)
      → exists p rows ≡ false
      → p row ≡ false
      → exists p (rows ++ row ∷ []) ≡ false
  exists-append_ne p [] row h k = ground arith
  exists-append_ne p (r ∷ rows) row h k = ground (arith, exists-append_ne p rows row)

  differs :
      (same : A → A → Bool)
      → ((a b : A) → same a b ≡ true → same b a ≡ true)
      → (a b : A) → same a b ≡ false
      → same b a ≡ false
  differs same flip a b h = elim (Bool-cases (same b a)) [
    | inl e ↦ ground (arith, flip b a e)
    | inr e ↦ e
  ]

  pub Unique-append :
      (same : A → A → Bool)
      → ((a b : A) → same a b ≡ true → same b a ≡ true)
      → (rows : List A) (row : A) → exists (same row) rows ≡ false
      → Unique same rows
      → Unique same (rows ++ row ∷ [])
  Unique-append same flip [] row h k = (refl, tt)
  Unique-append same flip (r ∷ rows) row h k = (
    exists-append_ne (same r) rows row k.0 (differs same flip row r (ground arith)),
    Unique-append same flip rows row (ground arith) k.1,
  )

  exists-same :
      (p q : A → Bool) (rows : List A) → ((c : A) → p c ≡ q c) → exists p rows ≡ exists q rows
  exists-same p q [] h = refl
  exists-same p q (c ∷ rows) h = ground (arith, h c, exists-same p q rows h)

  -- An update that leaves the columns of the index alone.
  pub Unique-update :
      (same : A → A → Bool) (p : A → Bool) (f : A → A) (rows : List A)
      → ((a b : A) → same (f a) b ≡ same a b)
      → ((a b : A) → same a (f b) ≡ same a b)
      → Unique same rows
      → Unique same (update p f rows)
  Unique-update same p f [] left right k = tt
  Unique-update same p f (r ∷ rows) left right k = elim (Bool-cases (p r)) [
    | inl e ↦ rw e (
      exists-update (same (f r)) p f rows (right (f r))
          ∙ exists-same (same (f r)) (same r) rows (left r)
          ∙ k.0,
      Unique-update same p f rows left right k.1,
    )
    | inr e ↦ rw e (
      exists-update (same r) p f rows (right r) ∙ k.0,
      Unique-update same p f rows left right k.1,
    )
  ]
