-- ===== src/Services/Versions.antt =====
-- Optimistic locking: the version of an invoice is used up by the one operation that succeeds at it.
use payman.Prelude.{
  ◌≡◌, sym, ap, ◌∙◌, Bool, true, false, List, [], ◌∷◌, ◌==◌, ==_iff, All, select, update, exists,
  All-append, All-update, All-not_exists, All-imp, exists-append, exists-update, select_none,
  Bool-cases, inl, inr, subst, arith, Unique-append, Unique, Unique-update,
}
use payman.Prelude.Int.{ℤ, pos, ◌+ℤ◌, ◌≤ℤ◌, ◌<ℤ◌, int_laws}
use payman.Models.{Uuid, Invoice}
use payman.Services.Invoices.Statements.{bump}
use payman.Services.Invoices.Stable.{IsStable}

abbrev pub has_id : Uuid → Invoice → Bool
has_id id r = r.id == id

-- No two rows have one identifier: the primary key of the table.
abbrev pub Distinct : List Invoice → Type 0
Distinct = Unique (λ r. has_id r.id)

-- The invoice `id` is stored, and its version has gone past `v`.
abbrev pub IsPast : Uuid → ℤ → List Invoice → Type 0
IsPast id v rows =
    (exists (has_id id) rows ≡ true) × All (λ r. has_id id r ≡ true → v <ℤ r.versioning) rows

pub Distinct-IsStable : IsStable Distinct
Distinct-IsStable = record {
  inserts = λ row rows fresh k. Unique-append _ (λ a b e. ground (arith, e)) rows row fresh k;
  updates = λ p f rows s k.
      Unique-update _ p f rows (λ a b. ap (λ x. b.id == x) (s a).0)
        (λ a b. ap (λ x. x == a.id) (s b).0) k;
}

lt_le_trans : (a b c : ℤ) → a <ℤ b → b ≤ℤ c → a <ℤ c
lt_le_trans a b c h k = omega arith

-- A row that no stored row shares its identifier with is not the stored one.
pub clash :
    (id id' : Uuid) (rows : List Invoice)
    → id' ≡ id
    → exists (has_id id') rows ≡ false
    → exists (has_id id) rows ≡ true
    → ⊥
clash id id' rows same fresh stored =
    let found : exists (has_id id') rows ≡ true =
      subst (λ x. exists (has_id x) rows ≡ true) (sym same) stored in
    cc

lt_irrefl : (a : ℤ) → ¬ (a <ℤ a)
lt_irrefl a h = omega arith

lt_suc : (a : ℤ) → a <ℤ a +ℤ pos 1
lt_suc a = omega int_laws

pub IsPast-IsStable : (id : Uuid) (v : ℤ) → IsStable (IsPast id v)
IsPast-IsStable id v = record {
  inserts = λ row rows fresh (stored, past). (
    exists-append (has_id id) rows (row ∷ []) stored,
    All-append _ rows (row ∷ []) past
        (λ e. absurd (clash id row.id rows ((==_iff row.id id).0 e) fresh stored), tt),
  );
  updates = λ p f rows s (stored, past). (
    exists-update (has_id id) p f rows (λ x. ap (λ y. y == id) (s x).0) ∙ stored,
    All-update _ p f rows
        (λ r k e. lt_le_trans v r.versioning (f r).versioning (k (rw (s r).0 at e)) (s r).1) past,
  );
}

-- What the condition of a versioned update says of the row that it finds.
abbrev pub IsAt : Uuid → ℤ → (Invoice → Bool) → Type 0
IsAt id v p = (r : Invoice) → p r ≡ true → (r.id ≡ id) × (r.versioning ≡ v)

-- Past the version, the update finds no row.
pub select-past :
    (id : Uuid) (v : ℤ) (p : Invoice → Bool) (rows : List Invoice)
    → IsAt id v p
    → IsPast id v rows
    → select p rows ≡ []
select-past id v p rows at (_, past) = select_none p rows (
    All-imp _ _ rows
      (λ r k. elim (Bool-cases (p r)) [
        | inl e ↦ absurd (let (i, j) = at r e in lt_irrefl v (rw j at (k ((==_iff r.id id).1 i))))
        | inr e ↦ e
      ])
      past)

found_self :
    (id : Uuid) (r : Invoice) (rows : List Invoice)
    → r.id ≡ id
    → exists (has_id id) (r ∷ rows) ≡ true
found_self id r rows h = ground arith

exists_later :
    (id : Uuid) (r : Invoice) (rows : List Invoice)
    → exists (has_id id) rows ≡ true
    → exists (has_id id) (r ∷ rows) ≡ true
exists_later id r rows h = ground arith

-- An update that found its row took the version past what it asked for.
pub update-IsPast :
    (id : Uuid) (v : ℤ) (p : Invoice → Bool) (f : Invoice → Invoice) (rows : List Invoice)
    {found : Invoice} {more : List Invoice}
    → IsAt id v p
    → ((r : Invoice) → (f r).id ≡ r.id)
    → Distinct rows
    → select p rows ≡ found ∷ more
    → IsPast id v (update p (bump f) rows)
update-IsPast id v p f [] at s k h = cc
update-IsPast id v p f (r ∷ rows) at s k h = elim (Bool-cases (p r)) [
  | inl e ↦
      let (i, j) = at r e in
      let unmatched : All (λ x. has_id id x ≡ false) rows =
        subst (λ x. All (λ y. has_id x y ≡ false) rows) i (All-not_exists (has_id r.id) rows k.0) in
      rw e (
        found_self id (f r) (update p (bump f) rows) (s r ∙ i),
        (
          λ _. rw j (lt_suc v),
          All-imp _ _ (update p (bump f) rows) (λ x n y. absurd (cc))
              (All-update (λ x. has_id id x ≡ false) p (bump f) rows (λ x n. rw (s x) n) unmatched),
        ),
      )
  | inr e ↦
      let (stored, past) = update-IsPast id v p f rows at s k.1 (rw e at h) in
      let before : exists (has_id id) rows ≡ true =
        sym (exists-update (has_id id) p (bump f) rows (λ x. ap (λ y. y == id) (s x))) ∙ stored in
      rw e (
        exists_later id r (update p (bump f) rows) stored,
        (λ same. absurd (clash id r.id rows ((==_iff r.id id).0 same) k.0 before), past),
      )
]
