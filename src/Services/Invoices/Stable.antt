-- ===== src/Services/Invoices/Stable.antt =====
-- What the services on invoices keep of the table invoices: rows come with fresh identifiers, they
-- keep their identifiers, and their versions never go back.
use payman.Services.Invoices.Lifecycle.{Actor, Moves}
use payman.Prelude.{
  true, ◌≡◌, Bool, false, ◌&&◌, List, [], ◌∷◌, ◌++◌, ◌==◌, update, exists, Bool-cases, inl, inr,
  arith, refl,
}
use payman.Prelude.Int.{ℤ, pos, ◌+ℤ◌, ◌≤ℤ◌, eqb_ℤ, int_laws}
use payman.Models.{draft, Uuid, Invoice, LineItem}
use payman.Errors.{Result}
use payman.Store.{Db, Keeps, exec, exec-Keeps, insert_cases}
use payman.Services.Invoices.Statements.{
  insert_invoice, insert_line_item, update_invoices, bump_invoices, bump, delete_line_items,
}

-- A row after an update: the same invoice, at the same version or a later one.
abbrev pub Advances : Invoice → Invoice → Type 0
Advances r r' = (r'.id ≡ r.id) × (r.versioning ≤ℤ r'.versioning)

-- An update moves the state of each row that it finds as the life of an invoice allows.
abbrev pub MovesBy : Actor → (Invoice → Bool) → (Invoice → Invoice) → Type 0
MovesBy a p f = (r : Invoice) → p r ≡ true → Moves a r.state (f r).state

pub record IsStable (C : List Invoice → Type 0) : Type 0 where
  pub inserts :
      (row : Invoice) (rows : List Invoice)
      → exists (λ r. r.id == row.id) rows ≡ false
      → C rows
      → C (rows ++ row ∷ [])
  pub updates :
      (p : Invoice → Bool) (f : Invoice → Invoice) (rows : List Invoice)
      → ((r : Invoice) → Advances r (f r))
      → C rows
      → C (update p f rows)

-- What is kept where an update moves the state of a row as the life of an invoice allows, and a new row
-- is a draft.
pub record IsKept (a : Actor) (C : List Invoice → Type 0) : Type 0 where
  pub inserts :
      (row : Invoice) (rows : List Invoice)
      → a ≡ Actor.editor
      → row.state ≡ draft
      → exists (λ r. r.id == row.id) rows ≡ false
      → C rows
      → C (rows ++ row ∷ [])
  pub updates :
      (p : Invoice → Bool) (f : Invoice → Invoice) (rows : List Invoice)
      → ((r : Invoice) → Advances r (f r))
      → MovesBy a p f
      → C rows
      → C (update p f rows)

pub IsStable-IsKept : (a : Actor) (C : List Invoice → Type 0) → IsStable C → IsKept a C
IsStable-IsKept a C s = record {
  inserts = λ row rows _ _ fresh c. s.inserts row rows fresh c;
  updates = λ p f rows advances _ c. s.updates p f rows advances c;
}

abbrev pub OnInvoices : (List Invoice → Type 0) → Db → Type 0
OnInvoices C d = C d.invoices

≤ℤ_refl : (a : ℤ) → a ≤ℤ a
≤ℤ_refl a = omega arith

≤ℤ_suc : (a : ℤ) → a ≤ℤ a +ℤ pos 1
≤ℤ_suc a = omega int_laws

module _ (a : Actor) (C : List Invoice → Type 0) (s : IsKept a C) where
  pub exec_update-Kept :
      (p : Invoice → Bool) (f : Invoice → Invoice)
      → ((r : Invoice) → ((f r).id ≡ r.id) × ((f r).versioning ≡ r.versioning))
      → MovesBy a p f
      → Keeps (OnInvoices C) (exec (update_invoices p f))
  unfolding update_invoices
  exec_update-Kept p f k moves =
      exec-Keeps _ _
        (λ d. s.updates p f d.invoices (λ r. ((k r).0, rw (k r).1 (≤ℤ_refl r.versioning))) moves)

  pub exec_bump-Kept :
      (p : Invoice → Bool) (f : Invoice → Invoice)
      → ((r : Invoice) → (f r).id ≡ r.id)
      → MovesBy a p f
      → Keeps (OnInvoices C) (exec (bump_invoices p f))
  unfolding bump_invoices
  exec_bump-Kept p f k moves = exec-Keeps _ _ (λ d c.
      elim (Bool-cases (exists (λ r. p r && eqb_ℤ r.versioning (pos 2_147_483_647)) d.invoices)) [
        | inl e ↦ rw e c
        | inr e ↦ rw e (s.updates p (bump f) d.invoices (λ r. (k r, ≤ℤ_suc r.versioning)) moves c)
      ])

  pub insert_invoice-Kept :
      a ≡ Actor.editor
      → (row : Invoice) → row.state ≡ draft
      → Keeps (OnInvoices C) (exec (insert_invoice row))
  unfolding insert_invoice
  insert_invoice-Kept by row e = exec-Keeps _ _ λ d c.
      insert_cases (OnInvoices C) row _ _ d c
        λ checked. s.inserts row d.invoices by e (ground (arith, checked.0)) c

  -- A statement that leaves the table alone.
  pub exec_elsewhere-Kept {ℓ} :
      {A : Type ℓ} (f : Db → Result A × Db)
      → ((d : Db) → (f d).1.invoices ≡ d.invoices)
      → Keeps (OnInvoices C) (exec f)
  exec_elsewhere-Kept f k = exec-Keeps _ _ (λ d c. rw (k d) c)

  pub insert_line_item-Kept : (row : LineItem) → Keeps (OnInvoices C) (exec (insert_line_item row))
  unfolding insert_line_item
  insert_line_item-Kept row = exec-Keeps _ _ λ d c. insert_cases (OnInvoices C) row _ _ d c (λ _. c)

  pub delete_line_items-Kept :
      (seen : LineItem → Bool) (id : Uuid) → Keeps (OnInvoices C) (exec (delete_line_items seen id))
  unfolding delete_line_items
  delete_line_items-Kept seen id = exec-Keeps _ _ λ d c. c

module _ (C : List Invoice → Type 0) (s : IsStable C) where
  pub exec_bump-Stable :
      (p : Invoice → Bool) (f : Invoice → Invoice)
      → ((r : Invoice) → (f r).id ≡ r.id)
      → Keeps (OnInvoices C) (exec (bump_invoices p f))
  unfolding bump_invoices
  exec_bump-Stable p f k = exec-Keeps _ _ (λ d c.
      elim (Bool-cases (exists (λ r. p r && eqb_ℤ r.versioning (pos 2_147_483_647)) d.invoices)) [
        | inl e ↦ rw e c
        | inr e ↦ rw e (s.updates p (bump f) d.invoices (λ r. (k r, ≤ℤ_suc r.versioning)) c)
      ])

-- A predicate on the tables that each statement of the services on invoices keeps.
pub record Allows (P : Db → Type 0) : Type 1 where
  pub updates :
      (p : Invoice → Bool) (f : Invoice → Invoice)
      → ((r : Invoice) → ((f r).id ≡ r.id) × ((f r).versioning ≡ r.versioning))
      → MovesBy Actor.editor p f
      → Keeps P (exec (update_invoices p f))
  pub bumps :
      (p : Invoice → Bool) (f : Invoice → Invoice)
      → ((r : Invoice) → (f r).id ≡ r.id)
      → MovesBy Actor.editor p f
      → Keeps P (exec (bump_invoices p f))
  pub drafts : (row : Invoice) → row.state ≡ draft → Keeps P (exec (insert_invoice row))
  pub lines : (row : LineItem) → Keeps P (exec (insert_line_item row))
  pub clears : (seen : LineItem → Bool) (id : Uuid) → Keeps P (exec (delete_line_items seen id))

pub OnInvoices-Allows : (C : List Invoice → Type 0) → IsKept Actor.editor C → Allows (OnInvoices C)
OnInvoices-Allows C s = record {
  updates = exec_update-Kept _ C s;
  bumps = exec_bump-Kept _ C s;
  drafts = insert_invoice-Kept _ C s refl;
  lines = insert_line_item-Kept _ C s;
  clears = delete_line_items-Kept _ C s;
}

-- The same for the statement that finalizes or voids an invoice.
abbrev pub Bumps : (Db → Type 0) → Type 0
Bumps P =
    (p : Invoice → Bool) (f : Invoice → Invoice)
    → ((r : Invoice) → (f r).id ≡ r.id)
    → Keeps P (exec (bump_invoices p f))
