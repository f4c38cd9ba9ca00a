-- ===== src/Services/Invoices/Updates.antt =====
-- Updates of the table invoices, and the invariant of the invoice tables.
use payman.Prelude.{
  select, map, ◌≡◌, refl, ap, ◌∙◌, Bool, true, List, ◌==◌, All, update, exists, All-imp, All-update,
  All-update_imp, exists-update, Bool-cases, inl, inr, ◌&&◌, arith,
}
use payman.Prelude.Int.{eqb_ℤ, pos}
use payman.Models.{Uuid, DateTime, Invoice, LineItem, CreateLineItemRequest}
use payman.Errors.{AppError, Result, ok, err}
use payman.Store.{Db, Keeps, exec, exec-Keeps}
use payman.Services.Invoices.Totals.{total_cents}
use payman.Services.Invoices.Statements.{update_invoices, bump_invoices, bump}
use payman.Services.Invoices.Consistent.{HasTotal, IsConsistent, IsBuilding, IsBuilding-done}

-- The settings of an update leave the identifier and the total alone.
abbrev pub SparesTotal : (Invoice → Invoice) → Type 0
SparesTotal f = (r : Invoice) → ((f r).id ≡ r.id) × ((f r).total_cents ≡ r.total_cents)

HasTotal-spared :
    (f : Invoice → Invoice) (rows : List LineItem) (r : Invoice)
    → SparesTotal f
    → HasTotal rows r
    → HasTotal rows (f r)
HasTotal-spared f rows r s h = let (same, kept) = s r in rw (kept, same) h

owned_spared :
    (p : Invoice → Bool) (f : Invoice → Invoice) (d : Db)
    → ((r : Invoice) → (f r).id ≡ r.id)
    → All
        (λ (li : LineItem). exists (λ (r : Invoice). r.id == li.invoice_id) d.invoices ≡ true)
        d.line_items
    → All
        (λ (li : LineItem).
          exists (λ (r : Invoice). r.id == li.invoice_id) (update p f d.invoices) ≡ true)
        d.line_items
owned_spared p f d s h =
    All-imp _ _ d.line_items
      (λ li k.
        exists-update (λ r. r.id == li.invoice_id) p f d.invoices
          (λ r. ap (λ x. x == li.invoice_id) (s r))
        ∙ k)
      h

pub update_invoices-IsConsistent :
    (p : Invoice → Bool) (f : Invoice → Invoice) (d : Db)
    → SparesTotal f
    → IsConsistent d
    → IsConsistent (update_invoices p f d).1
unfolding update_invoices
update_invoices-IsConsistent p f d s h = record {
  totals =
      All-update (HasTotal d.line_items) p f d.invoices (λ r. HasTotal-spared f d.line_items r s)
        h.totals;
  owned = owned_spared p f d (λ r. (s r).0) h.owned;
  charged = h.charged;
}

pub bump_invoices-IsConsistent :
    (p : Invoice → Bool) (f : Invoice → Invoice) (d : Db)
    → SparesTotal f
    → IsConsistent d
    → IsConsistent (bump_invoices p f d).1
unfolding bump_invoices
bump_invoices-IsConsistent p f d s h =
    elim (Bool-cases (exists (λ r. p r && eqb_ℤ r.versioning (pos 2_147_483_647)) d.invoices)) [
      | inl e ↦ rw e h
      | inr e ↦ rw e (update_invoices-IsConsistent p (bump f) d s h)
    ]

pub exec_update-Keeps :
    (p : Invoice → Bool) (f : Invoice → Invoice)
    → SparesTotal f
    → Keeps IsConsistent (exec (update_invoices p f))
exec_update-Keeps p f s = exec-Keeps _ _ (λ d. update_invoices-IsConsistent p f d s)

pub exec_bump-Keeps :
    (p : Invoice → Bool) (f : Invoice → Invoice)
    → SparesTotal f
    → Keeps IsConsistent (exec (bump_invoices p f))
exec_bump-Keeps p f s = exec-Keeps _ _ (λ d. bump_invoices-IsConsistent p f d s)

-- Writing the total of its items finishes an invoice.
pub set_total-IsConsistent :
    (id : Uuid) (done : List CreateLineItemRequest) (now : DateTime) (d : Db)
    → IsBuilding id done d
    → IsConsistent
        (update_invoices
          (λ r. r.id == id)
          (λ r. record r { total_cents = total_cents done; updated_at = now })
          d).1
unfolding update_invoices
set_total-IsConsistent id done now d h =
    IsBuilding-done id done _
      (record {
        others =
            All-update_imp _ _ (λ r. r.id == id) _ d.invoices (λ r e k f. absurd (cc)) (λ r e k. k)
              h.others;
        owned = owned_spared _ _ d (λ r. refl) h.owned;
        charged = h.charged;
        items = h.items;
      })
      (All-update_imp _ _ (λ r. r.id == id) _ d.invoices (λ r e k f. refl) (λ r e k f. absurd (cc))
        h.others)

clash_ok :
    {e : AppError} {d d' : Db} {rows : List Invoice}
    → ◌≡◌ {A = Result (List Invoice) × Db} (err e, d) (ok rows, d')
    → ⊥
clash_ok h = cc

both_of :
    {rows rows' : List Invoice} {d d' : Db}
    → ◌≡◌ {A = Result (List Invoice) × Db} (ok rows', d') (ok rows, d)
    → (rows ≡ rows') × (d ≡ d')
both_of h = ground arith

-- A versioned update that succeeded: the rows that it returns, and the table that it leaves.
pub bump-eq-ok :
    (p : Invoice → Bool) (f : Invoice → Invoice) (d : Db) {rows : List Invoice} {d' : Db}
    → bump_invoices p f d ≡ (ok rows, d')
    → (rows ≡ map (bump f) (select p d.invoices))
      × (d' ≡ record d { invoices = update p (bump f) d.invoices })
unfolding bump_invoices update_invoices
bump-eq-ok p f d h =
    elim (Bool-cases (exists (λ r. p r && eqb_ℤ r.versioning (pos 2_147_483_647)) d.invoices)) [
      | inl e ↦ absurd (clash_ok (rw e at h))
      | inr e ↦ both_of (rw e at h)
    ]
