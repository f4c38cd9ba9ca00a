-- ===== src/Services/Invoices/Advance.antt =====
-- Every service on invoices keeps what its statements keep.
use payman.Services.Invoices.Lifecycle.{Actor, Moves}
use payman.Services.Invoices.Statements.{
  insert_invoice, insert_line_item, update_invoices, bump_invoices, delete_line_items,
}
use payman.Prelude.{Bool, ◌≡◌, refl, Option, none, some, List, [], ◌∷◌}
use payman.Prelude.Int.{ℤ}
use payman.Models.{
  Uuid, NaiveDate, InvoiceState, Invoice, LineItem, draft, CreateLineItemRequest,
  CreateInvoiceRequest, EditInvoiceRequest, FinalizeInvoiceRequest, VoidInvoiceRequest,
}
use payman.Store.{Db, exec, Keeps, >>=-Keeps, keeps_rules, transaction-Keeps}
use payman.Services.Invoices.Stable.{Allows, Bumps, MovesBy}
use payman.Services.Invoices.Create.{
  add_line_item, add_checked_line_items, insert_draft, create_invoice,
}
use payman.Services.Invoices.Edit.{
  lock_draft, set_due_date, add_line_items, replace_line_items, set_line_items, edit_rows,
  edit_locked, edit_invoice,
}
use payman.Services.Invoices.Transitions.{
  set_state, finalize_draft, finalize_invoice, void_at_version, void_invoice,
}
use payman.Services.Invoices.Keeps.{check_line_item-IsReading, validate_line_items-IsReading}

module _ (P : Db → Type 0) (s : Allows P) where
  exec_update-Kept :
      (p : Invoice → Bool) (f : Invoice → Invoice)
      → ((r : Invoice) → ((f r).id ≡ r.id) × ((f r).versioning ≡ r.versioning))
      → MovesBy Actor.editor p f
      → Keeps P (exec (update_invoices p f))
  exec_update-Kept = s.updates

  exec_bump-Kept :
      (p : Invoice → Bool) (f : Invoice → Invoice)
      → ((r : Invoice) → (f r).id ≡ r.id)
      → MovesBy Actor.editor p f
      → Keeps P (exec (bump_invoices p f))
  exec_bump-Kept = s.bumps

  insert_invoice-Kept : (row : Invoice) → row.state ≡ draft → Keeps P (exec (insert_invoice row))
  insert_invoice-Kept = s.drafts

  insert_line_item-Kept : (row : LineItem) → Keeps P (exec (insert_line_item row))
  insert_line_item-Kept = s.lines

  delete_line_items-Kept :
      (seen : LineItem → Bool) (id : Uuid) → Keeps P (exec (delete_line_items seen id))
  delete_line_items-Kept = s.clears

  ruleset kept_rules = (
    keeps_rules, exec_update-Kept, exec_bump-Kept, insert_invoice-Kept, insert_line_item-Kept,
    delete_line_items-Kept, check_line_item-IsReading, validate_line_items-IsReading, Moves.stay,
    refl,
  )

  add_line_item-Kept : (id : Uuid) (item : CreateLineItemRequest) → Keeps P (add_line_item id item)
  unfolding add_line_item
  add_line_item-Kept id item = search kept_rules

  add_checked-Kept :
      (id : Uuid) (items : List CreateLineItemRequest) → Keeps P (add_checked_line_items id items)
  unfolding add_checked_line_items
  add_checked-Kept id [] = search kept_rules
  add_checked-Kept id (item ∷ items) = >>=-Keeps _ _ _ (search kept_rules) λ _.
      >>=-Keeps _ _ _ (add_line_item-Kept id item)
        λ _. >>=-Keeps _ _ _ (add_checked-Kept id items) λ _. search kept_rules

  add_items-Kept :
      (id : Uuid) (items : List CreateLineItemRequest) → Keeps P (add_line_items id items)
  unfolding add_line_items
  add_items-Kept id [] = search kept_rules
  add_items-Kept id (item ∷ items) =
      >>=-Keeps _ _ _ (add_line_item-Kept id item)
        λ _. >>=-Keeps _ _ _ (add_items-Kept id items) λ _. search kept_rules

  insert_draft-Kept :
      (business_id : Uuid) (req : CreateInvoiceRequest) (total : ℤ)
      → Keeps P (insert_draft business_id req total)
  unfolding insert_draft
  insert_draft-Kept business_id req total = search (kept_rules, add_checked-Kept) depth 9

  pub create_invoice-Kept :
      (business_id : Uuid) (req : CreateInvoiceRequest) → Keeps P (create_invoice business_id req)
  unfolding create_invoice
  create_invoice-Kept business_id req =
      search (kept_rules, transaction-Keeps, insert_draft-Kept) depth 9

  set_due_date-Kept : (id : Uuid) (due_date : Option NaiveDate) → Keeps P (set_due_date id due_date)
  unfolding set_due_date
  set_due_date-Kept id none = search kept_rules
  set_due_date-Kept id (some date) = search kept_rules

  replace-Kept :
      (seen : LineItem → Bool) (id : Uuid) (items : List CreateLineItemRequest)
      → Keeps P (replace_line_items seen id items)
  unfolding replace_line_items
  replace-Kept seen id items = search (kept_rules, add_items-Kept) depth 9

  set_line_items-Kept :
      (seen : LineItem → Bool) (id : Uuid) (items : Option (List CreateLineItemRequest))
      → Keeps P (set_line_items seen id items)
  unfolding set_line_items
  set_line_items-Kept seen id none = search kept_rules
  set_line_items-Kept seen id (some items) = replace-Kept seen id items

  pub edit_rows-Kept :
      (seen : LineItem → Bool) (id : Uuid) (req : EditInvoiceRequest)
      → Keeps P (edit_rows seen id req)
  unfolding edit_rows
  edit_rows-Kept seen id req = search (kept_rules, set_due_date-Kept, set_line_items-Kept) depth 9

  pub edit_locked-Kept :
      (id business_id : Uuid) (req : EditInvoiceRequest) → Keeps P (edit_locked id business_id req)
  unfolding edit_locked
  edit_locked-Kept id business_id req = search (kept_rules, edit_rows-Kept) depth 9

  pub lock_draft-Kept : (id : Uuid) (versioning : ℤ) → Keeps P (lock_draft id versioning)
  unfolding lock_draft
  lock_draft-Kept id versioning = search kept_rules

  pub edit_invoice-Kept :
      (id business_id : Uuid) (req : EditInvoiceRequest) → Keeps P (edit_invoice id business_id req)
  unfolding edit_invoice
  edit_invoice-Kept id business_id req =
      search (kept_rules, transaction-Keeps, lock_draft-Kept, edit_locked-Kept) depth 9

module _ (P : Db → Type 0) (bumps : Bumps P) where
  exec_bump-Stable :
      (p : Invoice → Bool) (f : Invoice → Invoice)
      → ((r : Invoice) → (f r).id ≡ r.id)
      → Keeps P (exec (bump_invoices p f))
  exec_bump-Stable = bumps

  ruleset stable_rules = (keeps_rules, exec_bump-Stable)

  set_state-Stable :
      (target : InvoiceState) (id business_id : Uuid) (versioning : ℤ)
      → Keeps P (set_state target id business_id versioning)
  unfolding set_state
  set_state-Stable target id business_id versioning = search stable_rules

  finalize_draft-Stable :
      (id business_id : Uuid) (req : FinalizeInvoiceRequest)
      → Keeps P (finalize_draft id business_id req)
  unfolding finalize_draft
  finalize_draft-Stable id business_id req = search (stable_rules, set_state-Stable)

  pub finalize_invoice-Stable :
      (id business_id : Uuid) (req : FinalizeInvoiceRequest)
      → Keeps P (finalize_invoice id business_id req)
  unfolding finalize_invoice
  finalize_invoice-Stable id business_id req =
      search (stable_rules, transaction-Keeps, finalize_draft-Stable)

  void_at_version-Stable :
      (id business_id : Uuid) (req : VoidInvoiceRequest)
      → Keeps P (void_at_version id business_id req)
  unfolding void_at_version
  void_at_version-Stable id business_id req = search (stable_rules, set_state-Stable)

  pub void_invoice-Stable :
      (id business_id : Uuid) (req : VoidInvoiceRequest) → Keeps P (void_invoice id business_id req)
  unfolding void_invoice
  void_invoice-Stable id business_id req = search (transaction-Keeps, void_at_version-Stable)
