-- ===== src/Services/Invoices/Keeps.antt =====
-- Every service on invoices keeps the invariant of the invoice tables.
use payman.Prelude.{
  subst, ◌==◌, All, refl, ◌≡◌, List, [], ◌∷◌, ◌++◌, map, append_assoc, append-nil, Option, none,
  some, true, Bool,
}
use payman.Prelude.Int.{ℤ}
use payman.Models.{
  InvoiceState, Uuid, CreateLineItemRequest, CreateInvoiceRequest, EditInvoiceRequest, Invoice,
  FinalizeInvoiceRequest, VoidInvoiceRequest, NaiveDate, LineItem,
}
use payman.Store.{
  >>=-IsReading, db_of, Db, Keeps, keeps_rules, IsReading, reading_rules, transaction,
  transaction-Keeps, transaction-Keeps_ok, Ensures, Ensures-pure, Ensures-exec, Ensures-bind,
  Ensures-skip, Ensures-reading, Ensures-fetch_one, Keeps-Ensures, utc_now, new_v4,
  utc_now-IsReading, new_v4-IsReading, query-IsReading, raise_if-IsReading, or_raise-IsReading,
}
use payman.Services.Invoices.Totals.{total_cents, trimmed, total_cents-trimmed}
use payman.Services.Invoices.Consistent.{
  IsConsistent, IsBuilding, IsBuilding-done, insert_invoice-IsBuilding, insert_line_item-IsBuilding,
  delete_line_items-IsBuilding, SeesAll,
}
use payman.Services.Invoices.Updates.{set_total-IsConsistent, exec_bump-Keeps, exec_update-Keeps}
use payman.Services.Invoices.Create.{
  add_line_item, check_line_item, add_checked_line_items, insert_draft, create_invoice,
}
use payman.Services.Invoices.Edit.{
  check_line_items, validate_line_items, lock_draft, set_due_date, add_line_items,
  replace_line_items, set_line_items, edit_rows, all_rows, edit_locked, edit_invoice,
}
use payman.Services.Invoices.Transitions.{
  set_state, finalize_draft, finalize_invoice, void_at_version, void_invoice,
}

-- The tables while the items of `id` are written, under a condition on the table invoices.
abbrev InProgress : Uuid → (List Invoice → Type 0) → List CreateLineItemRequest → Db → Type 0
InProgress id C done d = IsBuilding id done d × C d.invoices

abbrev AtTotal : Uuid → ℤ → List Invoice → Type 0
AtTotal id t = All (λ r. (r.id == id) ≡ true → r.total_cents ≡ t)

pub check_line_item-IsReading : (item : CreateLineItemRequest) → IsReading (check_line_item item)
unfolding check_line_item
check_line_item-IsReading item = search reading_rules

module _ (id : Uuid) (C : List Invoice → Type 0) where
  add_line_item-Ensures :
      (done : List CreateLineItemRequest) (item : CreateLineItemRequest)
      → Ensures
          (InProgress id C done)
          (add_line_item id item)
          (λ _. InProgress id C (done ++ trimmed item ∷ []))
  unfolding add_line_item
  add_line_item-Ensures done item = Ensures-skip _ _ new_v4 _ new_v4-IsReading λ row_id.
      Ensures-skip _ _ utc_now _ utc_now-IsReading λ now. Ensures-fetch_one _ _ _ (
        Ensures-exec _ _ _ λ d rows d' (h, c) e a _.
          let (built, same) = insert_line_item-IsBuilding _ id done d refl h e in
          (built, rw same c))

  -- The loop of `create_invoice`.
  add_checked-Ensures :
      (done items : List CreateLineItemRequest)
      → Ensures
          (InProgress id C done)
          (add_checked_line_items id items)
          (λ _. InProgress id C (done ++ map trimmed items))
  unfolding add_checked_line_items
  add_checked-Ensures done [] = Ensures-pure _ _ [] (λ d h. rw (append-nil done) h)
  add_checked-Ensures done (item ∷ items) =
      Ensures-skip _ _ (check_line_item item) _ (check_line_item-IsReading item) λ _.
        Ensures-bind _ _ _ (add_line_item id item) _ (add_line_item-Ensures done item) λ line_item.
          Ensures-bind _ _ _ (add_checked_line_items id items) _
            (add_checked-Ensures (done ++ trimmed item ∷ []) items)
            λ line_items.
              Ensures-pure _ _ _
                (λ d h. rw (append_assoc done (trimmed item ∷ []) (map trimmed items)) at h)

  -- The loop of `edit_invoice`.
  add_items-Ensures :
      (done items : List CreateLineItemRequest)
      → Ensures
          (InProgress id C done)
          (add_line_items id items)
          (λ _. InProgress id C (done ++ map trimmed items))
  unfolding add_line_items
  add_items-Ensures done [] = Ensures-pure _ _ [] (λ d h. rw (append-nil done) h)
  add_items-Ensures done (item ∷ items) =
      Ensures-bind _ _ _ (add_line_item id item) _ (add_line_item-Ensures done item) λ line_item.
        Ensures-bind _ _ _ (add_line_items id items) _
          (add_items-Ensures (done ++ trimmed item ∷ []) items)
          λ line_items.
            Ensures-pure _ _ _
              (λ d h. rw (append_assoc done (trimmed item ∷ []) (map trimmed items)) at h)

insert_draft-Ensures :
    (business_id : Uuid) (req : CreateInvoiceRequest)
    → Ensures IsConsistent
        (insert_draft business_id req (total_cents req.line_items))
        (λ _. IsConsistent)
unfolding insert_draft
insert_draft-Ensures business_id req =
    let t = total_cents req.line_items in
    Ensures-skip _ _ new_v4 _ new_v4-IsReading λ id.
      Ensures-skip _ _ utc_now _ utc_now-IsReading λ now.
        Ensures-bind _ _ (λ _. InProgress id (AtTotal id t) []) _ _
          (Ensures-fetch_one _ _ _
            (Ensures-exec _ _ _ λ d rows d' h e a _. insert_invoice-IsBuilding _ d h e))
          λ invoice.
            Ensures-bind _ _ _ _ _ (add_checked-Ensures id (AtTotal id t) [] req.line_items)
              λ line_items.
                Ensures-pure _ _ _
                  (λ d (h, c). IsBuilding-done id _ d h (rw (total_cents-trimmed req.line_items) c))

draft_transaction-Keeps :
    (business_id : Uuid) (req : CreateInvoiceRequest)
    → Keeps IsConsistent (transaction (insert_draft business_id req (total_cents req.line_items)))
draft_transaction-Keeps business_id req =
    transaction-Keeps_ok IsConsistent _ (insert_draft-Ensures business_id req)

pub create_invoice-Keeps :
    (business_id : Uuid) (req : CreateInvoiceRequest)
    → Keeps IsConsistent (create_invoice business_id req)
unfolding create_invoice
create_invoice-Keeps business_id req = search (keeps_rules, draft_transaction-Keeps) depth 9

set_due_date-Keeps :
    (id : Uuid) (due_date : Option NaiveDate) → Keeps IsConsistent (set_due_date id due_date)
unfolding set_due_date
set_due_date-Keeps id none = search keeps_rules
set_due_date-Keeps id (some date) = search (keeps_rules, exec_update-Keeps)

replace-Ensures :
    (seen : LineItem → Bool) (id : Uuid) (items : List CreateLineItemRequest)
    → SeesAll seen
    → Ensures IsConsistent (replace_line_items seen id items) (λ _. IsConsistent)
unfolding replace_line_items
replace-Ensures seen id items all = Ensures-skip _ _ _ _ (raise_if-IsReading _ _) λ _.
    Ensures-bind _ _ (λ _. InProgress id (λ _. Unit) []) _ _
      (Ensures-exec _ _ _ λ d rows d' h e.
        (subst (IsBuilding id []) (db_of _ e) (delete_line_items-IsBuilding seen id d all h), tt))
      λ deleted. Ensures-bind _ _ _ _ _ (add_items-Ensures id (λ _. Unit) [] items) λ new_items.
        Ensures-skip _ _ utc_now _ utc_now-IsReading λ now.
          Ensures-bind _ _ (λ _. IsConsistent) _ _
            (Ensures-exec _ _ _ λ d rows d' (h, _) e. subst IsConsistent (db_of _ e) (
              rw (total_cents-trimmed items) at
                (set_total-IsConsistent id (map trimmed items) now d h)))
            λ updated. Ensures-pure _ _ _ (λ d h. h)

set_line_items-Ensures :
    (seen : LineItem → Bool) (id : Uuid) (items : Option (List CreateLineItemRequest))
    → SeesAll seen
    → Ensures IsConsistent (set_line_items seen id items) (λ _. IsConsistent)
unfolding set_line_items
set_line_items-Ensures seen id none all = Ensures-reading _ _ _ (query-IsReading _) (λ _ d h. h)
set_line_items-Ensures seen id (some items) all = replace-Ensures seen id items all

edit_rows-Ensures :
    (seen : LineItem → Bool) (id : Uuid) (req : EditInvoiceRequest)
    → SeesAll seen
    → Ensures IsConsistent (edit_rows seen id req) (λ _. IsConsistent)
unfolding edit_rows
edit_rows-Ensures seen id req all =
    Ensures-bind _ _ _ _ _ (Keeps-Ensures _ _ (set_due_date-Keeps id req.due_date)) λ _.
      Ensures-bind _ _ _ _ _ (set_line_items-Ensures seen id req.line_items all)
        λ line_items. Ensures-reading _ _ _ (search reading_rules) (λ _ d h. h)

pub rewrite-Keeps :
    (seen : LineItem → Bool) (id : Uuid) (req : EditInvoiceRequest)
    → SeesAll seen
    → Keeps IsConsistent (transaction (edit_rows seen id req))
rewrite-Keeps seen id req all =
    transaction-Keeps_ok IsConsistent _ (edit_rows-Ensures seen id req all)

edit_locked-Ensures :
    (id business_id : Uuid) (req : EditInvoiceRequest)
    → Ensures IsConsistent (edit_locked id business_id req) (λ _. IsConsistent)
unfolding edit_locked
edit_locked-Ensures id business_id req = Ensures-skip _ _ _ _ (search reading_rules) λ found.
    Ensures-skip _ _ _ _ (or_raise-IsReading found _) λ invoice.
      Ensures-skip _ _ _ _ (raise_if-IsReading _ _)
        λ _. edit_rows-Ensures all_rows id req (λ _. refl)

check_line_items-IsReading :
    (items : List CreateLineItemRequest) → IsReading (check_line_items items)
unfolding check_line_items
check_line_items-IsReading [] = search reading_rules
check_line_items-IsReading (item ∷ items) =
    >>=-IsReading _ _ (check_line_item-IsReading item) (λ _. check_line_items-IsReading items)

pub validate_line_items-IsReading :
    (items : Option (List CreateLineItemRequest)) → IsReading (validate_line_items items)
unfolding validate_line_items
validate_line_items-IsReading none = search reading_rules
validate_line_items-IsReading (some items) = search (reading_rules, check_line_items-IsReading)

pub lock_draft-Keeps : (id : Uuid) (versioning : ℤ) → Keeps IsConsistent (lock_draft id versioning)
unfolding lock_draft
lock_draft-Keeps id versioning = search (keeps_rules, exec_bump-Keeps)

pub edit_transaction-Keeps :
    (id business_id : Uuid) (req : EditInvoiceRequest)
    → Keeps IsConsistent (transaction (edit_locked id business_id req))
edit_transaction-Keeps id business_id req =
    transaction-Keeps_ok IsConsistent _ (edit_locked-Ensures id business_id req)

pub edit_invoice-Keeps :
    (id business_id : Uuid) (req : EditInvoiceRequest)
    → Keeps IsConsistent (edit_invoice id business_id req)
unfolding edit_invoice
edit_invoice-Keeps id business_id req =
    search (keeps_rules, validate_line_items-IsReading, lock_draft-Keeps, edit_transaction-Keeps)

set_state-Keeps :
    (target : InvoiceState) (id business_id : Uuid) (versioning : ℤ)
    → Keeps IsConsistent (set_state target id business_id versioning)
unfolding set_state
set_state-Keeps target id business_id versioning = search (keeps_rules, exec_bump-Keeps)

finalize_draft-Keeps :
    (id business_id : Uuid) (req : FinalizeInvoiceRequest)
    → Keeps IsConsistent (finalize_draft id business_id req)
unfolding finalize_draft
finalize_draft-Keeps id business_id req = search (keeps_rules, set_state-Keeps)

pub finalize_invoice-Keeps :
    (id business_id : Uuid) (req : FinalizeInvoiceRequest)
    → Keeps IsConsistent (finalize_invoice id business_id req)
unfolding finalize_invoice
finalize_invoice-Keeps id business_id req =
    search (keeps_rules, transaction-Keeps IsConsistent _ (finalize_draft-Keeps id business_id req))

void_at_version-Keeps :
    (id business_id : Uuid) (req : VoidInvoiceRequest)
    → Keeps IsConsistent (void_at_version id business_id req)
unfolding void_at_version
void_at_version-Keeps id business_id req = search (keeps_rules, set_state-Keeps)

pub void_invoice-Keeps :
    (id business_id : Uuid) (req : VoidInvoiceRequest)
    → Keeps IsConsistent (void_invoice id business_id req)
unfolding void_invoice
void_invoice-Keeps id business_id req =
    transaction-Keeps IsConsistent _ (void_at_version-Keeps id business_id req)
