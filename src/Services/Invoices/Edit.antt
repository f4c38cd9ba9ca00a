-- ===== src/Services/Invoices/Edit.antt =====
-- `edit_invoice` of src/services/invoices.rs.
use payman.Prelude.{
  not, true, Bool, ◌&&◌, Option, none, some, List, [], ◌∷◌, ◌==◌, is_empty, str_append, select, ℕ,
}
use payman.Prelude.Int.{ℤ, pos, leb_ℤ, ltb_ℤ, eqb_ℤ}
use payman.Models.{
  Uuid, NaiveDate, draft, eq_state, debug_state, LineItem, CreateLineItemRequest,
  EditInvoiceRequest, InvoiceResult,
}
use payman.Errors.{bad_request, conflict, invalid_state_transition, not_found}
use payman.Store.{
  Action, ◌>>=◌, ◌>>◌, pure, or_raise, raise_if, utc_now, date_naive, exec, query, transaction,
  fetch_one, fetch_optional, rows_affected,
}
use payman.Services.Invoices.Totals.{total_cents}
use payman.Services.Invoices.Statements.{
  update_invoices, bump_invoices, delete_line_items, invoices_by_id, line_items_of,
}
use payman.Services.Invoices.Create.{add_line_item, check_line_item}

-- The loop that validates the line items.
unfoldable pub check_line_items : List CreateLineItemRequest → Action (Unit {0})
check_line_items [] = pure tt
check_line_items (item ∷ items) = do check_line_item item; check_line_items items

unfoldable pub validate_line_items : Option (List CreateLineItemRequest) → Action (Unit {0})
validate_line_items none = pure tt
validate_line_items (some items) = do
  raise_if (is_empty items) (bad_request "invoice must have at least one line item")
  check_line_items items

-- The optimistic lock: a statement of its own, outside of the transaction that follows.
unfoldable pub lock_draft : Uuid → ℤ → Action ℕ
lock_draft invoice_id versioning = do
  now ← utc_now
  rows_affected (
      exec (
        bump_invoices
          (λ r. r.id == invoice_id && eqb_ℤ r.versioning versioning && eq_state r.state draft)
          (λ r. record r { updated_at = now })))

unfoldable pub set_due_date : Uuid → Option NaiveDate → Action (Unit {0})
set_due_date invoice_id none = pure tt
set_due_date invoice_id (some due_date) = do
  now ← utc_now
  raise_if (ltb_ℤ due_date (date_naive now)) (bad_request "due_date cannot be in the past")
  exec (
      update_invoices (λ r. r.id == invoice_id)
        (λ r. record r { due_date = due_date; updated_at = now }))
  pure tt

-- The loop that inserts the new line items.
unfoldable pub add_line_items : Uuid → List CreateLineItemRequest → Action (List LineItem)
add_line_items invoice_id [] = pure []
add_line_items invoice_id (item ∷ items) = do
  line_item ← add_line_item invoice_id item
  line_items ← add_line_items invoice_id items
  pure (line_item ∷ line_items)

unfoldable pub replace_line_items :
    (LineItem → Bool) → Uuid → List CreateLineItemRequest → Action (List LineItem)
replace_line_items seen invoice_id items = do
  let total = total_cents items
  raise_if (leb_ℤ total (pos 0)) (bad_request "invoice total must be greater than zero")
  exec (delete_line_items seen invoice_id)
  new_items ← add_line_items invoice_id items
  now ← utc_now
  exec (
      update_invoices (λ r. r.id == invoice_id)
        (λ r. record r { total_cents = total; updated_at = now }))
  pure new_items

unfoldable pub set_line_items :
    (LineItem → Bool) → Uuid → Option (List CreateLineItemRequest) → Action (List LineItem)
set_line_items seen invoice_id (some items) = replace_line_items seen invoice_id items
set_line_items seen invoice_id none = query (λ d. line_items_of invoice_id d.line_items)

-- The transaction of `edit_invoice` after its first `SELECT`. Other transactions may have committed since
-- then, and while it waited for one, its `DELETE` sees the rows of `seen`.
unfoldable pub edit_rows : (LineItem → Bool) → Uuid → EditInvoiceRequest → Action InvoiceResult
edit_rows seen invoice_id req = do
  set_due_date invoice_id req.due_date
  line_items ← set_line_items seen invoice_id req.line_items
  updated ← fetch_one (query (λ d. select (λ r. r.id == invoice_id) d.invoices))
  pure (record { invoice = updated; line_items = line_items })

abbrev pub all_rows : LineItem → Bool
all_rows li = true

-- What `edit_invoice` does in its transaction, where no other transaction overlaps it.
unfoldable pub edit_locked : Uuid → Uuid → EditInvoiceRequest → Action InvoiceResult
edit_locked invoice_id business_id req = do
  found ← fetch_optional (query (invoices_by_id invoice_id business_id))
  invoice ← or_raise found not_found
  raise_if (not (eq_state invoice.state draft)) (
      invalid_state_transition (
        str_append "cannot edit invoice in '"
          (str_append (debug_state invoice.state) "' state, must be 'draft'")))
  edit_rows all_rows invoice_id req

unfoldable pub edit_invoice : Uuid → Uuid → EditInvoiceRequest → Action InvoiceResult
edit_invoice invoice_id business_id req = do
  validate_line_items req.line_items
  affected ← lock_draft invoice_id req.versioning
  raise_if (affected == 0) (conflict "invoice is being processed, try later!")
  transaction (edit_locked invoice_id business_id req)
