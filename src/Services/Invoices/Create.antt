-- ===== src/Services/Invoices/Create.antt =====
-- `create_invoice` of src/services/invoices.rs.
use payman.Prelude.{List, [], ◌∷◌, trim}
use payman.Prelude.Int.{ℤ, pos, leb_ℤ, ltb_ℤ}
use payman.Models.{
  Uuid, draft, LineItem, CreateLineItemRequest, CreateInvoiceRequest, InvoiceResult,
}
use payman.Errors.{bad_request, not_found}
use payman.Store.{
  Action, ◌>>=◌, ◌>>◌, pure, or_raise, raise_if, utc_now, date_naive, new_v4, exec, query,
  transaction, fetch_one, fetch_optional,
}
use payman.Services.Invoices.Totals.{total_cents}
use payman.Services.Invoices.Statements.{insert_invoice, insert_line_item, customers_by_id}

-- The `INSERT` of one line item, in either service.
unfoldable pub add_line_item : Uuid → CreateLineItemRequest → Action LineItem
add_line_item invoice_id item = do
  id ← new_v4
  now ← utc_now
  fetch_one (
      exec (
        insert_line_item (record {
          id = id;
          invoice_id = invoice_id;
          description = trim item.description;
          quantity = item.quantity;
          unit_amount_cents = item.unit_amount_cents;
          created_at = now;
        })))

unfoldable pub check_line_item : CreateLineItemRequest → Action (Unit {0})
check_line_item item = do
  raise_if (leb_ℤ item.quantity (pos 0)) (bad_request "quantity must be greater than zero")
  raise_if (leb_ℤ item.unit_amount_cents (pos 0))
      (bad_request "unit_amount_cents must be greater than zero")

-- The loop of `create_invoice` over the line items.
unfoldable pub add_checked_line_items : Uuid → List CreateLineItemRequest → Action (List LineItem)
add_checked_line_items invoice_id [] = pure []
add_checked_line_items invoice_id (item ∷ items) = do
  check_line_item item
  line_item ← add_line_item invoice_id item
  line_items ← add_checked_line_items invoice_id items
  pure (line_item ∷ line_items)

-- What `create_invoice` does in its transaction.
unfoldable pub insert_draft : Uuid → CreateInvoiceRequest → ℤ → Action InvoiceResult
insert_draft business_id req total = do
  invoice_id ← new_v4
  now ← utc_now
  invoice ← fetch_one (
      exec (
        insert_invoice (record {
          id = invoice_id;
          business_id = business_id;
          customer_id = req.customer_id;
          state = draft;
          total_cents = total;
          due_date = req.due_date;
          created_at = now;
          updated_at = now;
          versioning = pos 1;
        })))
  line_items ← add_checked_line_items invoice_id req.line_items
  pure (record { invoice = invoice; line_items = line_items })

unfoldable pub create_invoice : Uuid → CreateInvoiceRequest → Action InvoiceResult
create_invoice business_id req = do
  customer ← fetch_optional (query (customers_by_id req.customer_id business_id))
  or_raise customer not_found
  let total = total_cents req.line_items
  raise_if (leb_ℤ total (pos 0)) (bad_request "invoice total must be greater than zero")
  now ← utc_now
  raise_if (ltb_ℤ req.due_date (date_naive now)) (bad_request "due_date cannot be in the past")
  transaction (insert_draft business_id req total)
