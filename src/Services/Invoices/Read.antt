-- ===== src/Services/Invoices/Read.antt =====
-- `get_invoice` and `list_invoices` of src/services/invoices.rs.
use payman.Prelude.{◌&&◌, Option, none, some, List, ◌==◌, select, order_by_desc}
use payman.Models.{Uuid, InvoiceState, eq_state, Invoice, InvoiceResult}
use payman.Errors.{not_found}
use payman.Store.{Action, ◌>>=◌, pure, or_raise, query, fetch_optional}
use payman.Services.Invoices.Statements.{invoices_by_id, line_items_of}

unfoldable pub get_invoice : Uuid → Uuid → Action InvoiceResult
get_invoice invoice_id business_id = do
  found ← fetch_optional (query (invoices_by_id invoice_id business_id))
  invoice ← or_raise found not_found
  line_items ← query (λ d. line_items_of invoice_id d.line_items)
  pure (record { invoice = invoice; line_items = line_items })

pub record ListInvoicesQuery : Type 0 where
  pub state : Option InvoiceState

unfoldable pub list_by_state : Uuid → Option InvoiceState → Action (List Invoice)
list_by_state business_id (some state) = query (λ d.
    order_by_desc (λ r. r.created_at)
      (select (λ r. r.business_id == business_id && eq_state r.state state) d.invoices))
list_by_state business_id none =
    query (λ d.
      order_by_desc (λ r. r.created_at) (select (λ r. r.business_id == business_id) d.invoices))

unfoldable pub list_invoices : Uuid → ListInvoicesQuery → Action (List Invoice)
unfolding list_by_state
list_invoices business_id req = list_by_state business_id req.state
