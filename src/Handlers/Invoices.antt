-- ===== src/Handlers/Invoices.antt =====
-- src/handlers/invoices.rs. `auth` is the business that the request was authenticated as.
use payman.Prelude.{List, length, ◌==◌}
use payman.Models.{
  Uuid, Business, Invoice, InvoiceResult, InvoiceResponse, CreateInvoiceRequest, EditInvoiceRequest,
  FinalizeInvoiceRequest, VoidInvoiceRequest,
}
use payman.Errors.{bad_request}
use payman.Store.{Action, ◌>>=◌, ◌>>◌, pure, raise_if}
use payman.Services.Invoices.Create.{create_invoice as create_invoice_service}
use payman.Services.Invoices.Edit.{edit_invoice as edit_invoice_service}
use payman.Services.Invoices.Read.{
  ListInvoicesQuery, get_invoice as get_invoice_service, list_invoices as list_invoices_service,
}
use payman.Services.Invoices.Transitions.{
  finalize_invoice as finalize_invoice_service, void_invoice as void_invoice_service,
}

-- The `InvoiceResponse` of an `InvoiceResult`.
abbrev pub response_of : InvoiceResult → InvoiceResponse
response_of result = record { invoice = result.invoice; line_items = result.line_items }

unfoldable pub create_invoice : Business → CreateInvoiceRequest → Action InvoiceResponse
create_invoice auth req = do
  raise_if (length req.line_items == 0) (bad_request "invoice must have at least one line item")
  invoice_result ← create_invoice_service auth.id req
  pure (response_of invoice_result)

unfoldable pub edit_invoice : Business → Uuid → EditInvoiceRequest → Action InvoiceResponse
edit_invoice auth id req = do
  updated ← edit_invoice_service id auth.id req
  pure (response_of updated)

unfoldable pub get_invoice : Business → Uuid → Action InvoiceResponse
get_invoice auth id = do
  invoice_result ← get_invoice_service id auth.id
  pure (response_of invoice_result)

unfoldable pub list_invoices : Business → ListInvoicesQuery → Action (List Invoice)
list_invoices auth req = list_invoices_service auth.id req

unfoldable pub finalize_invoice : Business → Uuid → FinalizeInvoiceRequest → Action Invoice
finalize_invoice auth id req = finalize_invoice_service id auth.id req

unfoldable pub void_invoice : Business → Uuid → VoidInvoiceRequest → Action Invoice
void_invoice auth id req = void_invoice_service id auth.id req
