-- ===== src/Services/Invoices/Transitions.antt =====
-- `finalize_invoice` and `void_invoice` of src/services/invoices.rs.
use payman.Prelude.{not, ◌&&◌, String, ◌==◌, select, str_append}
use payman.Prelude.Int.{ℤ, eqb_ℤ}
use payman.Models.{
  Uuid, InvoiceState, opened, void, can_transition_to, debug_state, Invoice, FinalizeInvoiceRequest,
  VoidInvoiceRequest,
}
use payman.Errors.{conflict, invalid_state_transition, not_found}
use payman.Store.{
  Action, ◌>>=◌, ◌>>◌, pure, or_raise, raise_if, utc_now, exec, query, spawn, transaction,
  fetch_one, fetch_optional,
}
use payman.Services.Invoices.Statements.{bump_invoices, invoices_by_id}

unfoldable pub transition_message : InvoiceState → InvoiceState → String
transition_message from to =
    str_append "cannot transition invoice from "
      (str_append (debug_state from) (str_append " to " (debug_state to)))

-- The guarded `UPDATE` of both services: it finds no row if the version has moved on.
unfoldable pub set_state : InvoiceState → Uuid → Uuid → ℤ → Action Invoice
set_state target invoice_id business_id versioning = do
  now ← utc_now
  updated ← fetch_optional (
      exec (
        bump_invoices
          (λ r. r.id == invoice_id && r.business_id == business_id && eqb_ℤ r.versioning versioning)
          (λ r. record r { state = target; updated_at = now })))
  or_raise updated (conflict "stale invoice version")

unfoldable pub finalize_draft : Uuid → Uuid → FinalizeInvoiceRequest → Action Invoice
finalize_draft invoice_id business_id req = do
  invoice ← fetch_one (query (invoices_by_id invoice_id business_id))
  let target_state = opened
  raise_if (not (can_transition_to invoice.state target_state))
      (invalid_state_transition (transition_message invoice.state target_state))
  set_state target_state invoice_id business_id req.versioning

unfoldable pub finalize_invoice : Uuid → Uuid → FinalizeInvoiceRequest → Action Invoice
finalize_invoice invoice_id business_id req = do
  updated ← transaction (finalize_draft invoice_id business_id req)
  spawn (record {
    business_id = business_id;
    invoice_id = invoice_id;
    event_type = "invoice.finalized";
  })
  pure updated

-- The target of the test is `Open`, as in the source, and the state that is written is `Void`.
unfoldable pub void_at_version : Uuid → Uuid → VoidInvoiceRequest → Action Invoice
void_at_version invoice_id business_id req = do
  found ← fetch_optional (
      query (λ d.
        select
          (λ r.
            r.id == invoice_id && r.business_id == business_id && eqb_ℤ r.versioning req.versioning)
          d.invoices))
  invoice ← or_raise found not_found
  let target_state = opened
  raise_if (not (can_transition_to invoice.state target_state))
      (invalid_state_transition (transition_message invoice.state target_state))
  set_state void invoice_id business_id req.versioning

unfoldable pub void_invoice : Uuid → Uuid → VoidInvoiceRequest → Action Invoice
void_invoice invoice_id business_id req = transaction (void_at_version invoice_id business_id req)
