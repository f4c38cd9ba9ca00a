-- ===== src/Services/Payments/Settle.antt =====
-- `pay_invoice` of src/services/payments.rs after the reply of the payment provider.
use payman.Prelude.{String, Bool, true, false, some, ◌==◌}
use payman.Prelude.Int.{ℤ, pos}
use payman.Models.{
  Uuid, DateTime, InvoiceState, opened, paid, PaymentStatus, PaymentAttempt, AttemptRow, PspResult,
}
use payman.Errors.{serde_json, conflict, internal}
use payman.Libraries.{Libraries}
use payman.Store.{
  Action, ◌>>=◌, ◌>>◌, pure, raise, or_raise, utc_now, exec, spawn, control, transaction, fetch_one,
  rows_affected,
}
use payman.Services.Invoices.Statements.{bump_invoices}
use payman.Services.Payments.Statements.{update_attempts, update_keys}

abbrev pub on_attempt : (PaymentAttempt → PaymentAttempt) → AttemptRow → AttemptRow
on_attempt f r = record r { attempt = f r.attempt }

-- `SET status = 'succeeded', psp_reference = $2, updated_at = NOW()`
abbrev pub mark_succeeded : String → DateTime → PaymentAttempt → PaymentAttempt
mark_succeeded psp_ref now a = record a {
  status = PaymentStatus.succeeded;
  psp_reference = some psp_ref;
  updated_at = now;
}

-- `SET status = 'failed', failure_code = $2, updated_at = NOW()`
abbrev pub mark_failed : String → DateTime → PaymentAttempt → PaymentAttempt
mark_failed code now a = record a {
  status = PaymentStatus.failed;
  failure_code = some code;
  updated_at = now;
}

-- `if updated_result.rows_affected() == 0 { tx2.rollback().await?; return Err(…) }`
unfoldable pub require_rows : Bool → Action (Unit {0})
require_rows true = do control; raise (conflict "invoice state changed unexpectedly")
require_rows false = pure tt

module _ (lib : Libraries) where
  unfoldable pub store_response : String → Uuid → Uuid → ℤ → PaymentAttempt → Action (Unit {0})
  store_response key business_id invoice_id status attempt = do
    response_body ← or_raise (lib.to_value attempt) (internal serde_json)
    now ← utc_now
    exec (
        update_keys key business_id invoice_id (λ r. record r {
          response_body = response_body;
          response_status = some status;
          updated_at = now;
        }))
    pure tt

  -- The transaction that records an outcome: the attempt, the invoice, and the stored response.
  unfoldable pub record_outcome :
      (DateTime → PaymentAttempt → PaymentAttempt)
      → InvoiceState
      → Uuid
      → Uuid
      → Uuid
      → String
      → Action PaymentAttempt
  record_outcome mark target attempt_id invoice_id business_id key = do
    now ← utc_now
    row ← fetch_one (exec (update_attempts attempt_id (on_attempt (mark now))))
    affected ← rows_affected (
        exec (
          bump_invoices (λ r. r.id == invoice_id)
            (λ r. record r { state = target; updated_at = now })))
    require_rows (affected == 0)
    store_response key business_id invoice_id (pos 200) row.attempt
    pure row.attempt

  -- The `match` on the result of the call.
  unfoldable pub settle_payment :
      PspResult → PaymentAttempt → Uuid → Uuid → String → Action PaymentAttempt
  settle_payment (PspResult.succeeded psp_ref) attempt invoice_id business_id key = do
    updated ←
        transaction
          (record_outcome (mark_succeeded psp_ref) paid attempt.id invoice_id business_id key)
    spawn
        (record { business_id = business_id; invoice_id = invoice_id; event_type = "invoice.paid" })
    pure updated
  settle_payment (PspResult.failed code) attempt invoice_id business_id key = do
    updated ←
        transaction (record_outcome (mark_failed code) opened attempt.id invoice_id business_id key)
    spawn (record {
      business_id = business_id;
      invoice_id = invoice_id;
      event_type = "invoice.payment_failed";
    })
    pure updated
  settle_payment PspResult.timed_out attempt invoice_id business_id key = do
    store_response key business_id invoice_id (pos 202) attempt
    pure attempt
  settle_payment PspResult.network_error attempt invoice_id business_id key = do
    store_response key business_id invoice_id (pos 202) attempt
    pure attempt
