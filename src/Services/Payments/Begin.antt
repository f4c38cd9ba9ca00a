-- ===== src/Services/Payments/Begin.antt =====
-- `pay_invoice` of src/services/payments.rs up to the first commit: the invoice is claimed, and the
-- attempt and its idempotency key are written, in one transaction.
use payman.Prelude.{String, ◌&&◌, none, some, ◌==◌, str_append}
use payman.Prelude.Int.{ℤ, pos, eqb_ℤ}
use payman.Models.{
  Uuid, Json, opened, processing, eq_state, PaymentStatus, PaymentAttempt, PayInvoiceRequest,
}
use payman.Errors.{serde_json, conflict, internal}
use payman.Libraries.{Libraries}
use payman.Store.{
  Action, ◌>>=◌, ◌>>◌, pure, or_raise, raise_if, utc_now, new_v4, exec, fetch_one, rows_affected,
}
use payman.Services.Invoices.Statements.{bump_invoices}
use payman.Services.Payments.Statements.{insert_attempt, insert_key}

-- The optimistic lock of a payment. The business is not part of its condition.
unfoldable pub claim_invoice : Uuid → ℤ → Action (Unit {0})
claim_invoice invoice_id versioning = do
  now ← utc_now
  affected ← rows_affected (
      exec (
        bump_invoices
          (λ r. r.id == invoice_id && eq_state r.state opened && eqb_ℤ r.versioning versioning)
          (λ r. record r { state = processing; updated_at = now })))
  raise_if (affected == 0) (conflict "another transaction in progress, try later!")

unfoldable pub new_attempt : Uuid → String → Action PaymentAttempt
new_attempt invoice_id card_token = do
  attempt_id ← new_v4
  now ← utc_now
  row ← fetch_one (
      exec (
        insert_attempt (record {
          attempt = record {
            id = attempt_id;
            invoice_id = invoice_id;
            status = PaymentStatus.pending;
            card_token = card_token;
            psp_reference = none;
            failure_code = none;
            created_at = now;
            updated_at = now;
          };
          retry_count = pos 0;
          next_retry_at = none;
        })))
  pure row.attempt

module _ (lib : Libraries) where
  unfoldable pub new_key : String → Uuid → Uuid → Json → Action (Unit {0})
  new_key key business_id invoice_id pending_body = do
    id ← new_v4
    now ← utc_now
    exec (
        insert_key (record {
          id = id;
          key = key;
          business_id = business_id;
          invoice_id = invoice_id;
          request_path =
              str_append "/invoices/" (str_append (lib.uuid_to_string invoice_id) "/pay");
          response_status = some (pos 0);
          response_body = pending_body;
          created_at = now;
          updated_at = now;
        }))
    pure tt

  -- What is written once the invoice is claimed.
  unfoldable pub write_attempt : Uuid → Uuid → String → PayInvoiceRequest → Action PaymentAttempt
  write_attempt invoice_id business_id key req = do
    attempt ← new_attempt invoice_id req.card_token
    pending_body ← or_raise (lib.to_value attempt) (internal serde_json)
    new_key key business_id invoice_id pending_body
    pure attempt

  unfoldable pub begin_payment : Uuid → Uuid → String → PayInvoiceRequest → Action PaymentAttempt
  begin_payment invoice_id business_id key req = do
    claim_invoice invoice_id req.versioning
    write_attempt invoice_id business_id key req
