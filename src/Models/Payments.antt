-- ===== src/Models/Payments.antt =====
-- src/models/payment.rs, and the rows of payment_attempts and idempotency_keys.
use payman.Prelude.{String, Bool, true, false, Option}
use payman.Prelude.Int.{ℤ}
use payman.Models.JsonValues.{Uuid, DateTime, Json}

pub data PaymentStatus : Type 0 where
  pending succeeded failed : PaymentStatus

abbrev pub is_pending : PaymentStatus → Bool
is_pending pending = true
is_pending succeeded = false
is_pending failed = false

pub record PaymentAttempt : Type 0 where
  pub id : Uuid
  pub invoice_id : Uuid
  pub status : PaymentStatus
  pub card_token : String
  pub psp_reference : Option String
  pub failure_code : Option String
  pub created_at : DateTime
  pub updated_at : DateTime

-- A row of payment_attempts: the struct, and the two columns of the reconciliation worker.
pub record AttemptRow : Type 0 where
  pub attempt : PaymentAttempt
  pub retry_count : ℤ
  pub next_retry_at : Option DateTime

pub record IdempotencyRow : Type 0 where
  pub id : Uuid
  pub key : String
  pub business_id : Uuid
  pub invoice_id : Uuid
  pub request_path : String
  pub response_status : Option ℤ
  pub response_body : Json
  pub created_at : DateTime
  pub updated_at : DateTime

pub record PayInvoiceRequest : Type 0 where
  pub card_token : String
  pub versioning : ℤ

pub record PspChargeRequest : Type 0 where
  pub card_token : String
  pub attempt_id : String

pub record PspChargeResponse : Type 0 where
  pub status : String
  pub psp_ref : Option String
  pub code : Option String

pub data PspResult : Type 0 where
  succeeded : String → PspResult
  failed : String → PspResult
  timed_out network_error : PspResult
