-- ===== src/Handlers/Payments.antt =====
-- src/handlers/payments.rs. `auth` is the business that the request was authenticated as.
use payman.Prelude.{String, Option, none, some}
use payman.Models.{Uuid, Business, PaymentAttempt, PayInvoiceRequest}
use payman.Errors.{bad_request}
use payman.Libraries.{Libraries}
use payman.Store.{Action, ◌>>=◌, or_raise}
use payman.Services.Payments.Charge.{Psp}
use payman.Services.Payments.Pay.{pay_invoice as pay_invoice_service}

-- `headers.get("Idempotency-Key").and_then(|v| v.to_str().ok())`: the header, if there is one, and
-- its text, if it can be read.
abbrev pub readable : Option (Option String) → Option String
readable none = none
readable (some value) = value

unfoldable pub pay_invoice :
    Libraries
    → Psp
    → Business
    → Uuid
    → Option (Option String)
    → PayInvoiceRequest
    → Action PaymentAttempt
pay_invoice lib psp auth invoice_id header req = do
  idempotency_key ← or_raise (readable header) (bad_request "Idempotency-Key header is required")
  pay_invoice_service lib psp invoice_id auth.id idempotency_key req
