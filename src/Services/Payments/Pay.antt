-- ===== src/Services/Payments/Pay.antt =====
-- `pay_invoice` of src/services/payments.rs, whole.
use payman.Prelude.{String, Option, none, some}
use payman.Models.{Uuid, IdempotencyRow, PaymentAttempt, PayInvoiceRequest, PspResult}
use payman.Errors.{serde_json, internal, ok}
use payman.Libraries.{Libraries}
use payman.Store.{Action, ◌>>=◌, or_raise, utc_now, query, transaction, fetch_optional}
use payman.Services.Payments.Charge.{Psp, call_psp}
use payman.Services.Payments.Statements.{recent_keys}
use payman.Services.Payments.Begin.{begin_payment}
use payman.Services.Payments.Settle.{settle_payment}

-- `call_psp(…).await`: the rest runs on the world as it is when the reply has arrived.
unfoldable pub await_psp : Psp → String → String → Action PspResult
unfolding call_psp
await_psp psp attempt_id card_token w =
    let (result, w') = call_psp psp attempt_id card_token w in (ok result, w')

module _ (lib : Libraries) (psp : Psp) where
  -- No response is stored for the key.
  unfoldable pub pay_fresh : Uuid → Uuid → String → PayInvoiceRequest → Action PaymentAttempt
  pay_fresh invoice_id business_id key req = do
    attempt ← transaction (begin_payment lib invoice_id business_id key req)
    result ← await_psp psp (lib.uuid_to_string attempt.id) req.card_token
    settle_payment lib result attempt invoice_id business_id key

  abbrev pub replay_or_pay :
      Option IdempotencyRow → Uuid → Uuid → String → PayInvoiceRequest → Action PaymentAttempt
  replay_or_pay (some stored) invoice_id business_id key req =
      or_raise (lib.from_value stored.response_body) (internal serde_json)
  replay_or_pay none invoice_id business_id key req = pay_fresh invoice_id business_id key req

  unfoldable pub pay_invoice : Uuid → Uuid → String → PayInvoiceRequest → Action PaymentAttempt
  pay_invoice invoice_id business_id key req = do
    now ← utc_now
    existing ← fetch_optional (query (recent_keys key business_id invoice_id now))
    replay_or_pay existing invoice_id business_id key req
