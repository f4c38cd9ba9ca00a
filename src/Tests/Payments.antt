-- ===== src/Tests/Payments.antt =====
-- Payments, with a provider that accepts every charge after a second.
use payman.Services.Payments.Complete.{pay_invoice-pays}
use payman.Services.Payments.Progress.{first_attempt, CanBegin}
use payman.Models.{paid, PaymentStatus, PaymentAttempt, IdempotencyRow, PayInvoiceRequest}
use payman.Tests.Data.{finalized, issued}
use payman.Prelude.{All, ◌==◌, true, ◌≡◌, refl, ◌∷◌, [], ◌+◌, none, some}
use payman.Prelude.Int.{pos, ◌+ℤ◌}
use payman.Errors.{ok}
use payman.Http.{HttpReply}
use payman.Store.{◌>>=◌, insert, World, unfailing}
use payman.Services.Invoices.Statements.{update_invoices, bump_invoices}
use payman.Services.Payments.Charge.{Psp, read_charge, read_reply, call_psp}
use payman.Services.Payments.Statements.{insert_attempt, update_attempts, insert_key, update_keys}
use payman.Services.Payments.Begin.{
  claim_invoice, new_attempt, new_key, write_attempt, begin_payment,
}
use payman.Services.Payments.Settle.{
  require_rows, store_response, record_outcome, settle_payment, mark_succeeded,
}
use payman.Services.Payments.Pay.{await_psp, pay_fresh, pay_invoice}
use payman.Services.Payments.Safe.{PspKeeps}
use payman.Services.Payments.Responses.{HasKey}
use payman.Services.Payments.Replay.{pay_invoice-idempotent}
use payman.Tests.Codec.{codec, write, codec-RoundTrips}

program : Unit {0}
unfolding pay_invoice pay_fresh await_psp call_psp read_reply read_charge begin_payment
    write_attempt new_key new_attempt claim_invoice settle_payment record_outcome store_response
    require_rows insert_attempt update_attempts insert_key update_keys bump_invoices update_invoices
    insert ◌>>=◌ ◌+ℤ◌
program = tt

abbrev accepting : Psp
accepting = record {
  charge = λ req w. (
    HttpReply.response 200
        (some (record { status = "succeeded"; psp_ref = some "ref-1"; code = none })),
    record w { now = w.now + 1_000_000 },
  );
}

-- One that never answers.
abbrev silent : Psp
silent = record { charge = λ req w. (HttpReply.elapsed, w) }

abbrev pay_it : PayInvoiceRequest
pay_it = record { card_token = "tok_success"; versioning = pos 2 }

abbrev pub charged : PaymentAttempt
charged = record {
  id = 103;
  invoice_id = 100;
  status = PaymentStatus.succeeded;
  card_token = "tok_success";
  psp_reference = some "ref-1";
  failure_code = none;
  created_at = 1_000_000_000_000;
  updated_at = 1_000_001_000_000;
}

abbrev settled : World
settled = (pay_invoice codec accepting 100 1 "key" pay_it issued).1

paying : pay_invoice codec accepting 100 1 "key" pay_it issued ≡ (ok charged, settled)
unfolding program
paying = refl

accepting-Keeps : PspKeeps accepting (HasKey codec "key" 1 100)
accepting-Keeps = record { at = λ req w h. h }

-- The second request asks for another card, and would reach a provider that never answers.
pay_invoice-idempotent_example :
    pay_invoice codec silent 100 1 "key" (record pay_it { card_token = "tok_other" }) settled
    ≡ (ok charged, record settled { statements = settled.statements + 1 })
unfolding program
pay_invoice-idempotent_example =
    pay_invoice-idempotent codec "key" 1 100 accepting pay_it issued settled settled charged
      codec-RoundTrips accepting-Keeps refl paying refl (λ _. refl, tt) refl silent
      (record pay_it { card_token = "tok_other" })

abbrev stored : IdempotencyRow
stored = record {
  id = 7;
  key = "key";
  business_id = 1;
  invoice_id = 100;
  request_path = "/invoices/an-id/pay";
  response_status = some (pos 200);
  response_body = write charged;
  created_at = 999_999_000_000;
  updated_at = 999_999_000_000;
}

abbrev keyed : World
keyed = record issued { db = record issued.db { idempotency_keys = stored ∷ [] } }

-- A provider that accepts every charge at once.
abbrev prompt : Psp
prompt = record {
  charge = λ req w. (
    HttpReply.response 200
        (some (record { status = "succeeded"; psp_ref = some "ref-1"; code = none })),
    w,
  );
}

abbrev begun : PaymentAttempt
begun = first_attempt 100 "tok_success" issued

issued-CanBegin : CanBegin codec 100 1 "key-1" pay_it (write begun) issued
issued-CanBegin = record {
  invoice = finalized;
  found = refl;
  has_room = (λ _. refl, tt);
  fresh_attempt = refl;
  fresh_key = refl;
  unused = refl;
  business = refl;
  written = refl;
}

pay_invoice-pays_example :
    (w' : World) × (pay_invoice codec prompt 100 1 "key-1" pay_it (unfailing issued)
      ≡ (ok (mark_succeeded "ref-1" issued.now begun), w'))
    × All (λ r. (r.id == 100) ≡ true → r.state ≡ paid) w'.db.invoices
pay_invoice-pays_example =
    pay_invoice-pays codec prompt 100 1 "key-1" pay_it "ref-1" (write begun)
      (write (mark_succeeded "ref-1" issued.now begun)) issued (record { at = λ req w. refl })
      issued-CanBegin refl
