-- ===== src/Tests/Provider.antt =====
-- Charges of the mock provider.
use payman.Tests.Payments.{charged}
use payman.Models.{PaymentStatus, PspResult, processing, opened, paid}
use payman.Prelude.{All, ◌==◌, true, refl, none, some, [], ◌∷◌, String, ◌≡◌}
use payman.Provider.Reconciled.{charge-timed_out-settles}
use payman.Errors.{ok}
use payman.Prelude.Int.{pos}
use payman.Tests.Data.{start, tables, finalized}
use payman.Services.Payments.Charge.{read_reply}
use payman.Store.{World, unfailing}
use payman.Provider.Outcomes.{
  Agrees, Spares, received, received_in_time, charge-Agrees, status_body,
}
use payman.Provider.{
  Meanwhile, charge, ChargeRequest, Provider, charge_timeout, sleep, get_outcome, draw_text,
}
use payman.Workers.Status.{PspOutcome, settle_reply, set_succeeded, set_failed}
use payman.Http.{HttpReply}
use payman.Workers.Progress.{Verdict, settled, settle_reply-settles}

abbrev provider : Provider
provider = record { store = []; spawned = []; texts = λ n. "ref-1"; drawn = 0 }

-- Nothing else happens.
abbrev idle : Meanwhile
idle = record { others = λ millis p. p }

abbrev slow : ChargeRequest
slow = record { card_token = "tok_timeout"; attempt_id = 103 }

idle-Spares : Spares 103 idle
idle-Spares = record { same = λ millis p. refl }

charge-Agrees_example :
    Agrees
      (read_reply (received_in_time (charge idle slow provider)))
      103
      provider
      (charge idle slow provider).2
charge-Agrees_example = charge-Agrees idle slow provider idle-Spares

-- The invoice of the order, in `Processing`.
abbrev pending : World
pending = record start {
  db = record tables {
    invoices = record finalized { state = processing } ∷ [];
    payment_attempts =
        record {
          attempt = record charged { status = PaymentStatus.pending; psp_reference = none };
          retry_count = pos 1;
          next_retry_at = none;
        }
        ∷ [];
  };
}

program : Unit {0}
unfolding charge charge_timeout sleep draw_text read_reply
program = tt

gives_up : read_reply (received_in_time (charge idle slow provider)) ≡ PspResult.timed_out
unfolding program
gives_up = refl

charge-timed_out-settles_example :
    (psp_ref : String) × (settle_reply
        (received status_body (get_outcome 103 (charge idle slow provider).2))
        103
        100
        (pos 0)
        (unfailing pending)
      ≡ (ok tt, settled (set_succeeded (some psp_ref)) paid "invoice.paid" 103 100 1 pending))
    × All
        (λ a.
          (a.attempt.id == 103) ≡ true
          → (a.attempt.status ≡ PaymentStatus.succeeded) × (a.attempt.psp_reference ≡ some psp_ref))
        (settled
          (set_succeeded (some psp_ref))
          paid
          "invoice.paid"
          103
          100
          1
          pending).db.payment_attempts
charge-timed_out-settles_example =
    charge-timed_out-settles idle slow provider 100 (pos 0) pending idle-Spares gives_up refl

abbrev declined : PspOutcome
declined = record { status = "failed"; psp_ref = none; code = some "card_declined" }

settle_reply-settles_example :
    (settle_reply (HttpReply.response 200 (some declined)) 103 100 (pos 0) (unfailing pending) ≡ (
      ok tt,
      settled (set_failed (some "card_declined")) opened "invoice.payment_failed" 103 100 1 pending,
    ))
    × All
        (λ a.
          (a.attempt.id == 103) ≡ true
          → (a.attempt.status ≡ PaymentStatus.failed)
            × (a.attempt.failure_code ≡ some "card_declined"))
        (settled
          (set_failed (some "card_declined"))
          opened
          "invoice.payment_failed"
          103
          100
          1
          pending).db.payment_attempts
settle_reply-settles_example =
    settle_reply-settles declined 103 100 (pos 0) pending refl (Verdict.failure refl)
