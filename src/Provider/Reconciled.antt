-- ===== src/Provider/Reconciled.antt =====
-- A payment on whose charge the service has given up, and the worker that asks for its outcome.
use payman.Models.{PaymentStatus, Uuid, PspResult, Invoice, paid}
use payman.Prelude.{true, All, ap, ◌==◌, refl, head?, select, ◌≡◌, some, String, subst, ◌∙◌}
use payman.Errors.{ok}
use payman.Workers.Progress.{settled, settle_reply-settles, Verdict}
use payman.Workers.Status.{settle_reply, set_succeeded}
use payman.Services.Payments.Charge.{read_reply}
use payman.Provider.Outcomes.{
  Spares, received_in_time, Agrees, received, status_body, charge-Agrees,
}
use payman.Store.{World, unfailing}
use payman.Prelude.Int.{ℤ}
use payman.Provider.{Meanwhile, ChargeRequest, Provider, charge, get_outcome, success}

settles :
    (id invoice_id : Uuid) (retry_count : ℤ) (p after : Provider) (result : PspResult) (w : World)
    {r : Invoice}
    → head? (select (λ x. x.id == invoice_id) w.db.invoices) ≡ some r
    → result ≡ PspResult.timed_out
    → Agrees result id p after
    → (psp_ref : String) × (settle_reply
          (received status_body (get_outcome id after))
          id
          invoice_id
          retry_count
          (unfailing w)
        ≡ (
          ok tt,
          settled (set_succeeded (some psp_ref)) paid "invoice.paid" id invoice_id r.business_id w,
        ))
      × All
          (λ a.
            (a.attempt.id == id) ≡ true
            → (a.attempt.status ≡ PaymentStatus.succeeded)
              × (a.attempt.psp_reference ≡ some psp_ref))
          (settled
            (set_succeeded (some psp_ref))
            paid
            "invoice.paid"
            id
            invoice_id
            r.business_id
            w).db.payment_attempts
settles id invoice_id retry_count p after result w found timed_out agrees =
    let (psp_ref, kept) = subst (λ x. Agrees x id p after) timed_out agrees in
    let (done, marked) =
      settle_reply-settles (status_body (success psp_ref)) id invoice_id retry_count w found
        (Verdict.success refl) in
    (
      psp_ref,
      ap
            (λ reply.
              settle_reply (received status_body reply) id invoice_id retry_count (unfailing w))
            kept
          ∙ done,
      marked,
    )

-- A charge that took too long for the service is not lost: once the provider has answered it, the worker
-- asks for the outcome of the attempt, gives every row of the attempt the status `Succeeded` and the
-- reference, moves its invoice from `Processing` to `Paid`, and has the webhooks dispatched. No statement of the worker fails, the
-- invoice of the attempt is stored, and requests that the provider handles meanwhile keep the outcome.
pub charge-timed_out-settles :
    (meanwhile : Meanwhile) (req : ChargeRequest) (p : Provider) (invoice_id : Uuid)
    (retry_count : ℤ) (w : World) {r : Invoice}
    → Spares req.attempt_id meanwhile
    → read_reply (received_in_time (charge meanwhile req p)) ≡ PspResult.timed_out
    → head? (select (λ x. x.id == invoice_id) w.db.invoices) ≡ some r
    → (psp_ref : String) × (settle_reply
          (received status_body (get_outcome req.attempt_id (charge meanwhile req p).2))
          req.attempt_id
          invoice_id
          retry_count
          (unfailing w)
        ≡ (
          ok tt,
          settled
              (set_succeeded (some psp_ref))
              paid
              "invoice.paid"
              req.attempt_id
              invoice_id
              r.business_id
              w,
        ))
      × All
          (λ a.
            (a.attempt.id == req.attempt_id) ≡ true
            → (a.attempt.status ≡ PaymentStatus.succeeded)
              × (a.attempt.psp_reference ≡ some psp_ref))
          (settled
            (set_succeeded (some psp_ref))
            paid
            "invoice.paid"
            req.attempt_id
            invoice_id
            r.business_id
            w).db.payment_attempts
charge-timed_out-settles meanwhile req p invoice_id retry_count w spares timed_out found =
    settles req.attempt_id invoice_id retry_count p _ _ w found timed_out
      (charge-Agrees meanwhile req p spares)
