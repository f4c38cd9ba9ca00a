-- ===== src/Workers/Progress.antt =====
-- While the database answers, the worker of src/workers/payment_status_worker.rs settles a payment of
-- which the provider knows the outcome.
use payman.Models.{
  PaymentStatus, InvoiceState, Uuid, DateTime, AttemptRow, Invoice, eq_state, processing, paid,
  opened,
}
use payman.Prelude.{
  true, All, All-update_of, not_both, refl, [], ◌∷◌, some, List, head?, Bool, String, update,
  select, ◌==◌, ◌≡◌, ◌+◌, ◌&&◌, none-ne-some, ◌++◌, Bool-cases, inl, some_inj, ap, inr, ℕ, arith,
}
use payman.Prelude.Int.{ℤ}
use payman.Errors.{ok}
use payman.Services.Invoices.Statements.{update_invoices}
use payman.Services.Payments.Statements.{update_attempts}
use payman.Workers.Status.{
  reconcile_as, mark_outcome, get_business_id, settle_reply, settle_outcome, PspOutcome,
  set_succeeded, set_failed,
}
use payman.Store.{World, ◌>>=◌, unfailing}
use payman.Http.{HttpReply}

abbrev pub if_processing : Uuid → Invoice → Bool
if_processing id r = r.id == id && eq_state r.state processing

abbrev pub moved_to : InvoiceState → DateTime → Invoice → Invoice
moved_to target now r = record r { state = target; updated_at = now }

-- An update finds the invoice where it was, and of the same business.
head-select-update :
    (id : Uuid) (target : InvoiceState) (now : DateTime) (rows : List Invoice) {r : Invoice}
    → head? (select (λ x. x.id == id) rows) ≡ some r
    → (r' : Invoice) × (head?
          (select (λ x. x.id == id) (update (if_processing id) (moved_to target now) rows))
        ≡ some r')
      × (r'.business_id ≡ r.business_id)
head-select-update id target now [] h = absurd (none-ne-some _ h)
head-select-update id target now (x ∷ rows) {r} h =
    let rest = head-select-update id target now rows in
    elim (Bool-cases (x.id == id)) [
      | inl same ↦
          let first : x ≡ r = some_inj.0 (rw same at h) in
          elim (Bool-cases (eq_state x.state processing)) [
            | inl e ↦
                (moved_to target now x, rw (same, e, same) refl, ap (λ y. y.business_id) first)
            | inr e ↦ (x, rw (same, e, same) refl, ap (λ y. y.business_id) first)
          ]
      | inr differs ↦ rw (differs, differs) (rest (rw differs at h))
    ]

-- What the worker writes for an outcome: the attempt is marked, the invoice moves on if it is still in
-- `Processing`, and the webhooks of the event are to be dispatched.
abbrev pub settled :
    (DateTime → AttemptRow → AttemptRow)
    → InvoiceState
    → String
    → Uuid
    → Uuid
    → Uuid
    → World
    → World
settled mark target event attempt_id invoice_id business_id w = record (unfailing w) {
  db = record w.db {
    payment_attempts = update (λ r. r.attempt.id == attempt_id) (mark w.now) w.db.payment_attempts;
    invoices = update (if_processing invoice_id) (moved_to target w.now) w.db.invoices;
  };
  statements = w.statements + 5;
  tasks =
      w.tasks
      ++ record { business_id = business_id; invoice_id = invoice_id; event_type = event } ∷ [];
}

five_more : (n : ℕ) → n + 1 + 1 + 1 + 1 + 1 ≡ n + 5
five_more n = omega arith

reconcile_as-settles :
    (mark : DateTime → AttemptRow → AttemptRow) (target : InvoiceState) (event : String)
    (attempt_id invoice_id : Uuid) (w : World) {r : Invoice}
    → head? (select (λ x. x.id == invoice_id) w.db.invoices) ≡ some r
    → reconcile_as mark target event attempt_id invoice_id (unfailing w)
      ≡ (ok tt, settled mark target event attempt_id invoice_id r.business_id w)
unfolding reconcile_as mark_outcome get_business_id update_attempts update_invoices ◌>>=◌
reconcile_as-settles mark target event attempt_id invoice_id w found =
    let (r', found', same) = head-select-update invoice_id target w.now w.db.invoices found in
    rw (found', same, five_more w.statements) refl

-- What an outcome of the provider is to become: the mark on the attempt, the state of the invoice, and
-- the event.
pub data Verdict (outcome : PspOutcome)
    : (DateTime → AttemptRow → AttemptRow) → InvoiceState → String → Type 0 where
  success :
      outcome.status ≡ "succeeded"
      → Verdict outcome (set_succeeded outcome.psp_ref) paid "invoice.paid"
  failure :
      outcome.status ≡ "failed"
      → Verdict outcome (set_failed outcome.code) opened "invoice.payment_failed"

settles :
    (outcome : PspOutcome) (attempt_id invoice_id : Uuid) (retry_count : ℤ) (w : World)
    {r : Invoice} {mark : DateTime → AttemptRow → AttemptRow} {target : InvoiceState}
    {event : String}
    → head? (select (λ x. x.id == invoice_id) w.db.invoices) ≡ some r
    → Verdict outcome mark target event
    → settle_reply
        (HttpReply.response 200 (some outcome))
        attempt_id
        invoice_id
        retry_count
        (unfailing w)
      ≡ (ok tt, settled mark target event attempt_id invoice_id r.business_id w)
unfolding settle_reply settle_outcome
settles outcome attempt_id invoice_id retry_count w found (Verdict.success e) =
    rw e (reconcile_as-settles _ paid "invoice.paid" attempt_id invoice_id w found)
settles outcome attempt_id invoice_id retry_count w found (Verdict.failure e) =
    rw e (reconcile_as-settles _ opened "invoice.payment_failed" attempt_id invoice_id w found)

-- What an attempt is to say of the outcome.
abbrev pub Marked :
    {outcome : PspOutcome} {mark : DateTime → AttemptRow → AttemptRow} {target : InvoiceState}
    {event : String}
    → Verdict outcome mark target event
    → AttemptRow
    → Type 0
Marked {outcome} (Verdict.success e) r =
    (r.attempt.status ≡ PaymentStatus.succeeded) × (r.attempt.psp_reference ≡ outcome.psp_ref)
Marked {outcome} (Verdict.failure e) r =
    (r.attempt.status ≡ PaymentStatus.failed) × (r.attempt.failure_code ≡ outcome.code)

mark-Marked :
    {outcome : PspOutcome} {mark : DateTime → AttemptRow → AttemptRow} {target : InvoiceState}
    {event : String} (v : Verdict outcome mark target event) (now : DateTime) (r : AttemptRow)
    → Marked v (mark now r)
mark-Marked (Verdict.success e) now r = (refl, refl)
mark-Marked (Verdict.failure e) now r = (refl, refl)

-- While no statement fails, the worker settles a pending payment as soon as the provider reports a
-- success or a failure, and returns: on a success every row of the attempt has the status `Succeeded`
-- and the reference, on a failure the status `Failed` and the code; the invoice becomes `Paid`, or `Open`, if it is still in `Processing`; nothing
-- else in the tables changes; and the webhooks of the event are to be dispatched. The invoice of the
-- attempt is stored.
pub settle_reply-settles :
    (outcome : PspOutcome) (attempt_id invoice_id : Uuid) (retry_count : ℤ) (w : World)
    {r : Invoice} {mark : DateTime → AttemptRow → AttemptRow} {target : InvoiceState}
    {event : String}
    → head? (select (λ x. x.id == invoice_id) w.db.invoices) ≡ some r
    → (v : Verdict outcome mark target event)
    → (settle_reply
          (HttpReply.response 200 (some outcome))
          attempt_id
          invoice_id
          retry_count
          (unfailing w)
        ≡ (ok tt, settled mark target event attempt_id invoice_id r.business_id w))
      × All
          (λ a. (a.attempt.id == attempt_id) ≡ true → Marked v a)
          (settled mark target event attempt_id invoice_id r.business_id w).db.payment_attempts
settle_reply-settles outcome attempt_id invoice_id retry_count w found v = (
  settles outcome attempt_id invoice_id retry_count w found v,
  All-update_of (λ a. (a.attempt.id == attempt_id) ≡ true → Marked v a) _ _ w.db.payment_attempts
      (λ a _ _. mark-Marked v w.now a) (λ a e t. absurd (not_both _ e t)),
)
