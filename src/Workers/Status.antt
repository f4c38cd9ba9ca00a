-- ===== src/Workers/Status.antt =====
-- src/workers/payment_status_worker.rs: the worker that asks the provider what became of the payments
-- that are pending.
use payman.Prelude.{
  ◌+◌, ◌-◌, ◌*◌, String, Bool, true, ◌&&◌, not, Option, none, some, List, [], ◌∷◌, select, exists,
  ◌==◌, leb, str_eq, if◌then◌else◌,
}
use payman.Prelude.Int.{ℤ, pos, pos_part, neg_part, ◌+ℤ◌, eqb_ℤ}
use payman.Models.{
  Uuid, DateTime, PaymentStatus, is_pending, AttemptRow, opened, paid, processing, InvoiceState,
  eq_state,
}
use payman.Errors.{reqwest, Result, ok, err, internal, database, out_of_range}
use payman.Http.{HttpReply, is_success}
use payman.Libraries.{Libraries}
use payman.Store.{
  Db, World, Action, ◌>>=◌, ◌>>◌, pure, or_raise, utc_now, spawn, exec, query, control, transaction,
  fetch_one,
}
use payman.Services.Invoices.Statements.{update_invoices}
use payman.Services.Payments.Statements.{is_recent, update_attempts}
use payman.Workers.Backoff.{backoff_mins}

-- `PspOutcome`
pub record PspOutcome : Type 0 where
  pub status : String
  pub psp_ref : Option String
  pub code : Option String

-- The provider's reply to `GET {psp_url}/charge/{attempt_id}`, and the world when it arrives.
pub record StatusApi : Type 0 where
  pub check : String → World → HttpReply PspOutcome × World

-- `now + make_interval(mins => m)`
abbrev after_mins : DateTime → ℤ → DateTime
after_mins now m = now + pos_part m * 60_000_000 - neg_part m * 60_000_000

-- `SET status = …, updated_at = NOW()` and the column of the outcome, on the struct of a row.
abbrev pub set_succeeded : Option String → DateTime → AttemptRow → AttemptRow
set_succeeded psp_ref now r = record r {
  attempt = record r.attempt {
    status = PaymentStatus.succeeded;
    psp_reference = psp_ref;
    updated_at = now;
  };
}

abbrev pub set_failed : Option String → DateTime → AttemptRow → AttemptRow
set_failed code now r = record r {
  attempt = record r.attempt {
    status = PaymentStatus.failed;
    failure_code = code;
    updated_at = now;
  };
}

-- `retry_count` is a 32-bit integer.
unfoldable pub postpone : Uuid → ℤ → DateTime → Db → Result (List AttemptRow) × Db
unfolding update_attempts
postpone attempt_id backoff now d =
    if exists (λ r. r.attempt.id == attempt_id && eqb_ℤ r.retry_count (pos 2_147_483_647))
      d.payment_attempts
    then (err (database out_of_range), d)
    else update_attempts attempt_id
        (λ r. record r {
          attempt = record r.attempt { updated_at = now };
          retry_count = r.retry_count +ℤ pos 1;
          next_retry_at = some (after_mins now backoff);
        })
        d

unfoldable pub schedule_retry : Uuid → ℤ → Action (Unit {0})
schedule_retry attempt_id retry_count = do
  now ← utc_now
  exec (postpone attempt_id (backoff_mins retry_count) now)
  pure tt

unfoldable pub get_business_id : Uuid → Action Uuid
get_business_id invoice_id = do
  row ← fetch_one (query (λ d. select (λ r. r.id == invoice_id) d.invoices))
  pure row.business_id

-- The two `UPDATE`s of an outcome: the attempt, and the invoice if it is still in `Processing`.
unfoldable pub mark_outcome :
    (DateTime → AttemptRow → AttemptRow) → InvoiceState → Uuid → Uuid → Action (Unit {0})
mark_outcome mark target attempt_id invoice_id = do
  now ← utc_now
  exec (update_attempts attempt_id (mark now))
  exec (
      update_invoices (λ r. r.id == invoice_id && eq_state r.state processing)
        (λ r. record r { state = target; updated_at = now }))
  pure tt

unfoldable pub reconcile_as :
    (DateTime → AttemptRow → AttemptRow) → InvoiceState → String → Uuid → Uuid → Action (Unit {0})
reconcile_as mark target event attempt_id invoice_id = do
  transaction (mark_outcome mark target attempt_id invoice_id)
  business_id ← get_business_id invoice_id
  spawn (record { business_id = business_id; invoice_id = invoice_id; event_type = event })

-- The inner `match`. On another status, the transaction that has begun is dropped.
unfoldable pub settle_outcome : PspOutcome → Uuid → Uuid → Action (Unit {0})
settle_outcome outcome attempt_id invoice_id =
    if str_eq outcome.status "succeeded"
    then reconcile_as (set_succeeded outcome.psp_ref) paid "invoice.paid" attempt_id invoice_id
    else if str_eq outcome.status "failed"
    then reconcile_as (set_failed outcome.code) opened "invoice.payment_failed" attempt_id
        invoice_id
    else control

abbrev pub settle_body : Option PspOutcome → Uuid → Uuid → Action (Unit {0})
settle_body none attempt_id invoice_id = or_raise none (internal reqwest)
settle_body (some outcome) attempt_id invoice_id = settle_outcome outcome attempt_id invoice_id

-- The outer `match`, on the reply of the provider.
unfoldable pub settle_reply : HttpReply PspOutcome → Uuid → Uuid → ℤ → Action (Unit {0})
settle_reply HttpReply.elapsed attempt_id invoice_id retry_count = pure tt
settle_reply HttpReply.refused attempt_id invoice_id retry_count = pure tt
settle_reply (HttpReply.response status body) attempt_id invoice_id retry_count =
    if status == 404
    then schedule_retry attempt_id retry_count
    else if is_success status
    then settle_body body attempt_id invoice_id
    else pure tt

unfoldable pub await_status : StatusApi → String → Action (HttpReply PspOutcome)
await_status api attempt_id w = let (reply, w') = api.check attempt_id w in (ok reply, w')

-- `if let Err(e) = … { error!(…) }`
abbrev pub or_logged : Result (Unit {0}) × World → Result (Unit {0}) × World
or_logged (ok u, w) = (ok u, w)
or_logged (err e, w) = (ok tt, w)

unfoldable pub logged : Action (Unit {0}) → Action (Unit {0})
logged m w = or_logged (m w)

-- `status = 'pending' AND (next_retry_at IS NULL OR next_retry_at <= NOW()) AND created_at > …`
abbrev is_due : DateTime → Option DateTime → Bool
is_due now none = true
is_due now (some t) = leb t now

abbrev pub due_attempts : DateTime → Db → List AttemptRow
due_attempts now d =
    select
      (λ r.
        is_pending r.attempt.status
        && is_due now r.next_retry_at
        && is_recent now r.attempt.created_at)
      d.payment_attempts

abbrev pub expired_attempts : DateTime → Db → List AttemptRow
expired_attempts now d =
    select (λ r. is_pending r.attempt.status && not (is_recent now r.attempt.created_at))
      d.payment_attempts

-- An attempt that is older than a day: the invoice is open again, in whatever state it is.
unfoldable pub expire_attempt : AttemptRow → Action (Unit {0})
expire_attempt row = transaction (do
  now ← utc_now
  exec (update_attempts row.attempt.id (set_failed (some "reconciliation_timeout") now))
  exec (
      update_invoices (λ r. r.id == row.attempt.invoice_id)
        (λ r. record r { state = opened; updated_at = now }))
  pure tt)

unfoldable pub expire_attempts : List AttemptRow → Action (Unit {0})
expire_attempts [] = pure tt
expire_attempts (row ∷ rows) = do expire_attempt row; expire_attempts rows

module _ (lib : Libraries) (api : StatusApi) where
  unfoldable pub reconcile_attempt : Uuid → Uuid → ℤ → Action (Unit {0})
  reconcile_attempt attempt_id invoice_id retry_count = do
    reply ← await_status api (lib.uuid_to_string attempt_id)
    settle_reply reply attempt_id invoice_id retry_count

  unfoldable pub reconcile_attempts : List AttemptRow → Action (Unit {0})
  reconcile_attempts [] = pure tt
  reconcile_attempts (row ∷ rows) = do
    logged (reconcile_attempt row.attempt.id row.attempt.invoice_id row.retry_count)
    reconcile_attempts rows

  unfoldable pub tick : Action (Unit {0})
  tick = do
    now ← utc_now
    attempts ← query (due_attempts now)
    reconcile_attempts attempts
    later ← utc_now
    expired ← query (expired_attempts later)
    expire_attempts expired
