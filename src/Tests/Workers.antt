-- ===== src/Tests/Workers.antt =====
-- The worker on pending payments.
use payman.Prelude.{◌≡◌, refl, ◌∷◌, [], none, some, arith, All, ◌==◌, true}
use payman.Prelude.Int.{pos}
use payman.Models.{opened, PaymentStatus, AttemptRow}
use payman.Http.{HttpReply}
use payman.Store.{World, Ensures}
use payman.Errors.{ok}
use payman.Workers.Backoff.{backoff_mins, backoff_mins-eq}
use payman.Workers.Status.{PspOutcome, StatusApi, settle_reply, expire_attempt, reconcile_attempts}
use payman.Workers.Outcomes.{
  reconcile_attempts-visits, after_each, expire_attempt-Ensures, settle_reply-spares,
}
use payman.Tests.Codec.{codec}
use payman.Tests.Data.{issued}
use payman.Tests.Payments.{charged}

-- The fourth reply 404 is followed by eight minutes, and the 64th by none.
backoff_mins-eq_example : backoff_mins (pos 63) ≡ pos 0
backoff_mins-eq_example = backoff_mins-eq 63 (omega arith)

eight_minutes : backoff_mins (pos 3) ≡ pos 8
eight_minutes = backoff_mins-eq 3 (omega arith)

abbrev waiting : AttemptRow
waiting = record {
  attempt = record charged { status = PaymentStatus.pending; psp_reference = none };
  retry_count = pos 0;
  next_retry_at = none;
}

abbrev no_news : StatusApi
no_news = record { check = λ id w. (HttpReply.response 404 none, w) }

-- The first statement fails, so that the first of the two attempts is not postponed.
abbrev faulty : World
faulty = record issued { faults = λ n. n == 10 }

reconcile_attempts-visits_example :
    reconcile_attempts codec no_news (waiting ∷ waiting ∷ []) faulty
    ≡ (ok tt, after_each codec no_news (waiting ∷ waiting ∷ []) faulty)
reconcile_attempts-visits_example =
    reconcile_attempts-visits codec no_news (waiting ∷ waiting ∷ []) faulty

expire_attempt-Ensures_example :
    Ensures
      (λ _. Unit {0})
      (expire_attempt waiting)
      (λ _ d. All (λ r. (r.id == 100) ≡ true → r.state ≡ opened) d.invoices)
expire_attempt-Ensures_example = expire_attempt-Ensures waiting

abbrev good_news : HttpReply PspOutcome
good_news =
    HttpReply.response 200
      (some (record { status = "succeeded"; psp_ref = some "ref-2"; code = none }))

-- The invoice is open, so that the good news comes too late.
settle_reply-spares_example :
    (settle_reply good_news 103 100 (pos 0) issued).1.db.invoices ≡ issued.db.invoices
settle_reply-spares_example = settle_reply-spares good_news 103 100 (pos 0) issued (refl, tt)
