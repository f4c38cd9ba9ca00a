-- ===== src/Workers/Outcomes.antt =====
-- What the worker of src/workers/payment_status_worker.rs does to the invoices of an attempt.
use payman.Services.Elsewhere.{Elsewhere-invoices}
use payman.Prelude.Int.{ℤ}
use payman.Http.{HttpReply}
use payman.Prelude.{
  Bool, true, false, List, [], ◌∷◌, ◌≡◌, refl, ◌==◌, update, All, All-update_of, not_both, ◌&&◌,
  ◌∙◌,
}
use payman.Models.{Uuid, DateTime, Invoice, opened, AttemptRow, InvoiceState, eq_state, processing}
use payman.Errors.{Result, ok, err}
use payman.Libraries.{Libraries}
use payman.Store.{
  World, ◌>>=◌, Db, Ensures, db_of, Ensures-transaction, Ensures-skip, utc_now-IsReading,
  Ensures-bind, Ensures-exec, Ensures-pure, Keeps, keeps_rules, exec, exec-Keeps,
}
use payman.Services.Invoices.Statements.{update_invoices}
use payman.Workers.Safe.{IsSettling, settle_reply-IsSettling}
use payman.Services.Payments.Statements.{update_attempts}
use payman.Workers.Status.{
  mark_outcome, StatusApi, expire_attempt, logged, or_logged, reconcile_attempts, reconcile_attempt,
  PspOutcome, settle_reply,
}

update_none {ℓ} :
    {A : Type ℓ} (p : A → Bool) (f : A → A) (xs : List A)
    → All (λ x. p x ≡ false) xs
    → update p f xs ≡ xs
update_none p f [] h = refl
update_none p f (x ∷ xs) h = rw (h.0, update_none p f xs h.1) refl

reopened :
    (id : Uuid) (now : DateTime) (d : Db) {rows : List Invoice} {d' : Db}
    → update_invoices (λ r. r.id == id) (λ r. record r { state = opened; updated_at = now }) d
      ≡ (ok rows, d')
    → All (λ r. (r.id == id) ≡ true → r.state ≡ opened) d'.invoices
unfolding update_invoices
reopened id now d run =
    let f : Invoice → Invoice = λ r. record r { state = opened; updated_at = now } in
    rw (← db_of _ run) (
      All-update_of (λ r. (r.id == id) ≡ true → r.state ≡ opened) (λ r. r.id == id) f d.invoices
        (λ r e _. refl) (λ r e t. absurd (not_both _ e t)))

or_logged-ends : (r : Result (Unit {0}) × World) → or_logged r ≡ (ok tt, r.1)
or_logged-ends (ok u, w) = refl
or_logged-ends (err e, w) = refl

-- The world after each of the attempts was reconciled in turn, however that ended.
abbrev pub after_each : Libraries → StatusApi → List AttemptRow → World → World
after_each lib api [] w = w
after_each lib api (row ∷ rows) w =
    after_each lib api rows
      (reconcile_attempt lib api row.attempt.id row.attempt.invoice_id row.retry_count w).1

-- The loop over the due attempts ends without an error, and reconciles every one of them, in their
-- order: an error with one, at any statement, does not keep the worker from the others.
pub reconcile_attempts-visits :
    (lib : Libraries) (api : StatusApi) (rows : List AttemptRow) (w : World)
    → reconcile_attempts lib api rows w ≡ (ok tt, after_each lib api rows w)
unfolding reconcile_attempts logged ◌>>=◌
reconcile_attempts-visits lib api [] w = refl
reconcile_attempts-visits lib api (row ∷ rows) w =
    rw
      (or_logged-ends
        (reconcile_attempt lib api row.attempt.id row.attempt.invoice_id row.retry_count w))
      (reconcile_attempts-visits lib api rows _)

-- An attempt that expires leaves its invoice open, in whatever state it was: also one that was paid
-- by another attempt, or voided.
pub expire_attempt-Ensures :
    (row : AttemptRow)
    → Ensures
        (λ _. Unit {0})
        (expire_attempt row)
        (λ _ d. All (λ r. (r.id == row.attempt.invoice_id) ≡ true → r.state ≡ opened) d.invoices)
unfolding expire_attempt
expire_attempt-Ensures row = Ensures-transaction _ _ _ (
    Ensures-skip _ _ _ _ utc_now-IsReading λ now.
      Ensures-bind _ _ (λ _ _. Unit {0}) _ _ (record { at = λ w a w' _ _. tt })
        λ _.
          Ensures-bind _ _ _ _ _
            (Ensures-exec _ _ _ λ d rows d' _ run. reopened row.attempt.invoice_id now d run)
            λ _. Ensures-pure _ _ _ λ d h. h)

module _ (l : List Invoice) (invoice_id : Uuid) where
  -- No row of the invoice is in `Processing`.
  abbrev IsDone : Type 0
  IsDone = All (λ r. (r.id == invoice_id && eq_state r.state processing) ≡ false) l

  -- The table invoices is `l`.
  abbrev IsTable : Db → Type 0
  IsTable d = d.invoices ≡ l

  exec_update-IsTable :
      (f : Invoice → Invoice)
      → IsDone
      → Keeps IsTable
          (exec (update_invoices (λ r. r.id == invoice_id && eq_state r.state processing) f))
  unfolding update_invoices
  exec_update-IsTable f done = exec-Keeps _ _ (λ d h. rw h (update_none _ f l done))

  update_attempts-IsTable :
      (id : Uuid) (f : AttemptRow → AttemptRow) → Keeps IsTable (exec (update_attempts id f))
  unfolding update_attempts
  update_attempts-IsTable id f = exec-Keeps _ _ (λ d h. h)

  mark_outcome-IsTable :
      (mark : DateTime → AttemptRow → AttemptRow) (target : InvoiceState) (attempt_id : Uuid)
      → IsDone
      → Keeps IsTable (mark_outcome mark target attempt_id invoice_id)
  unfolding mark_outcome
  mark_outcome-IsTable mark target attempt_id done =
      search (keeps_rules, exec_update-IsTable, update_attempts-IsTable) depth 9

-- Whatever the provider replies, and whatever fails, the worker changes no invoice where the invoice
-- of the attempt has left `Processing`.
pub settle_reply-spares :
    (reply : HttpReply PspOutcome) (attempt_id invoice_id : Uuid) (retry_count : ℤ) (w : World)
    → All (λ r. (r.id == invoice_id && eq_state r.state processing) ≡ false) w.db.invoices
    → (settle_reply reply attempt_id invoice_id retry_count w).1.db.invoices ≡ w.db.invoices
settle_reply-spares reply attempt_id invoice_id retry_count w done =
    let settling : IsSettling (λ d. d.invoices ≡ w.db.invoices) invoice_id = record {
      marks = λ mark target id _. mark_outcome-IsTable w.db.invoices invoice_id mark target id done;
      elsewhere = λ d d' e h. Elsewhere-invoices e ∙ h;
    } in
    (settle_reply-IsSettling _ invoice_id settling reply attempt_id retry_count).at w refl
