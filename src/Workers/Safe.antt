-- ===== src/Workers/Safe.antt =====
-- What the worker on pending payments keeps: the same predicates as the payment code.
use payman.Services.Elsewhere.{Elsewhere}
use payman.Services.Invoices.Lifecycle.{IsOutcome, Moves}
use payman.Prelude.{
  String, Bool, true, false, Option, none, some, List, [], ◌∷◌, refl, ◌&&◌, ◌==◌, Bool-cases, inl,
  inr, exists, if◌then◌else◌, str_eq,
}
use payman.Prelude.Int.{ℤ, pos, eqb_ℤ}
use payman.Models.{Uuid, DateTime, InvoiceState, AttemptRow, paid, opened}
use payman.Errors.{Result, ok, err}
use payman.Http.{HttpReply, is_success}
use payman.Libraries.{Libraries}
use payman.Store.{
  Db, World, Action, Keeps, keeps_rules, exec, exec-Keeps, transaction-Keeps, IsReading, >>=-Keeps,
  reading_rules, pure, control,
}
use payman.Services.Payments.Safe.{IsSafe, update_attempts-Safe, exec_update-Safe}
use payman.Workers.Status.{
  PspOutcome, StatusApi, postpone, schedule_retry, get_business_id, mark_outcome, reconcile_as,
  settle_outcome, settle_reply, await_status, logged, or_logged, expire_attempt, expire_attempts,
  reconcile_attempt, reconcile_attempts, tick, settle_body, set_succeeded, set_failed,
}

pub if-Keeps {κ} :
    {A : Type 0} (P : Db → Type κ) (b : Bool) (m k : Action A)
    → Keeps P m
    → Keeps P k
    → Keeps P (if b then m else k)
if-Keeps P true m k h l = h
if-Keeps P false m k h l = l

-- Requests that run while the worker waits keep the predicate.
pub record ApiKeeps (api : StatusApi) (P : Db → Type 0) : Type 0 where
  pub at : (id : String) (w : World) → P w.db → P (api.check id w).1.db

-- What the actions on one reply need: the updates of an outcome keep the predicate, and so do the
-- changes to the other tables.
pub record IsSettling (P : Db → Type 0) (invoice_id : Uuid) : Type 0 where
  pub marks :
      (mark : DateTime → AttemptRow → AttemptRow) (target : InvoiceState) (attempt_id : Uuid)
      → IsOutcome target
      → Keeps P (mark_outcome mark target attempt_id invoice_id)
  pub elsewhere : (d d' : Db) → Elsewhere d d' → P d → P d'

module _ (P : Db → Type 0) (invoice_id : Uuid) (s : IsSettling P invoice_id) where
  postpone-IsSettling : (id : Uuid) (m : ℤ) (now : DateTime) → Keeps P (exec (postpone id m now))
  unfolding postpone
  postpone-IsSettling id m now = exec-Keeps _ _ (λ d h.
      elim (Bool-cases (
        exists (λ r. r.attempt.id == id && eqb_ℤ r.retry_count (pos 2_147_483_647))
          d.payment_attempts)) [
            | inl e ↦ rw e h
            | inr e ↦ rw e (s.elsewhere d _ (Elsewhere.other _ refl refl refl refl refl) h)
          ])

  schedule_retry-IsSettling : (id : Uuid) (n : ℤ) → Keeps P (schedule_retry id n)
  unfolding schedule_retry
  schedule_retry-IsSettling id n = search (keeps_rules, postpone-IsSettling) depth 9

  get_business_id-IsReading : (id : Uuid) → IsReading (get_business_id id)
  unfolding get_business_id
  get_business_id-IsReading id = search reading_rules

  marks :
      (mark : DateTime → AttemptRow → AttemptRow) (target : InvoiceState) (attempt_id : Uuid)
      → IsOutcome target
      → Keeps P (mark_outcome mark target attempt_id invoice_id)
  marks = s.marks

  reconcile_as-IsSettling :
      (mark : DateTime → AttemptRow → AttemptRow) (target : InvoiceState) (event : String)
      (attempt_id : Uuid)
      → IsOutcome target
      → Keeps P (reconcile_as mark target event attempt_id invoice_id)
  unfolding reconcile_as
  reconcile_as-IsSettling mark target event attempt_id outcome =
      search (keeps_rules, transaction-Keeps, marks, get_business_id-IsReading) depth 9

  settle_outcome-IsSettling :
      (outcome : PspOutcome) (attempt_id : Uuid)
      → Keeps P (settle_outcome outcome attempt_id invoice_id)
  unfolding settle_outcome
  settle_outcome-IsSettling outcome attempt_id =
      let succeeded =
        reconcile_as-IsSettling (set_succeeded outcome.psp_ref) paid "invoice.paid" attempt_id
          IsOutcome.paid in
      let failed =
        reconcile_as-IsSettling (set_failed outcome.code) opened "invoice.payment_failed" attempt_id
          IsOutcome.opened in
      if-Keeps P (str_eq outcome.status "succeeded") _ _ succeeded
        (if-Keeps P (str_eq outcome.status "failed") _ control failed (search keeps_rules))

  settle_body-IsSettling :
      (body : Option PspOutcome) (attempt_id : Uuid)
      → Keeps P (settle_body body attempt_id invoice_id)
  settle_body-IsSettling none attempt_id = search keeps_rules
  settle_body-IsSettling (some outcome) attempt_id = settle_outcome-IsSettling outcome attempt_id

  pub settle_reply-IsSettling :
      (reply : HttpReply PspOutcome) (attempt_id : Uuid) (n : ℤ)
      → Keeps P (settle_reply reply attempt_id invoice_id n)
  unfolding settle_reply
  settle_reply-IsSettling HttpReply.elapsed attempt_id n = search keeps_rules
  settle_reply-IsSettling HttpReply.refused attempt_id n = search keeps_rules
  settle_reply-IsSettling (HttpReply.response status body) attempt_id n =
      if-Keeps P (status == 404) _ _ (schedule_retry-IsSettling attempt_id n) (
        if-Keeps P (is_success status) _ (pure tt) (settle_body-IsSettling body attempt_id)
          (search keeps_rules))

module _ (P : Db → Type 0) (s : IsSafe P) where
  mark_outcome-Safe :
      (mark : DateTime → AttemptRow → AttemptRow) (target : InvoiceState)
      (attempt_id invoice_id : Uuid)
      → IsOutcome target
      → Keeps P (mark_outcome mark target attempt_id invoice_id)
  unfolding mark_outcome
  mark_outcome-Safe mark target attempt_id invoice_id outcome =
      search (keeps_rules, update_attempts-Safe, exec_update-Safe, Moves.settle) depth 9

  IsSafe-IsSettling : (invoice_id : Uuid) → IsSettling P invoice_id
  IsSafe-IsSettling invoice_id = record {
    marks = λ mark target attempt_id outcome.
        mark_outcome-Safe mark target attempt_id invoice_id outcome;
    elsewhere = s.elsewhere;
  }

  pub settle_reply-Safe :
      (reply : HttpReply PspOutcome) (attempt_id invoice_id : Uuid) (n : ℤ)
      → Keeps P (settle_reply reply attempt_id invoice_id n)
  settle_reply-Safe reply attempt_id invoice_id n =
      settle_reply-IsSettling P invoice_id (IsSafe-IsSettling invoice_id) reply attempt_id n

  pub expire_attempt-Safe : (row : AttemptRow) → Keeps P (expire_attempt row)
  unfolding expire_attempt
  expire_attempt-Safe row =
      search
        (
          keeps_rules, transaction-Keeps, update_attempts-Safe, exec_update-Safe, Moves.settle,
          IsOutcome.opened,
        )
        depth 9

  expire_attempts-Safe : (rows : List AttemptRow) → Keeps P (expire_attempts rows)
  unfolding expire_attempts
  expire_attempts-Safe [] = search keeps_rules
  expire_attempts-Safe (row ∷ rows) =
      >>=-Keeps _ _ _ (expire_attempt-Safe row) λ _. expire_attempts-Safe rows

  or_logged-Safe : (r : Result (Unit {0}) × World) → P r.1.db → P (or_logged r).1.db
  or_logged-Safe (ok u, w) h = h
  or_logged-Safe (err e, w) h = h

  pub logged-Safe : (m : Action (Unit {0})) → Keeps P m → Keeps P (logged m)
  unfolding logged
  logged-Safe m h = record { at = λ w p. or_logged-Safe (m w) (h.at w p) }

  module _ (lib : Libraries) (api : StatusApi) (quiet : ApiKeeps api P) where
    await_status-Safe : (id : String) → Keeps P (await_status api id)
    unfolding await_status
    await_status-Safe id = record { at = λ w h. quiet.at _ w h }

    reconcile_attempt-Safe :
        (attempt_id invoice_id : Uuid) (n : ℤ)
        → Keeps P (reconcile_attempt lib api attempt_id invoice_id n)
    unfolding reconcile_attempt
    reconcile_attempt-Safe attempt_id invoice_id n =
        search (keeps_rules, await_status-Safe, settle_reply-Safe)

    reconcile_attempts-Safe : (rows : List AttemptRow) → Keeps P (reconcile_attempts lib api rows)
    unfolding reconcile_attempts
    reconcile_attempts-Safe [] = search keeps_rules
    reconcile_attempts-Safe (row ∷ rows) =
        >>=-Keeps _ _ _ (logged-Safe _ (reconcile_attempt-Safe _ _ _))
          λ _. reconcile_attempts-Safe rows

    -- A tick of the worker.
    pub tick-Safe : Keeps P (tick lib api)
    unfolding tick
    tick-Safe = search (keeps_rules, reconcile_attempts-Safe, expire_attempts-Safe) depth 9
