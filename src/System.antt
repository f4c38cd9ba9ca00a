-- ===== src/System.antt =====
-- The service as a transition system: requests of all businesses, in any order, where a payment is
-- two steps with others between them, and the steps of the worker on pending payments.
pub mod Lifecycle
pub mod Server
use payman.Models.{
  LineItem, Uuid, DateTime, Invoice, PaymentAttempt, AttemptRow, CreateInvoiceRequest,
  EditInvoiceRequest, FinalizeInvoiceRequest, VoidInvoiceRequest, PayInvoiceRequest, PspResult,
  InvoiceResult,
}
use payman.Prelude.{Bool, [], ◌∷◌, ◌≡◌, ◌≤◌, String, List, subst, sym, refl}
use payman.Services.Invoices.Lifecycle.{Actor}
use payman.Prelude.Int.{ℤ}
use payman.Errors.{ok}
use payman.Libraries.{Libraries}
use payman.Store.{World, transaction, transaction-Keeps}
use payman.Services.Invoices.Consistent.{IsConsistent, SeesAll}
use payman.Services.Invoices.Create.{create_invoice}
use payman.Services.Invoices.Edit.{lock_draft, edit_rows, edit_invoice}
use payman.Services.Invoices.Transitions.{finalize_invoice, void_invoice}
use payman.Services.Invoices.Keeps.{
  create_invoice-Keeps, edit_invoice-Keeps, finalize_invoice-Keeps, void_invoice-Keeps,
  lock_draft-Keeps, rewrite-Keeps,
}
use payman.Services.Invoices.Stable.{
  IsStable, IsKept, IsStable-IsKept, OnInvoices-Allows, exec_bump-Stable,
}
use payman.Services.Invoices.Advance.{
  create_invoice-Kept, edit_invoice-Kept, finalize_invoice-Stable, void_invoice-Stable,
  lock_draft-Kept, edit_rows-Kept,
}
use payman.Services.Payments.Begin.{begin_payment}
use payman.Services.Payments.Settle.{settle_payment}
use payman.Services.Payments.Safe.{
  IsConsistent-IsSafe, OnInvoices-IsSafe, begin_payment-Safe, settle_payment-Safe,
}
use payman.Http.{HttpReply}
use payman.Workers.Status.{PspOutcome, settle_reply, expire_attempt}
use payman.Workers.Safe.{settle_reply-Safe, expire_attempt-Safe}
use payman.Services.Versions.{Distinct, IsPast, IsPast-IsStable}
use payman.Services.Wins.{
  edit-Wins, edit-IsPast, finalize-Wins, finalize-IsPast, void-Wins, void-IsPast, begin-Wins,
  begin-IsPast,
}

module _ (lib : Libraries) where
  -- One step: a request runs to its end, or one of the two parts of an edit does, where other steps may
  -- come before the second; a payment begins or is settled, the worker on pending payments acts on a
  -- reply of the provider or lets an attempt expire, or time passes.
  pub data Step (w : World) : World → Type 0 where
    create :
        (business_id : Uuid) (req : CreateInvoiceRequest)
        → Step w (create_invoice business_id req w).1
    edit :
        (id business_id : Uuid) (req : EditInvoiceRequest)
        → Step w (edit_invoice id business_id req w).1
    lock : (id : Uuid) (versioning : ℤ) → Step w (lock_draft id versioning w).1
    edit_under_lock :
        (seen : LineItem → Bool) (id : Uuid) (req : EditInvoiceRequest)
        → Step w (transaction (edit_rows seen id req) w).1
    finalize :
        (id business_id : Uuid) (req : FinalizeInvoiceRequest)
        → Step w (finalize_invoice id business_id req w).1
    void :
        (id business_id : Uuid) (req : VoidInvoiceRequest)
        → Step w (void_invoice id business_id req w).1
    begin :
        (id business_id : Uuid) (key : String) (req : PayInvoiceRequest)
        → Step w (transaction (begin_payment lib id business_id key req) w).1
    settle :
        (result : PspResult) (attempt : PaymentAttempt) (id business_id : Uuid) (key : String)
        → Step w (settle_payment lib result attempt id business_id key w).1
    reconcile :
        (reply : HttpReply PspOutcome) (attempt_id invoice_id : Uuid) (retry_count : ℤ)
        → Step w (settle_reply reply attempt_id invoice_id retry_count w).1
    expire : (row : AttemptRow) → Step w (expire_attempt row w).1
    wait : (now : DateTime) → w.now ≤ now → Step w (record w { now = now })

  abbrev pub actor_of : {w w' : World} → Step w w' → Actor
  actor_of (create b req) = Actor.editor
  actor_of (edit id b req) = Actor.editor
  actor_of (lock id v) = Actor.editor
  actor_of (edit_under_lock seen id req) = Actor.editor
  actor_of (finalize id b req) = Actor.finalizer
  actor_of (void id b req) = Actor.voider
  actor_of (begin id b key req) = Actor.payer
  actor_of (settle result attempt id b key) = Actor.payer
  actor_of (reconcile reply a id n) = Actor.payer
  actor_of (expire row) = Actor.payer
  actor_of (wait now p) = Actor.clock

  pub data Reach (w : World) : World → Type 0 where
    here : Reach w w
    next : {u v : World} → Reach w u → Step u v → Reach w v

  -- Who took the steps of a run, the last one first.
  abbrev pub actors : {w w' : World} → Reach w w' → List Actor
  actors here = []
  actors (next run step) = actor_of step ∷ actors run

  -- The step is no edit whose `DELETE` overlaps another transaction that adds line items.
  abbrev pub IsApart : {w w' : World} → Step w w' → Type 0
  IsApart (create b req) = Unit
  IsApart (edit id b req) = Unit
  IsApart (lock id v) = Unit
  IsApart (edit_under_lock seen id req) = SeesAll seen
  IsApart (finalize id b req) = Unit
  IsApart (void id b req) = Unit
  IsApart (begin id b key req) = Unit
  IsApart (settle result attempt id b key) = Unit
  IsApart (reconcile reply a id n) = Unit
  IsApart (expire row) = Unit
  IsApart (wait now p) = Unit

  abbrev pub AllApart : {w w' : World} → Reach w w' → Type 0
  AllApart here = Unit
  AllApart (next run step) = AllApart run × IsApart step

  Step-IsConsistent :
      {w w' : World} (s : Step w w') → IsApart s → IsConsistent w.db → IsConsistent w'.db
  Step-IsConsistent {w} (create b req) _ h = (create_invoice-Keeps b req).at w h
  Step-IsConsistent {w} (edit id b req) _ h = (edit_invoice-Keeps id b req).at w h
  Step-IsConsistent {w} (lock id v) _ h = (lock_draft-Keeps id v).at w h
  Step-IsConsistent {w} (edit_under_lock seen id req) all h = (rewrite-Keeps seen id req all).at w h
  Step-IsConsistent {w} (finalize id b req) _ h = (finalize_invoice-Keeps id b req).at w h
  Step-IsConsistent {w} (void id b req) _ h = (void_invoice-Keeps id b req).at w h
  Step-IsConsistent {w} (begin id b key req) _ h =
      (transaction-Keeps _ _ (begin_payment-Safe _ IsConsistent-IsSafe lib id b key req)).at w h
  Step-IsConsistent {w} (settle result attempt id b key) _ h =
      (settle_payment-Safe _ IsConsistent-IsSafe lib result attempt id b key).at w h
  Step-IsConsistent {w} (reconcile reply a id n) _ h =
      (settle_reply-Safe _ IsConsistent-IsSafe reply a id n).at w h
  Step-IsConsistent {w} (expire row) _ h = (expire_attempt-Safe _ IsConsistent-IsSafe row).at w h
  Step-IsConsistent (wait now p) _ h = h

  -- From consistent tables a run leads to consistent tables, whatever requests and failures it has, if no
  -- edit deletes line items while another transaction is adding some that it does not see: each stored
  -- invoice carries the total of its stored line items, and each line item is positive and belongs to
  -- a stored invoice.
  pub Reach-IsConsistent :
      {w w' : World} → IsConsistent w.db → (run : Reach w w') → AllApart run → IsConsistent w'.db
  Reach-IsConsistent h here apart = h
  Reach-IsConsistent h (next r s) (apart, last) =
      Step-IsConsistent s last (Reach-IsConsistent h r apart)

  module _ (C : List Invoice → Type 0) (k : IsStable C) where
    kept : (a : Actor) → IsKept a C
    kept a = IsStable-IsKept a C k

    Step-Stable : {w w' : World} → Step w w' → C w.db.invoices → C w'.db.invoices
    Step-Stable {w} (create b req) h =
        (create_invoice-Kept _ (OnInvoices-Allows C (kept Actor.editor)) b req).at w h
    Step-Stable {w} (edit id b req) h =
        (edit_invoice-Kept _ (OnInvoices-Allows C (kept Actor.editor)) id b req).at w h
    Step-Stable {w} (lock id v) h =
        (lock_draft-Kept _ (OnInvoices-Allows C (kept Actor.editor)) id v).at w h
    Step-Stable {w} (edit_under_lock seen id req) h =
        (transaction-Keeps _ _
            (edit_rows-Kept _ (OnInvoices-Allows C (kept Actor.editor)) seen id req)).at
          w h
    Step-Stable {w} (finalize id b req) h =
        (finalize_invoice-Stable _ (exec_bump-Stable C k) id b req).at w h
    Step-Stable {w} (void id b req) h =
        (void_invoice-Stable _ (exec_bump-Stable C k) id b req).at w h
    Step-Stable {w} (begin id b key req) h =
        (transaction-Keeps _ _
            (begin_payment-Safe _ (OnInvoices-IsSafe C (kept Actor.payer)) lib id b key req)).at
          w h
    Step-Stable {w} (settle result attempt id b key) h =
        (settle_payment-Safe _ (OnInvoices-IsSafe C (kept Actor.payer)) lib result attempt id b
            key).at
          w h
    Step-Stable {w} (reconcile reply a id n) h =
        (settle_reply-Safe _ (OnInvoices-IsSafe C (kept Actor.payer)) reply a id n).at w h
    Step-Stable {w} (expire row) h =
        (expire_attempt-Safe _ (OnInvoices-IsSafe C (kept Actor.payer)) row).at w h
    Step-Stable (wait now p) h = h

    pub Reach-Stable : {w w' : World} → C w.db.invoices → Reach w w' → C w'.db.invoices
    Reach-Stable h here = h
    Reach-Stable h (next r s) = Step-Stable s (Reach-Stable h r)

  -- An operation on the invoice `id` that asked for the version `v` and succeeded.
  pub data Won (id : Uuid) (v : ℤ) (w w' : World) : Type 0 where
    edited :
        (business_id : Uuid) (req : EditInvoiceRequest) (r : InvoiceResult)
        → req.versioning ≡ v
        → edit_invoice id business_id req w ≡ (ok r, w')
        → Won id v w w'
    finalized :
        (business_id : Uuid) (req : FinalizeInvoiceRequest) (r : Invoice)
        → req.versioning ≡ v
        → finalize_invoice id business_id req w ≡ (ok r, w')
        → Won id v w w'
    voided :
        (business_id : Uuid) (req : VoidInvoiceRequest) (r : Invoice)
        → req.versioning ≡ v
        → void_invoice id business_id req w ≡ (ok r, w')
        → Won id v w w'
    claimed :
        (business_id : Uuid) (key : String) (req : PayInvoiceRequest) (a : PaymentAttempt)
        → req.versioning ≡ v
        → transaction (begin_payment lib id business_id key req) w ≡ (ok a, w')
        → Won id v w w'

  Won-IsPast :
      (id : Uuid) (v : ℤ) {w w' : World}
      → Distinct w.db.invoices
      → Won id v w w'
      → IsPast id v w'.db.invoices
  Won-IsPast id v {w} {w'} h (edited b req r e run) =
      subst (λ x. IsPast id x w'.db.invoices) e ((edit-Wins id b req).at _ r _ h run)
  Won-IsPast id v {w} {w'} h (finalized b req r e run) =
      subst (λ x. IsPast id x w'.db.invoices) e ((finalize-Wins id b req).at _ r _ h run)
  Won-IsPast id v {w} {w'} h (voided b req r e run) =
      subst (λ x. IsPast id x w'.db.invoices) e ((void-Wins id b req).at _ r _ h run)
  Won-IsPast id v {w} {w'} h (claimed b key req a e run) =
      subst (λ x. IsPast id x w'.db.invoices) e ((begin-Wins lib id b key req).at _ a _ h run)

  IsPast-lost : (id : Uuid) (v : ℤ) {w w' : World} → IsPast id v w.db.invoices → ¬ (Won id v w w')
  IsPast-lost id v {w} {w'} h (edited b req r e run) =
      (edit-IsPast id b req).at _ r _ (subst (λ x. IsPast id x w.db.invoices) (sym e) h) run
  IsPast-lost id v {w} {w'} h (finalized b req r e run) =
      (finalize-IsPast id b req).at _ r _ (subst (λ x. IsPast id x w.db.invoices) (sym e) h) run
  IsPast-lost id v {w} {w'} h (voided b req r e run) =
      (void-IsPast id b req).at _ r _ (subst (λ x. IsPast id x w.db.invoices) (sym e) h) run
  IsPast-lost id v {w} {w'} h (claimed b key req a e run) =
      (begin-IsPast lib id b key req).at _ a _ (subst (λ x. IsPast id x w.db.invoices) (sym e) h)
        run

  -- Once an edit, a finalization, a voiding or the start of a payment has succeeded at a version of
  -- an invoice, no such operation at that version ever succeeds again, whatever steps come between.
  pub Won_once :
      (id : Uuid) (v : ℤ) {w w₁ w₂ w₃ : World}
      → Distinct w.db.invoices
      → Won id v w w₁
      → Reach w₁ w₂
      → ¬ (Won id v w₂ w₃)
  Won_once id v h first between =
      IsPast-lost id v
        (Reach-Stable (IsPast id v) (IsPast-IsStable id v) (Won-IsPast id v h first) between)
