-- ===== src/System/Lifecycle.antt =====
-- The service refines the life of an invoice: whatever it does to its tables, an identifier goes through
-- the states of Services/Invoices/Lifecycle.
use payman.Workers.Safe.{settle_reply-Safe, expire_attempt-Safe}
use payman.Services.Lives.{Lives-IsKept, finalize_invoice-Lives, void_invoice-Lives}
use payman.Services.Invoices.Advance.{
  create_invoice-Kept, edit_invoice-Kept, lock_draft-Kept, edit_rows-Kept,
}
use payman.Services.Invoices.Stable.{Allows, OnInvoices, OnInvoices-Allows}
use payman.Services.Versions.{Distinct, Distinct-IsStable}
use payman.Services.Payments.Safe.{
  IsSafe, OnInvoices-IsSafe, begin_payment-Safe, settle_payment-Safe,
}
use payman.Store.{World, transaction-Keeps}
use payman.Libraries.{Libraries}
use payman.Models.{InvoiceState, Invoice, Uuid}
use payman.System.{
  Step, Reach, actor_of, actors, Libraries, World, Distinct, Reach-Stable, create_invoice-Kept,
  settle_reply-Safe, expire_attempt-Safe,
}
use payman.Services.Invoices.Lifecycle.{Actor, Life, Story, Moves, IsOutcome, Lives, view}
use payman.Prelude.{Option, none, some, List}

module _ (lib : Libraries) where
  module _ (before : List Invoice) where
    safe : IsSafe (OnInvoices (Lives Actor.payer before))
    safe = OnInvoices-IsSafe _ (Lives-IsKept Actor.payer before)

    allows : Allows (OnInvoices (Lives Actor.editor before))
    allows = OnInvoices-Allows _ (Lives-IsKept Actor.editor before)

    Step-Lives :
        {w w' : World} (s : Step lib w w')
        → Distinct w.db.invoices
        → Lives (actor_of lib s) before w.db.invoices
        → Lives (actor_of lib s) before w'.db.invoices
    Step-Lives {w} (Step.create b req) k h = (create_invoice-Kept _ allows b req).at w h
    Step-Lives {w} (Step.edit id b req) k h = (edit_invoice-Kept _ allows id b req).at w h
    Step-Lives {w} (Step.lock id v) k h = (lock_draft-Kept _ allows id v).at w h
    Step-Lives {w} (Step.edit_under_lock seen id req) k h =
        (transaction-Keeps _ _ (edit_rows-Kept _ allows seen id req)).at w h
    Step-Lives {w} (Step.finalize id b req) k h = finalize_invoice-Lives before id b req w k h
    Step-Lives {w} (Step.void id b req) k h = void_invoice-Lives before id b req w k h
    Step-Lives {w} (Step.begin id b key req) k h =
        (transaction-Keeps _ _ (begin_payment-Safe _ safe lib id b key req)).at w h
    Step-Lives {w} (Step.settle result attempt id b key) k h =
        (settle_payment-Safe _ safe lib result attempt id b key).at w h
    Step-Lives {w} (Step.reconcile reply a id n) k h =
        (settle_reply-Safe _ safe reply a id n).at w h
    Step-Lives {w} (Step.expire row) k h = (expire_attempt-Safe _ safe row).at w h
    Step-Lives (Step.wait now p) k h = h

  pub Reach-refines :
      {w w' : World} (id : Uuid)
      → Distinct w.db.invoices
      → (run : Reach lib w w')
      → Story (view id w.db.invoices) (actors lib run) (view id w'.db.invoices)
  Reach-refines id distinct Reach.here = Story.start
  Reach-refines id distinct (Reach.next {u} run step) = Story.next (Reach-refines id distinct run) (
      Step-Lives u.db.invoices step (Reach-Stable lib Distinct Distinct-IsStable distinct run)
        (λ other. Life.here) id)

-- An invoice that was issued.
abbrev pub IsIssued : Option InvoiceState → Type 0
IsIssued none = ⊥
IsIssued (some InvoiceState.draft) = ⊥
IsIssued (some InvoiceState.opened) = Unit
IsIssued (some InvoiceState.paid) = Unit
IsIssued (some InvoiceState.void) = ⊥
IsIssued (some InvoiceState.uncollectible) = ⊥
IsIssued (some InvoiceState.processing) = Unit

Moves-IsIssued :
    {a : Actor} {s t : InvoiceState} → IsIssued (some s) → Moves a s t → IsIssued (some t)
Moves-IsIssued h Moves.stay = h
Moves-IsIssued h Moves.finalize = tt
Moves-IsIssued h Moves.void = absurd h
Moves-IsIssued h Moves.claim = tt
Moves-IsIssued h (Moves.settle IsOutcome.paid) = tt
Moves-IsIssued h (Moves.settle IsOutcome.opened) = tt

Life-IsIssued : {a : Actor} {x y : Option InvoiceState} → IsIssued x → Life a x y → IsIssued y
Life-IsIssued h Life.here = h
Life-IsIssued h (Life.issue by life) = absurd (Life-IsIssued h life)
Life-IsIssued h (Life.move life m) = Moves-IsIssued (Life-IsIssued h life) m

Story-IsIssued :
    {x : Option InvoiceState} {actors : List Actor} {y : Option InvoiceState}
    → IsIssued x
    → Story x actors y
    → IsIssued y
Story-IsIssued h Story.start = h
Story-IsIssued h (Story.next story life) = Life-IsIssued (Story-IsIssued h story) life

-- Once an invoice is open, in `Processing` or paid, it is so for ever: no request and no worker deletes
-- it, voids it, or makes it a draft again. The identifiers of the stored invoices are distinct at
-- first.
pub Reach-IsIssued :
    (lib : Libraries) {w w' : World} (id : Uuid)
    → Distinct w.db.invoices
    → IsIssued (view id w.db.invoices)
    → Reach lib w w'
    → IsIssued (view id w'.db.invoices)
Reach-IsIssued lib id distinct issued run =
    Story-IsIssued issued (Reach-refines lib id distinct run)
