-- ===== src/Services/Payments/Safe.antt =====
-- What the payment code keeps: any predicate that the updates of the table invoices keep, if they
-- leave identifiers and totals alone, and that the changes to the other tables keep (Elsewhere).
use payman.Services.Invoices.Lifecycle.{Actor, IsOutcome, Moves}
use payman.Services.Elsewhere.{Elsewhere, Elsewhere-invoices, Elsewhere-line_items, SparesKey}
use payman.Models.{
  eq_state, draft, opened, processing, Uuid, Json, DateTime, InvoiceState, Invoice, AttemptRow,
  IdempotencyRow, PaymentAttempt, PayInvoiceRequest, PspChargeRequest, PspResult,
}
use payman.Prelude.Int.{eqb_ℤ, ℤ}
use payman.Prelude.{
  subst, sym, ◌==◌, ◌&&◌, arith, ◌≡◌, refl, String, Bool, true, false, Option, none, some, List,
}
use payman.Libraries.{Libraries}
use payman.Store.{Db, World, Keeps, keeps_rules, exec, exec-Keeps, transaction-Keeps, insert_cases}
use payman.Services.Invoices.Statements.{update_invoices, bump_invoices}
use payman.Services.Invoices.Consistent.{IsConsistent}
use payman.Services.Invoices.Updates.{exec_update-Keeps, exec_bump-Keeps}
use payman.Services.Invoices.Stable.{IsKept, OnInvoices, exec_update-Kept, exec_bump-Kept, MovesBy}
use payman.Services.Payments.Statements.{insert_attempt, update_attempts, insert_key, update_keys}
use payman.Services.Payments.Charge.{Psp}
use payman.Services.Payments.Begin.{
  claim_invoice, new_attempt, new_key, write_attempt, begin_payment,
}
use payman.Services.Payments.Settle.{require_rows, store_response, record_outcome, settle_payment}
use payman.Services.Payments.Pay.{await_psp, pay_fresh, pay_invoice, replay_or_pay}

-- The settings leave all but the state and the time of the update alone.
abbrev pub SparesRow : (Invoice → Invoice) → Type 0
SparesRow f =
    (r : Invoice)
    → ((f r).id ≡ r.id) × ((f r).total_cents ≡ r.total_cents) × ((f r).versioning ≡ r.versioning)

pub record IsSafe (P : Db → Type 0) : Type 1 where
  pub updates :
      (p : Invoice → Bool) (f : Invoice → Invoice)
      → SparesRow f
      → MovesBy Actor.payer p f
      → Keeps P (exec (update_invoices p f))
  pub bumps :
      (p : Invoice → Bool) (f : Invoice → Invoice)
      → SparesRow f
      → MovesBy Actor.payer p f
      → Keeps P (exec (bump_invoices p f))
  pub elsewhere : (d d' : Db) → Elsewhere d d' → P d → P d'

pub IsConsistent-IsSafe : IsSafe IsConsistent
IsConsistent-IsSafe = record {
  updates = λ p f k _. exec_update-Keeps p f (λ r. ((k r).0, (k r).1));
  bumps = λ p f k _. exec_bump-Keeps p f (λ r. ((k r).0, (k r).1));
  elsewhere = λ d d' e h.
      let same = Elsewhere-invoices e in
      let lines = Elsewhere-line_items e in
      record {
        totals = rw (same, lines) h.totals;
        owned = rw (same, lines) h.owned;
        charged = rw lines h.charged;
      };
}

pub OnInvoices-IsSafe : (C : List Invoice → Type 0) → IsKept Actor.payer C → IsSafe (OnInvoices C)
OnInvoices-IsSafe C s = record {
  updates = λ p f k moves. exec_update-Kept _ C s p f (λ r. ((k r).0, (k r).2)) moves;
  bumps = λ p f k moves. exec_bump-Kept _ C s p f (λ r. (k r).0) moves;
  elsewhere = λ d d' e h. let same = Elsewhere-invoices e in rw same h;
}

opened_of_test : (s : InvoiceState) → eq_state s opened ≡ true → s ≡ opened
opened_of_test draft h = cc
opened_of_test opened h = refl
opened_of_test InvoiceState.paid h = cc
opened_of_test InvoiceState.void h = cc
opened_of_test InvoiceState.uncollectible h = cc
opened_of_test InvoiceState.processing h = cc

-- A claim finds an open invoice.
claim-Moves :
    (id : Uuid) (versioning : ℤ) (now : DateTime)
    → MovesBy Actor.payer
        (λ r. r.id == id && eq_state r.state opened && eqb_ℤ r.versioning versioning)
        (λ r. record r { state = processing; updated_at = now })
claim-Moves id versioning now r h =
    subst (λ s. Moves Actor.payer s processing) (sym (opened_of_test r.state (ground (arith, h))))
      Moves.claim

-- Other requests, which run while this one waits for the provider, keep the predicate.
pub record PspKeeps (psp : Psp) (P : Db → Type 0) : Type 0 where
  pub at : (req : PspChargeRequest) (w : World) → P w.db → P (psp.charge req w).1.db

module _ (P : Db → Type 0) (s : IsSafe P) where
  insert_attempt-Safe : (row : AttemptRow) → Keeps P (exec (insert_attempt row))
  unfolding insert_attempt
  insert_attempt-Safe row = exec-Keeps _ _ λ d h.
      insert_cases P row _ _ d h λ _. s.elsewhere d _ (Elsewhere.other _ refl refl refl refl refl) h

  insert_key-Safe : (row : IdempotencyRow) → Keeps P (exec (insert_key row))
  unfolding insert_key
  insert_key-Safe row = exec-Keeps _ _ λ d h.
      insert_cases P row _ _ d h
        λ checked. s.elsewhere d _ (Elsewhere.add_key row (ground (arith, checked.1.0))) h

  pub update_attempts-Safe :
      (id : Uuid) (f : AttemptRow → AttemptRow) → Keeps P (exec (update_attempts id f))
  unfolding update_attempts
  update_attempts-Safe id f =
      exec-Keeps _ _ (λ d h. s.elsewhere d _ (Elsewhere.other _ refl refl refl refl refl) h)

  update_keys-Safe :
      (key : String) (business_id invoice_id : Uuid) (f : IdempotencyRow → IdempotencyRow)
      → SparesKey f
      → Keeps P (exec (update_keys key business_id invoice_id f))
  unfolding update_keys
  update_keys-Safe key business_id invoice_id f k =
      exec-Keeps _ _ (λ d h. s.elsewhere d _ (Elsewhere.set_keys _ f k) h)

  pub exec_bump-Safe :
      (p : Invoice → Bool) (f : Invoice → Invoice)
      → SparesRow f
      → MovesBy Actor.payer p f
      → Keeps P (exec (bump_invoices p f))
  exec_bump-Safe = s.bumps

  pub exec_update-Safe :
      (p : Invoice → Bool) (f : Invoice → Invoice)
      → SparesRow f
      → MovesBy Actor.payer p f
      → Keeps P (exec (update_invoices p f))
  exec_update-Safe = s.updates

  ruleset safe_rules = (
    keeps_rules, insert_attempt-Safe, insert_key-Safe, update_attempts-Safe, update_keys-Safe,
    exec_bump-Safe, Moves.settle, claim-Moves,
  )

  claim_invoice-Safe : (id : Uuid) (versioning : ℤ) → Keeps P (claim_invoice id versioning)
  unfolding claim_invoice
  claim_invoice-Safe id versioning = search safe_rules

  new_attempt-Safe : (id : Uuid) (card_token : String) → Keeps P (new_attempt id card_token)
  unfolding new_attempt
  new_attempt-Safe id card_token = search safe_rules depth 9

  require_rows-Safe : (b : Bool) → Keeps P (require_rows b)
  unfolding require_rows
  require_rows-Safe true = search safe_rules
  require_rows-Safe false = search safe_rules

  module _ (lib : Libraries) where
    new_key-Safe :
        (key : String) (business_id invoice_id : Uuid) (body : Json)
        → Keeps P (new_key lib key business_id invoice_id body)
    unfolding new_key
    new_key-Safe key business_id invoice_id body = search safe_rules depth 9

    pub write_attempt-Safe :
        (invoice_id business_id : Uuid) (key : String) (req : PayInvoiceRequest)
        → Keeps P (write_attempt lib invoice_id business_id key req)
    unfolding write_attempt
    write_attempt-Safe invoice_id business_id key req =
        search (safe_rules, new_attempt-Safe, new_key-Safe) depth 9

    pub begin_payment-Safe :
        (invoice_id business_id : Uuid) (key : String) (req : PayInvoiceRequest)
        → Keeps P (begin_payment lib invoice_id business_id key req)
    unfolding begin_payment
    begin_payment-Safe invoice_id business_id key req =
        search (safe_rules, claim_invoice-Safe, write_attempt-Safe)

    store_response-Safe :
        (key : String) (business_id invoice_id : Uuid) (status : ℤ) (attempt : PaymentAttempt)
        → Keeps P (store_response lib key business_id invoice_id status attempt)
    unfolding store_response
    store_response-Safe key business_id invoice_id status attempt = search safe_rules depth 9

    record_outcome-Safe :
        (mark : DateTime → PaymentAttempt → PaymentAttempt) (target : InvoiceState)
        (attempt_id invoice_id business_id : Uuid) (key : String)
        → IsOutcome target
        → Keeps P (record_outcome lib mark target attempt_id invoice_id business_id key)
    unfolding record_outcome
    record_outcome-Safe mark target attempt_id invoice_id business_id key outcome =
        search (safe_rules, require_rows-Safe, store_response-Safe) depth 9

    pub settle_payment-Safe :
        (result : PspResult) (attempt : PaymentAttempt) (invoice_id business_id : Uuid)
        (key : String)
        → Keeps P (settle_payment lib result attempt invoice_id business_id key)
    unfolding settle_payment
    settle_payment-Safe (PspResult.succeeded r) attempt invoice_id business_id key =
        search (safe_rules, transaction-Keeps, record_outcome-Safe, IsOutcome.paid)
    settle_payment-Safe (PspResult.failed c) attempt invoice_id business_id key =
        search (safe_rules, transaction-Keeps, record_outcome-Safe, IsOutcome.opened)
    settle_payment-Safe PspResult.timed_out attempt invoice_id business_id key =
        search (safe_rules, store_response-Safe)
    settle_payment-Safe PspResult.network_error attempt invoice_id business_id key =
        search (safe_rules, store_response-Safe)

    module _ (psp : Psp) (quiet : PspKeeps psp P) where
      await_psp-Safe :
          (attempt_id card_token : String) → Keeps P (await_psp psp attempt_id card_token)
      unfolding await_psp
      await_psp-Safe attempt_id card_token = record { at = λ w h. quiet.at _ w h }

      pay_fresh-Safe :
          (invoice_id business_id : Uuid) (key : String) (req : PayInvoiceRequest)
          → Keeps P (pay_fresh lib psp invoice_id business_id key req)
      unfolding pay_fresh
      pay_fresh-Safe invoice_id business_id key req =
          search
            (safe_rules, transaction-Keeps, begin_payment-Safe, await_psp-Safe, settle_payment-Safe)
            depth 9

      replay_or_pay-Safe :
          (stored : Option IdempotencyRow) (invoice_id business_id : Uuid) (key : String)
          (req : PayInvoiceRequest)
          → Keeps P (replay_or_pay lib psp stored invoice_id business_id key req)
      replay_or_pay-Safe none invoice_id business_id key req =
          pay_fresh-Safe invoice_id business_id key req
      replay_or_pay-Safe (some stored) invoice_id business_id key req = search safe_rules

      pub pay_invoice-Safe :
          (invoice_id business_id : Uuid) (key : String) (req : PayInvoiceRequest)
          → Keeps P (pay_invoice lib psp invoice_id business_id key req)
      unfolding pay_invoice
      pay_invoice-Safe invoice_id business_id key req = search (safe_rules, replay_or_pay-Safe)
