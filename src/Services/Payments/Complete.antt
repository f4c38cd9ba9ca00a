-- ===== src/Services/Payments/Complete.antt =====
-- While the database answers and the provider accepts the charge, `pay_invoice` of
-- src/services/payments.rs pays the invoice.
use payman.Services.Payments.Begin.{begin_payment}
use payman.Services.Payments.Progress.{
  CanBegin, first_attempt, after_key, after_attempt, after_claim, claimed_row,
  begin_payment-succeeds, attempt_row, settle_room,
}
use payman.Prelude.Int.{eqb_ℤ, pos}
use payman.Errors.{ok}
use payman.Services.Invoices.Statements.{bump_invoices, update_invoices, bump}
use payman.Services.Payments.Statements.{update_attempts, update_keys, key_matches, recent_keys}
use payman.Store.{◌>>=◌, Action, World, unfailing, transaction, Db}
use payman.Libraries.{Libraries}
use payman.Models.{
  AttemptRow, Uuid, DateTime, PaymentAttempt, InvoiceState, Json, Invoice, paid, PspResult,
  PayInvoiceRequest, PspChargeRequest,
}
use payman.Http.{HttpReply}
use payman.Services.Payments.Pay.{pay_invoice, pay_fresh, await_psp}
use payman.Services.Payments.Charge.{call_psp, read_reply, read_charge, Psp}
use payman.Prelude.{
  arith, ◌&&◌, refl, false, List, [], ◌∷◌, some, ◌≡◌, ◌==◌, ◌+◌, String, select, exists, head?, ℕ,
  update, ◌++◌, true, select_none, Bool-cases, none, inl, All-imp, All-not_exists, All, inr,
  All-update_of, not_both, head-map, length-map-some,
}
use payman.Services.Payments.Settle.{
  record_outcome, store_response, require_rows, on_attempt, mark_succeeded, settle_payment,
}

transaction-succeeds :
    {A : Type 0} (m : Action A) (w w₁ : World) {a : A}
    → m (unfailing (record w { statements = w.statements + 1 })) ≡ (ok a, unfailing w₁)
    → transaction m (unfailing w) ≡ (ok a, unfailing (record w₁ { statements = w₁.statements + 1 }))
unfolding ◌>>=◌
transaction-succeeds m w w₁ run = rw run refl

three_more : (n : ℕ) → n + 1 + 1 + 1 ≡ n + 3
three_more n = omega arith

module _ (lib : Libraries) (id business_id : Uuid) (key : String) where
  abbrev to_state : InvoiceState → DateTime → Invoice → Invoice
  to_state target now = bump (λ x. record x { state = target; updated_at = now })

  -- The tables after an outcome was recorded.
  abbrev recorded :
      (DateTime → PaymentAttempt → PaymentAttempt) → InvoiceState → Uuid → Json → DateTime → Db → Db
  recorded mark target attempt_id body now d = record d {
    payment_attempts =
        update (λ x. x.attempt.id == attempt_id) (on_attempt (mark now)) d.payment_attempts;
    invoices = update (λ x. x.id == id) (to_state target now) d.invoices;
    idempotency_keys =
        update (key_matches key business_id id)
          (λ x. record x {
            response_body = body;
            response_status = some (pos 200);
            updated_at = now;
          })
          d.idempotency_keys;
  }

  record_outcome-succeeds :
      (mark : DateTime → PaymentAttempt → PaymentAttempt) (target : InvoiceState)
      (attempt_id : Uuid) (body : Json) (w : World) {row : AttemptRow} {r : Invoice}
      → head? (select (λ x. x.attempt.id == attempt_id) w.db.payment_attempts) ≡ some row
      → head? (select (λ x. x.id == id) w.db.invoices) ≡ some r
      → exists (λ x. x.id == id && eqb_ℤ x.versioning (pos 2_147_483_647)) w.db.invoices ≡ false
      → lib.to_value (mark w.now row.attempt) ≡ some body
      → record_outcome lib mark target attempt_id id business_id key (unfailing w) ≡ (
        ok (mark w.now row.attempt),
        unfailing (record w {
          db = recorded mark target attempt_id body w.now w.db;
          statements = w.statements + 3;
        }),
      )
  unfolding record_outcome update_attempts bump_invoices update_invoices require_rows ◌>>=◌
      store_response update_keys
  record_outcome-succeeds mark target attempt_id body w stored found last written =
      rw
        (
          head-map (on_attempt (mark w.now)) _ stored,
          last,
          length-map-some (to_state target w.now) _ found,
          written,
          three_more w.statements,
        )
        refl

  abbrev settled_world : String → Uuid → Json → World → World
  settled_world psp_ref attempt_id body w = record (unfailing w) {
    db = recorded (mark_succeeded psp_ref) paid attempt_id body w.now w.db;
    statements = w.statements + 1 + 3 + 1;
    tasks =
        w.tasks
        ++ record { business_id = business_id; invoice_id = id; event_type = "invoice.paid" } ∷ [];
  }

  settle_payment-succeeds :
      (psp_ref : String) (attempt : PaymentAttempt) (body : Json) (w : World) {row : AttemptRow}
      {r : Invoice}
      → head? (select (λ x. x.attempt.id == attempt.id) w.db.payment_attempts) ≡ some row
      → head? (select (λ x. x.id == id) w.db.invoices) ≡ some r
      → exists (λ x. x.id == id && eqb_ℤ x.versioning (pos 2_147_483_647)) w.db.invoices ≡ false
      → lib.to_value (mark_succeeded psp_ref w.now row.attempt) ≡ some body
      → settle_payment lib (PspResult.succeeded psp_ref) attempt id business_id key (unfailing w)
        ≡ (ok (mark_succeeded psp_ref w.now row.attempt), settled_world psp_ref attempt.id body w)
  unfolding settle_payment ◌>>=◌
  settle_payment-succeeds psp_ref attempt body w stored found last written =
      rw
        (transaction-succeeds _ w
          (record w {
            db = recorded (mark_succeeded psp_ref) paid attempt.id body w.now w.db;
            statements = w.statements + 1 + 3;
          })
          (record_outcome-succeeds (mark_succeeded psp_ref) paid attempt.id body
            (record w { statements = w.statements + 1 }) stored found last written))
        refl

-- The provider accepts every charge at once, with this reference, and nothing else runs meanwhile.
pub record Accepts (psp : Psp) (psp_ref : String) : Type 0 where
  pub at :
      (req : PspChargeRequest) (w : World)
      → psp.charge req w ≡ (
        HttpReply.response 200
            (some (record { status = "succeeded"; psp_ref = some psp_ref; code = none })),
        w,
      )

unused-recent :
    (key : String) (business_id id : Uuid) (now : DateTime) (d : Db)
    → exists (key_matches key business_id id) d.idempotency_keys ≡ false
    → recent_keys key business_id id now d ≡ []
unused-recent key business_id id now d unused = select_none _ d.idempotency_keys (
    All-imp _ _ d.idempotency_keys (λ r h. rw h refl)
      (All-not_exists (key_matches key business_id id) d.idempotency_keys unused))

last_attempt :
    (id : Uuid) (rows : List AttemptRow) (row : AttemptRow)
    → row.attempt.id ≡ id
    → exists (λ r. r.attempt.id == id) rows ≡ false
    → head? (select (λ r. r.attempt.id == id) (rows ++ row ∷ [])) ≡ some row
last_attempt id [] row e fresh =
    let same : (row.attempt.id == id) ≡ true = ground (arith, e) in rw same refl
last_attempt id (x ∷ rows) row e fresh = elim (Bool-cases (x.attempt.id == id)) [
  | inl k ↦ absurd (ground (arith, fresh))
  | inr k ↦ rw k (last_attempt id rows row e (ground (arith, fresh)))
]

module _ (lib : Libraries) (psp : Psp) (id business_id : Uuid) (key : String)
    (req : PayInvoiceRequest) where
  -- While no statement fails and the provider accepts the charge, a request that can begin pays: it
  -- returns the attempt, marked as succeeded with the reference of the provider, and every row of the
  -- invoice is `Paid`. Nothing else runs meanwhile, and both texts of the attempt can be written.
  pub pay_invoice-pays :
      (psp_ref : String) (body final_body : Json) (w : World)
      → Accepts psp psp_ref
      → CanBegin lib id business_id key req body w
      → lib.to_value (mark_succeeded psp_ref w.now (first_attempt id req.card_token w))
        ≡ some final_body
      → (w' : World) × (pay_invoice lib psp id business_id key req (unfailing w)
          ≡ (ok (mark_succeeded psp_ref w.now (first_attempt id req.card_token w)), w'))
        × All (λ r. (r.id == id) ≡ true → r.state ≡ paid) w'.db.invoices
  unfolding pay_invoice pay_fresh await_psp call_psp read_reply read_charge ◌>>=◌
  pay_invoice-pays psp_ref body final_body w accepts can written =
      let w₁ : World = record w { statements = w.statements + 1 } in
      let w₂ : World = record w { statements = w.statements + 1 + 1 } in
      let begins : CanBegin lib id business_id key req body w₂ = record {
        invoice = can.invoice;
        found = can.found;
        has_room = can.has_room;
        fresh_attempt = can.fresh_attempt;
        fresh_key = can.fresh_key;
        unused = can.unused;
        business = can.business;
        written = can.written;
      } in
      let after : World =
        after_key lib id business_id key req body
          (after_attempt lib id business_id key req (after_claim lib id business_id key req w₂)) in
      let w₃ : World = record after { statements = after.statements + 1 } in
      let a = first_attempt id req.card_token w in
      let (row, found) = claimed_row id req.versioning w.now w.db.invoices can.found in
      let begun =
        transaction-succeeds (begin_payment lib id business_id key req) w₁ after
          (begin_payment-succeeds lib id business_id key req body w₂ begins) in
      let settled =
        settle_payment-succeeds lib id business_id key psp_ref a final_body w₃
          (last_attempt a.id w.db.payment_attempts (attempt_row a) refl can.fresh_attempt) found
          (settle_room id req.versioning w.now w.db.invoices can.has_room) written in
      (
        settled_world lib id business_id key psp_ref a.id final_body w₃,
        rw
            (
              unused-recent key business_id id w.now w.db can.unused,
              begun,
              accepts.at
                  (record { card_token = req.card_token; attempt_id = lib.uuid_to_string a.id })
                  (unfailing w₃),
            )
            settled,
        All-update_of (λ r. (r.id == id) ≡ true → r.state ≡ paid) (λ r. r.id == id) _ _
            (λ r e _. refl) (λ r e t. absurd (not_both _ e t)),
      )
