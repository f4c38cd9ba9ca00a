-- ===== src/Services/Payments/Responses.antt =====
-- What `pay_invoice` of src/services/payments.rs leaves stored under its key.
use payman.Services.Invoices.Statements.{bump_invoices, update_invoices}
use payman.Prelude.{
  ◌≡◌, refl, ◌∙◌, Bool, true, false, some, List, ◌&&◌, String, exists, All, exists-update,
  Bool-cases, inl, inr, arith, eq_refl, All-update_of, not_both, exists-last,
}
use payman.Prelude.Int.{ℤ, pos, eqb_ℤ}
use payman.Models.{
  Uuid, Json, DateTime, Invoice, InvoiceState, AttemptRow, PaymentAttempt, IdempotencyRow,
  PayInvoiceRequest, PspResult,
}
use payman.Errors.{ok}
use payman.Libraries.{Libraries}
use payman.Store.{
  Db, Action, Ensures, Ensures-or_raise, Ensures-skip, utc_now-IsReading, new_v4-IsReading,
  Ensures-bind, Ensures-exec, db_of, insert-eq-ok, Ensures-pure, Keeps, transaction, Keeps-Ensures,
  IsReading, spawn-IsReading, reading_rules, rows_affected, exec, Ensures-transaction, exec-Keeps,
  keeps_rules,
}
use payman.Services.Payments.Charge.{Psp}
use payman.Services.Payments.Statements.{key_matches, insert_key, update_keys, update_attempts}
use payman.Services.Payments.Begin.{new_key, write_attempt, begin_payment}
use payman.Services.Payments.Settle.{store_response, record_outcome, require_rows, settle_payment}
use payman.Services.Payments.Pay.{await_psp, pay_fresh}
use payman.Services.Payments.Safe.{PspKeeps}

key_matches_self :
    (row : IdempotencyRow) → key_matches row.key row.business_id row.invoice_id row ≡ true
key_matches_self row = rw (eq_refl row.key) (ground arith)

require_rows-IsReading : (b : Bool) → IsReading (require_rows b)
unfolding require_rows
require_rows-IsReading true = search reading_rules
require_rows-IsReading false = search reading_rules

module _ (lib : Libraries) (key : String) (business_id id : Uuid) where
  -- The key is stored.
  abbrev pub HasKey : Db → Type 0
  HasKey d = exists (key_matches key business_id id) d.idempotency_keys ≡ true

  -- It is stored with the text of `a` as its response.
  abbrev pub HasResponse : PaymentAttempt → Db → Type 0
  HasResponse a d =
      (j : Json) × (lib.to_value a ≡ some j)
      × (exists (key_matches key business_id id) d.idempotency_keys ≡ true)
      × All (λ r. key_matches key business_id id r ≡ true → r.response_body ≡ j) d.idempotency_keys

  exec_bump-HasKey :
      (p : Invoice → Bool) (f : Invoice → Invoice) → Keeps HasKey (exec (bump_invoices p f))
  unfolding bump_invoices update_invoices
  exec_bump-HasKey p f = exec-Keeps _ _ (λ d h.
      elim (Bool-cases (exists (λ r. p r && eqb_ℤ r.versioning (pos 2_147_483_647)) d.invoices)) [
        | inl e ↦ rw e h
        | inr e ↦ rw e h
      ])

  update_attempts-HasKey :
      (attempt_id : Uuid) (f : AttemptRow → AttemptRow)
      → Keeps HasKey (exec (update_attempts attempt_id f))
  unfolding update_attempts
  update_attempts-HasKey attempt_id f = exec-Keeps _ _ (λ d h. h)

  update_keys-HasResponse :
      (a : PaymentAttempt) (j : Json) (status : ℤ) (now : DateTime) (d : Db)
      → lib.to_value a ≡ some j
      → HasKey d
      → HasResponse a
          (update_keys key business_id id
            (λ r. record r { response_body = j; response_status = some status; updated_at = now })
            d).1
  unfolding update_keys
  update_keys-HasResponse a j status now d e h =
      let p = key_matches key business_id id in
      let f : IdempotencyRow → IdempotencyRow =
        λ r. record r { response_body = j; response_status = some status; updated_at = now } in
      (
        j,
        e,
        exists-update p p f d.idempotency_keys (λ r. refl) ∙ h,
        All-update_of (λ r. p r ≡ true → r.response_body ≡ j) p f d.idempotency_keys (λ r t _. refl)
            (λ r t u. absurd (not_both _ t u)),
      )

  store_response-Ensures :
      (status : ℤ) (a : PaymentAttempt)
      → Ensures HasKey (store_response lib key business_id id status a) (λ _. HasResponse a)
  unfolding store_response
  store_response-Ensures status a = Ensures-or_raise _ _ (lib.to_value a) _ _ λ j e.
      Ensures-skip _ _ _ _ utc_now-IsReading λ now.
        Ensures-bind _ _ (λ _. HasResponse a) _ _
          (Ensures-exec _ _ _
            λ d rows d' h run. rw (← db_of _ run) (update_keys-HasResponse a j status now d e h))
          λ _. Ensures-pure _ _ _ λ d h. h

  insert_key-HasKey :
      (row : IdempotencyRow) (d : Db) {rows : List IdempotencyRow} {d' : Db}
      → row.key ≡ key
      → row.business_id ≡ business_id
      → row.invoice_id ≡ id
      → insert_key row d ≡ (ok rows, d')
      → HasKey d'
  unfolding insert_key
  insert_key-HasKey row d h k l run =
      let (_, _, same) = insert-eq-ok row _ _ d run in
      rw (same, ← h, ← k, ← l) (exists-last _ d.idempotency_keys row (key_matches_self row))

  new_key-Ensures :
      (body : Json) → Ensures (λ _. Unit {0}) (new_key lib key business_id id body) (λ _. HasKey)
  unfolding new_key
  new_key-Ensures body = Ensures-skip _ _ _ _ new_v4-IsReading λ fresh.
      Ensures-skip _ _ _ _ utc_now-IsReading λ now.
        Ensures-bind _ _ (λ _. HasKey) _ _
          (Ensures-exec _ _ _ λ d rows d' _ run. insert_key-HasKey _ d refl refl refl run)
          λ _. Ensures-pure _ _ _ λ d h. h

  any_run : {A : Type 0} (m : Action A) → Ensures (λ _. Unit {0}) m (λ _ _. Unit {0})
  any_run m = record { at = λ w a w' _ _. tt }

  begin_payment-Ensures :
      (req : PayInvoiceRequest)
      → Ensures
          (λ _. Unit {0})
          (transaction (begin_payment lib id business_id key req))
          (λ _. HasKey)
  unfolding begin_payment write_attempt
  begin_payment-Ensures req = Ensures-transaction _ _ _ (
      Ensures-bind _ _ _ _ _ (any_run _) λ _. Ensures-bind _ _ _ _ _ (any_run _) λ attempt.
        Ensures-or_raise _ _ (lib.to_value attempt) _ _ λ body e.
          Ensures-bind _ _ (λ _. HasKey) _ _ (new_key-Ensures body)
            λ _. Ensures-pure _ _ _ λ d h. h)

  bump-HasKey :
      (p : Invoice → Bool) (f : Invoice → Invoice)
      → Keeps HasKey (rows_affected (exec (bump_invoices p f)))
  bump-HasKey p f = search (keeps_rules, exec_bump-HasKey)

  record_outcome-Ensures :
      (mark : DateTime → PaymentAttempt → PaymentAttempt) (target : InvoiceState)
      (attempt_id : Uuid)
      → Ensures HasKey
          (transaction (record_outcome lib mark target attempt_id id business_id key))
          HasResponse
  unfolding record_outcome
  record_outcome-Ensures mark target attempt_id = Ensures-transaction _ _ _ (
      Ensures-skip _ _ _ _ utc_now-IsReading λ now.
        Ensures-bind _ _ (λ _. HasKey) _ _
          (Keeps-Ensures _ _ (search (keeps_rules, update_attempts-HasKey)))
          λ row.
            Ensures-bind _ _ (λ _. HasKey) _ _ (Keeps-Ensures _ _ (bump-HasKey _ _))
              λ n. Ensures-skip _ _ _ _ (require_rows-IsReading _) λ _.
                Ensures-bind _ _ (λ _. HasResponse row.attempt) _ _
                  (store_response-Ensures _ row.attempt) λ _. Ensures-pure _ _ _ λ d h. h)

  settle_payment-Ensures :
      (result : PspResult) (attempt : PaymentAttempt)
      → Ensures HasKey (settle_payment lib result attempt id business_id key) HasResponse
  unfolding settle_payment
  settle_payment-Ensures (PspResult.succeeded r) attempt =
      Ensures-bind _ _ _ _ _ (record_outcome-Ensures _ _ _)
        λ a. Ensures-skip _ _ _ _ (spawn-IsReading _) λ _. Ensures-pure _ _ _ λ d h. h
  settle_payment-Ensures (PspResult.failed c) attempt =
      Ensures-bind _ _ _ _ _ (record_outcome-Ensures _ _ _)
        λ a. Ensures-skip _ _ _ _ (spawn-IsReading _) λ _. Ensures-pure _ _ _ λ d h. h
  settle_payment-Ensures PspResult.timed_out attempt =
      Ensures-bind _ _ (λ _. HasResponse attempt) _ _ (store_response-Ensures _ attempt)
        λ _. Ensures-pure _ _ _ λ d h. h
  settle_payment-Ensures PspResult.network_error attempt =
      Ensures-bind _ _ (λ _. HasResponse attempt) _ _ (store_response-Ensures _ attempt)
        λ _. Ensures-pure _ _ _ λ d h. h

  -- A payment that was made under a fresh key, whatever its outcome, leaves that outcome stored.
  pub pay_fresh-Ensures :
      (psp : Psp)
      → PspKeeps psp HasKey
      → (req : PayInvoiceRequest)
      → Ensures (λ _. Unit {0}) (pay_fresh lib psp id business_id key req) HasResponse
  unfolding pay_fresh await_psp
  pay_fresh-Ensures psp quiet req = Ensures-bind _ _ _ _ _ (begin_payment-Ensures req) λ attempt.
      Ensures-bind _ _ (λ _. HasKey) _ _ (Keeps-Ensures _ _ (record { at = λ w h. quiet.at _ w h }))
        λ result. settle_payment-Ensures result attempt
