-- ===== src/Services/Payments/Replay.antt =====
-- Idempotency of `pay_invoice` of src/services/payments.rs: what a repeated request returns.
use payman.Prelude.{
  ◌≡◌, refl, true, false, none, some, ◌&&◌, ◌+◌, String, head?, All, All-imp, first_passing,
  and_true, and_left,
}
use payman.Models.{Uuid, PaymentAttempt, IdempotencyRow, PayInvoiceRequest}
use payman.Errors.{ok}
use payman.Libraries.{Libraries, RoundTrips}
use payman.Store.{World, ◌>>=◌, >>=-eq-ok, utc_now-eq-ok, query-eq-ok, pure-eq-ok}
use payman.Services.Payments.Charge.{Psp}
use payman.Services.Payments.Statements.{recent_keys, key_matches, is_recent}
use payman.Services.Payments.Pay.{pay_fresh, pay_invoice}
use payman.Services.Payments.Safe.{PspKeeps}
use payman.Services.Payments.Responses.{HasKey, pay_fresh-Ensures}

-- A request whose key was stored in the last 24 hours returns the stored response. It reads once and
-- does nothing else: no table changes, and the provider is not called.
pub pay_invoice-replay :
    (lib : Libraries) (psp : Psp) (id business_id : Uuid) (key : String) (req : PayInvoiceRequest)
    (w : World) (stored : IdempotencyRow) (a : PaymentAttempt)
    → w.faults w.statements ≡ false
    → head? (recent_keys key business_id id w.now w.db) ≡ some stored
    → lib.from_value stored.response_body ≡ some a
    → pay_invoice lib psp id business_id key req w
      ≡ (ok a, record w { statements = w.statements + 1 })
unfolding pay_invoice ◌>>=◌
pay_invoice-replay lib psp id business_id key req w stored a h k l = rw (h, k, l) refl

module _ (lib : Libraries) (key : String) (business_id id : Uuid) where
  pay_invoice-fresh :
      (psp : Psp) (req : PayInvoiceRequest) (w : World) {a : PaymentAttempt} {w' : World}
      → head? (recent_keys key business_id id w.now w.db) ≡ none
      → pay_invoice lib psp id business_id key req w ≡ (ok a, w')
      → (w₁ : World) × (pay_fresh lib psp id business_id key req w₁ ≡ (ok a, w'))
  unfolding pay_invoice
  pay_invoice-fresh psp req w unused run =
      let (now, w₁, e₁, run₁) = >>=-eq-ok _ _ w run in
      let (o, w₂, e₂, run₂) = >>=-eq-ok _ _ w₁ run₁ in
      let (rows, w₃, e₃, run₃) = >>=-eq-ok _ _ w₁ e₂ in
      let (time, same₁) = utc_now-eq-ok w e₁ in
      let (read, later) = query-eq-ok _ w₁ e₃ in
      let (first, same₂) = pure-eq-ok (head? rows) w₃ run₃ in
      let none_stored : o ≡ none = rw (first, read, time, same₁) unused in
      (w₂, rw none_stored at run₂)

  -- A payment that was made under a key of which no response was stored, whatever its outcome, is
  -- what every later request under this key returns while the key is recent: such a request reads
  -- once and does nothing else. Other requests may run in between, if they keep the stored keys: the
  -- first condition says so of those that run while the provider is asked.
  pub pay_invoice-idempotent :
      (psp : Psp) (req : PayInvoiceRequest) (w w' w₂ : World) (a : PaymentAttempt)
      → RoundTrips lib
      → PspKeeps psp (HasKey lib key business_id id)
      → head? (recent_keys key business_id id w.now w.db) ≡ none
      → pay_invoice lib psp id business_id key req w ≡ (ok a, w')
      → w₂.db.idempotency_keys ≡ w'.db.idempotency_keys
      → All
          (λ r. key_matches key business_id id r ≡ true → is_recent w₂.now r.created_at ≡ true)
          w₂.db.idempotency_keys
      → w₂.faults w₂.statements ≡ false
      → (psp₂ : Psp) (req₂ : PayInvoiceRequest)
      → pay_invoice lib psp₂ id business_id key req₂ w₂
        ≡ (ok a, record w₂ { statements = w₂.statements + 1 })
  pay_invoice-idempotent psp req w w' w₂ a trip quiet unused run same recent live psp₂ req₂ =
      let (w₁, fresh) = pay_invoice-fresh psp req w unused run in
      let (j, e, has, stored) =
        (pay_fresh-Ensures lib key business_id id psp quiet req).at w₁ a w' tt fresh in
      let (row, first, body) =
        first_passing (λ r. r.response_body ≡ j)
          (λ r. key_matches key business_id id r && is_recent w₂.now r.created_at)
          (key_matches key business_id id) w₂.db.idempotency_keys (rw same has)
          (All-imp _ _ w₂.db.idempotency_keys (λ r k t. and_true _ _ t (k t)) recent)
          (rw same (All-imp _ _ w'.db.idempotency_keys (λ r k t. k (and_left _ _ t)) stored)) in
      pay_invoice-replay lib psp₂ id business_id key req₂ w₂ row a live first
        (rw body (trip.read_back a j e))
