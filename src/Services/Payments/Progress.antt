-- ===== src/Services/Payments/Progress.antt =====
-- While the database answers, the parts of `pay_invoice` of src/services/payments.rs do what they are
-- asked.
use payman.Errors.{ok}
use payman.Services.Payments.Statements.{key_matches, insert_attempt, insert_key}
use payman.Services.Payments.Begin.{
  begin_payment, claim_invoice, write_attempt, new_attempt, new_key,
}
use payman.Store.{World, unfailing, insert, ◌>>=◌}
use payman.Libraries.{Libraries}
use payman.Services.Invoices.Statements.{bump, bump_invoices, update_invoices}
use payman.Models.{
  Uuid, DateTime, Invoice, eq_state, processing, opened, PaymentAttempt, AttemptRow, Json,
  PayInvoiceRequest, IdempotencyRow, PaymentStatus,
}
use payman.Prelude.Int.{ℤ, leb_ℤ, pos, eqb_ℤ, ◌+ℤ◌, +ℤ_parts}
use payman.Prelude.{
  inl, inr, Bool-cases, All, refl, true, false, Bool, List, [], ◌∷◌, some, ◌≡◌, ◌==◌, arith, select,
  exists, update, head?, ◌&&◌, none-ne-some, String, none, ◌+◌, str_append, ◌++◌, head-exists,
  length-map-some,
}

below_last : (v : ℤ) → leb_ℤ (pos 2_147_483_646) v ≡ false → eqb_ℤ v (pos 2_147_483_647) ≡ false
below_last v h = ground arith

below_last_next :
    (v : ℤ) → leb_ℤ (pos 2_147_483_646) v ≡ false → eqb_ℤ (v +ℤ pos 1) (pos 2_147_483_647) ≡ false
below_last_next v h = ground (arith, +ℤ_parts v (pos 1))

-- The invoice is at a version from which a payment can go on: two more fit into 32 bits.
abbrev pub HasRoom : Uuid → List Invoice → Type 0
HasRoom id rows =
    All (λ r. (r.id == id) ≡ true → leb_ℤ (pos 2_147_483_646) r.versioning ≡ false) rows

abbrev pub is_claimed : Uuid → ℤ → Invoice → Bool
is_claimed id v r = r.id == id && eq_state r.state opened && eqb_ℤ r.versioning v

abbrev pub claimed : DateTime → Invoice → Invoice
claimed now = bump (λ r. record r { state = processing; updated_at = now })

claim_room :
    (id : Uuid) (v : ℤ) (rows : List Invoice)
    → HasRoom id rows
    → exists (λ r. is_claimed id v r && eqb_ℤ r.versioning (pos 2_147_483_647)) rows ≡ false
claim_room id v [] h = refl
claim_room id v (r ∷ rows) h =
    let rest = claim_room id v rows h.1 in
    elim (Bool-cases (r.id == id)) [
      | inl e ↦
          let full : eqb_ℤ r.versioning (pos 2_147_483_647) ≡ false =
            below_last r.versioning (h.0 e) in
          ground (arith, rest)
      | inr e ↦ ground (arith, rest)
    ]

pub settle_room :
    (id : Uuid) (v : ℤ) (now : DateTime) (rows : List Invoice)
    → HasRoom id rows
    → exists
        (λ r. r.id == id && eqb_ℤ r.versioning (pos 2_147_483_647))
        (update (is_claimed id v) (claimed now) rows)
      ≡ false
settle_room id v now [] h = refl
settle_room id v now (r ∷ rows) h =
    let rest = settle_room id v now rows h.1 in
    elim (Bool-cases (r.id == id)) [
      | inl e ↦
          let full = below_last r.versioning (h.0 e) in
          let next = below_last_next r.versioning (h.0 e) in
          elim (Bool-cases (is_claimed id v r)) [
            | inl k ↦ rw (k, e, next) rest
            | inr k ↦ rw (k, e, full) rest
          ]
      | inr e ↦ elim (Bool-cases (is_claimed id v r)) [
        | inl k ↦ rw (k, e) rest
        | inr k ↦ rw (k, e) rest
      ]
    ]

-- A row is found by its identifier after the claim too.
pub claimed_row :
    (id : Uuid) (v : ℤ) (now : DateTime) (rows : List Invoice) {r : Invoice}
    → head? (select (is_claimed id v) rows) ≡ some r
    → (r' : Invoice) × (head?
          (select (λ x. x.id == id) (update (is_claimed id v) (claimed now) rows))
        ≡ some r')
claimed_row id v now [] h = absurd (none-ne-some _ h)
claimed_row id v now (x ∷ rows) h = elim (Bool-cases (is_claimed id v x)) [
  | inl k ↦ let e : (x.id == id) ≡ true = ground (arith, k) in (claimed now x, rw (k, e) refl)
  | inr k ↦ elim (Bool-cases (x.id == id)) [
    | inl e ↦ (x, rw (k, e) refl)
    | inr e ↦ let (r', found) = claimed_row id v now rows (rw k at h) in (r', rw (k, e) found)
  ]
]

-- The attempt that a payment begins with, and its row.
abbrev pub first_attempt : Uuid → String → World → PaymentAttempt
first_attempt invoice_id card_token w = record {
  id = w.uuids w.drawn;
  invoice_id = invoice_id;
  status = PaymentStatus.pending;
  card_token = card_token;
  psp_reference = none;
  failure_code = none;
  created_at = w.now;
  updated_at = w.now;
}

abbrev pub attempt_row : PaymentAttempt → AttemptRow
attempt_row a = record { attempt = a; retry_count = pos 0; next_retry_at = none }

abbrev key_row : Libraries → String → Uuid → Uuid → Json → World → IdempotencyRow
key_row lib key business_id invoice_id body w = record {
  id = w.uuids (w.drawn + 1);
  key = key;
  business_id = business_id;
  invoice_id = invoice_id;
  request_path = str_append "/invoices/" (str_append (lib.uuid_to_string invoice_id) "/pay");
  response_status = some (pos 0);
  response_body = body;
  created_at = w.now;
  updated_at = w.now;
}

module _ (lib : Libraries) (id business_id : Uuid) (key : String) (req : PayInvoiceRequest) where
  -- What a payment needs to begin: an open invoice at the version, with room for two more; fresh
  -- identifiers; a business that is stored; a key that was not used for the invoice; and an attempt that
  -- can be written as JSON.
  pub record CanBegin (body : Json) (w : World) : Type 0 where
    pub invoice : Invoice
    pub found : head? (select (is_claimed id req.versioning) w.db.invoices) ≡ some invoice
    pub has_room : HasRoom id w.db.invoices
    pub fresh_attempt : exists (λ r. r.attempt.id == w.uuids w.drawn) w.db.payment_attempts ≡ false
    pub fresh_key : exists (λ r. r.id == w.uuids (w.drawn + 1)) w.db.idempotency_keys ≡ false
    pub unused : exists (key_matches key business_id id) w.db.idempotency_keys ≡ false
    pub business : exists (λ b. b.id == business_id) w.db.businesses ≡ true
    pub written : lib.to_value (first_attempt id req.card_token w) ≡ some body

  abbrev pub after_claim : World → World
  after_claim w = record (unfailing w) {
    db = record w.db {
      invoices = update (is_claimed id req.versioning) (claimed w.now) w.db.invoices;
    };
    statements = w.statements + 1;
  }

  claim_invoice-succeeds :
      (w : World) {r : Invoice}
      → head? (select (is_claimed id req.versioning) w.db.invoices) ≡ some r
      → HasRoom id w.db.invoices
      → claim_invoice id req.versioning (unfailing w) ≡ (ok tt, after_claim w)
  unfolding claim_invoice bump_invoices update_invoices ◌>>=◌
  claim_invoice-succeeds w found has_room =
      rw
        (
          claim_room id req.versioning w.db.invoices has_room,
          length-map-some (claimed w.now) _ found,
        )
        refl

  abbrev pub after_attempt : World → World
  after_attempt w = record (unfailing w) {
    db = record w.db {
      payment_attempts =
          w.db.payment_attempts ++ attempt_row (first_attempt id req.card_token w) ∷ [];
    };
    drawn = w.drawn + 1;
    statements = w.statements + 1;
  }

  new_attempt-succeeds :
      (w : World)
      → exists (λ r. r.attempt.id == w.uuids w.drawn) w.db.payment_attempts ≡ false
      → exists (λ i. i.id == id) w.db.invoices ≡ true
      → new_attempt id req.card_token (unfailing w)
        ≡ (ok (first_attempt id req.card_token w), after_attempt w)
  unfolding new_attempt insert_attempt insert ◌>>=◌
  new_attempt-succeeds w fresh stored = rw (fresh, stored) refl

  abbrev pub after_key : Json → World → World
  after_key body w = record (unfailing w) {
    db = record w.db {
      idempotency_keys =
          w.db.idempotency_keys
          ++ record (key_row lib key business_id id body w) { id = w.uuids w.drawn } ∷ [];
    };
    drawn = w.drawn + 1;
    statements = w.statements + 1;
  }

  new_key-succeeds :
      (body : Json) (w : World)
      → exists (λ r. r.id == w.uuids w.drawn) w.db.idempotency_keys ≡ false
      → exists (key_matches key business_id id) w.db.idempotency_keys ≡ false
      → exists (λ b. b.id == business_id) w.db.businesses ≡ true
      → exists (λ i. i.id == id) w.db.invoices ≡ true
      → new_key lib key business_id id body (unfailing w) ≡ (ok tt, after_key body w)
  unfolding new_key insert_key insert ◌>>=◌
  new_key-succeeds body w fresh unused business stored = rw (fresh, unused, business, stored) refl

  write_attempt-succeeds :
      (body : Json) (w : World)
      → exists (λ r. r.attempt.id == w.uuids w.drawn) w.db.payment_attempts ≡ false
      → exists (λ r. r.id == w.uuids (w.drawn + 1)) w.db.idempotency_keys ≡ false
      → exists (key_matches key business_id id) w.db.idempotency_keys ≡ false
      → exists (λ b. b.id == business_id) w.db.businesses ≡ true
      → exists (λ i. i.id == id) w.db.invoices ≡ true
      → lib.to_value (first_attempt id req.card_token w) ≡ some body
      → write_attempt lib id business_id key req (unfailing w)
        ≡ (ok (first_attempt id req.card_token w), after_key body (after_attempt w))
  unfolding write_attempt ◌>>=◌
  write_attempt-succeeds body w fresh fresh_key unused business stored written =
      rw
        (
          new_attempt-succeeds w fresh stored,
          written,
          new_key-succeeds body (after_attempt w) fresh_key unused business stored,
        )
        refl

  pub begin_payment-succeeds :
      (body : Json) (w : World)
      → CanBegin body w
      → begin_payment lib id business_id key req (unfailing w)
        ≡ (ok (first_attempt id req.card_token w), after_key body (after_attempt (after_claim w)))
  unfolding begin_payment ◌>>=◌
  begin_payment-succeeds body w can =
      let (row, found) = claimed_row id req.versioning w.now w.db.invoices can.found in
      rw (claim_invoice-succeeds w can.found can.has_room) (
        write_attempt-succeeds body (after_claim w) can.fresh_attempt can.fresh_key can.unused
          can.business (head-exists _ (λ x. x.id == id) _ (λ x e. e) found) can.written)
