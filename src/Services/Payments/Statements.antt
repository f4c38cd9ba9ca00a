-- ===== src/Services/Payments/Statements.antt =====
-- The SQL statements of src/services/payments.rs on payment_attempts and idempotency_keys.
use payman.Prelude.{
  String, Bool, ◌&&◌, not, List, ◌∷◌, [], map, ◌++◌, ◌+◌, ◌==◌, ltb, select, update, exists, str_eq,
}
use payman.Models.{Uuid, DateTime, AttemptRow, IdempotencyRow}
use payman.Errors.{Result, ok}
use payman.Store.{Db, insert}

-- `INTERVAL '24 hours'`
abbrev pub day : DateTime
day = 86_400_000_000

unfoldable pub insert_attempt : AttemptRow → Db → Result (List AttemptRow) × Db
insert_attempt row d =
    insert row
      ((
        not (exists (λ r. r.attempt.id == row.attempt.id) d.payment_attempts),
        "payment_attempts_pkey",
      )
        ∷ (
          exists (λ i. i.id == row.attempt.invoice_id) d.invoices,
          "payment_attempts_invoice_id_fkey",
        )
        ∷ [])
      (λ t. record t { payment_attempts = t.payment_attempts ++ row ∷ [] }) d

-- `UPDATE payment_attempts SET f WHERE id = $n RETURNING …`
unfoldable pub update_attempts :
    Uuid → (AttemptRow → AttemptRow) → Db → Result (List AttemptRow) × Db
update_attempts id f d = (
  ok (map f (select (λ r. r.attempt.id == id) d.payment_attempts)),
  record d { payment_attempts = update (λ r. r.attempt.id == id) f d.payment_attempts },
)

-- `key = $1 AND business_id = $2 AND invoice_id = $3`, the unique index of the table.
abbrev pub key_matches : String → Uuid → Uuid → IdempotencyRow → Bool
key_matches key business_id invoice_id r =
    str_eq r.key key && r.business_id == business_id && r.invoice_id == invoice_id

-- `created_at > NOW() - INTERVAL '24 hours'`
abbrev pub is_recent : DateTime → DateTime → Bool
is_recent now created_at = ltb now (created_at + day)

abbrev pub recent_keys : String → Uuid → Uuid → DateTime → Db → List IdempotencyRow
recent_keys key business_id invoice_id now d =
    select (λ r. key_matches key business_id invoice_id r && is_recent now r.created_at)
      d.idempotency_keys

unfoldable pub insert_key : IdempotencyRow → Db → Result (List IdempotencyRow) × Db
insert_key row d =
    insert row
      ((not (exists (λ r. r.id == row.id) d.idempotency_keys), "idempotency_keys_pkey")
        ∷ (
          not (exists (key_matches row.key row.business_id row.invoice_id) d.idempotency_keys),
          "idempotency_keys_key_business_id_invoice_id_idx",
        )
        ∷ (exists (λ b. b.id == row.business_id) d.businesses, "idempotency_keys_business_id_fkey")
        ∷ (exists (λ i. i.id == row.invoice_id) d.invoices, "idempotency_keys_invoice_id_fkey")
        ∷ [])
      (λ t. record t { idempotency_keys = t.idempotency_keys ++ row ∷ [] }) d

unfoldable pub update_keys :
    String
    → Uuid
    → Uuid
    → (IdempotencyRow → IdempotencyRow)
    → Db
    → Result (List IdempotencyRow) × Db
update_keys key business_id invoice_id f d = (
  ok (map f (select (key_matches key business_id invoice_id) d.idempotency_keys)),
  record d {
    idempotency_keys = update (key_matches key business_id invoice_id) f d.idempotency_keys;
  },
)
