-- ===== src/Services/Elsewhere.antt =====
-- How the services and the workers change the tables other than invoices and line items:
-- src/services/businesses.rs, src/services/customers.rs, src/services/payments.rs. The tables with a unique index that a request
-- can run into, api_keys, customers and idempotency_keys, change row by row; the others change in any
-- way.
use payman.Prelude.{◌≡◌, refl, Bool, false, [], ◌∷◌, ◌++◌, exists, update}
use payman.Models.{ApiKeyRow, Customer, IdempotencyRow}
use payman.Store.{Db}
use payman.Services.Businesses.{has_hash}
use payman.Services.Customers.{has_email}
use payman.Services.Payments.Statements.{key_matches}

-- The settings leave the columns of the unique index alone.
abbrev pub SparesKey : (IdempotencyRow → IdempotencyRow) → Type 0
SparesKey f =
    (r : IdempotencyRow)
    → ((f r).key ≡ r.key) × ((f r).business_id ≡ r.business_id) × ((f r).invoice_id ≡ r.invoice_id)

pub data Elsewhere (d : Db) : Db → Type 0 where
  other :
      (d' : Db)
      → d'.invoices ≡ d.invoices
      → d'.line_items ≡ d.line_items
      → d'.api_keys ≡ d.api_keys
      → d'.customers ≡ d.customers
      → d'.idempotency_keys ≡ d.idempotency_keys
      → Elsewhere d d'
  add_api_key :
      (row : ApiKeyRow)
      → exists (has_hash row.key_hash) d.api_keys ≡ false
      → Elsewhere d (record d { api_keys = d.api_keys ++ row ∷ [] })
  add_customer :
      (row : Customer)
      → exists (has_email row.business_id row.email) d.customers ≡ false
      → Elsewhere d (record d { customers = d.customers ++ row ∷ [] })
  add_key :
      (row : IdempotencyRow)
      → exists (key_matches row.key row.business_id row.invoice_id) d.idempotency_keys ≡ false
      → Elsewhere d (record d { idempotency_keys = d.idempotency_keys ++ row ∷ [] })
  set_keys :
      (p : IdempotencyRow → Bool) (f : IdempotencyRow → IdempotencyRow)
      → SparesKey f
      → Elsewhere d (record d { idempotency_keys = update p f d.idempotency_keys })

pub Elsewhere-invoices : {d d' : Db} → Elsewhere d d' → d'.invoices ≡ d.invoices
Elsewhere-invoices (Elsewhere.other d' e e' _ _ _) = e
Elsewhere-invoices (Elsewhere.add_api_key row _) = refl
Elsewhere-invoices (Elsewhere.add_customer row _) = refl
Elsewhere-invoices (Elsewhere.add_key row _) = refl
Elsewhere-invoices (Elsewhere.set_keys p f _) = refl

pub Elsewhere-line_items : {d d' : Db} → Elsewhere d d' → d'.line_items ≡ d.line_items
Elsewhere-line_items (Elsewhere.other d' e e' _ _ _) = e'
Elsewhere-line_items (Elsewhere.add_api_key row _) = refl
Elsewhere-line_items (Elsewhere.add_customer row _) = refl
Elsewhere-line_items (Elsewhere.add_key row _) = refl
Elsewhere-line_items (Elsewhere.set_keys p f _) = refl
