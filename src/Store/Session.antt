-- ===== src/Store/Session.antt =====
-- A session with Postgres. The tables are lists of rows in the order of insertion, an action is a
-- function on the world that returns a result or an error, and a transaction that ends in an error
-- leaves the tables as it found them. Any statement may fail: `faults n` says that the n-th does.
use payman.Prelude.{
  ℕ, ◌+◌, ◌/◌, String, Bool, true, false, Option, none, some, List, [], ◌∷◌, if◌then◌else◌, length,
  head?, ◌++◌,
}
use payman.Prelude.Int.{pos}
use payman.Models.{
  Uuid, DateTime, NaiveDate, Business, ApiKeyRow, Customer, Invoice, LineItem, AttemptRow,
  IdempotencyRow, WebhookEndpoint, DeliveryRow,
}
use payman.Errors.{row_not_found, io, constraint, AppError, database, Result, ok, err}

pub record Db : Type 0 where
  pub businesses : List Business
  pub api_keys : List ApiKeyRow
  pub customers : List Customer
  pub invoices : List Invoice
  pub line_items : List LineItem
  pub payment_attempts : List AttemptRow
  pub idempotency_keys : List IdempotencyRow
  pub webhook_endpoints : List WebhookEndpoint
  pub webhook_deliveries : List DeliveryRow

-- A task that `tokio::spawn` started: to dispatch the webhooks of an event.
pub record Task : Type 0 where
  pub business_id : Uuid
  pub invoice_id : Uuid
  pub event_type : String

-- `tasks` are the spawned tasks that have not run yet, in the order in which they were spawned.
-- `now` is the clock, `uuids n` the n-th identifier that `Uuid::new_v4` draws.
pub record World : Type 0 where
  pub db : Db
  pub now : DateTime
  pub uuids : ℕ → Uuid
  pub drawn : ℕ
  pub faults : ℕ → Bool
  pub statements : ℕ
  pub tasks : List Task

-- No statement fails from here on.
abbrev pub unfailing : World → World
unfailing w = record w { faults = λ _. false }

abbrev pub Action {ℓ} : Type ℓ → Type ℓ
Action A = World → Result A × World

module _ {ℓ} {A : Type ℓ} where
  pub pure : A → Action A
  pure a w = (ok a, w)

  pub raise : AppError → Action A
  raise e w = (err e, w)

  -- `.ok_or(e)?`
  pub or_raise : Option A → AppError → Action A
  or_raise none e w = (err e, w)
  or_raise (some a) e w = (ok a, w)

pub raise_if : Bool → AppError → Action (Unit {0})
raise_if true e w = (err e, w)
raise_if false e w = (ok tt, w)

-- `Utc::now()`, and `NOW()` in a statement.
pub utc_now : Action DateTime
utc_now w = (ok w.now, w)

-- `Utc::now().date_naive()`
abbrev pub date_naive : DateTime → NaiveDate
date_naive t = pos (t / 86_400_000_000)

-- `Uuid::new_v4()`
pub new_v4 : Action Uuid
new_v4 w = (ok (w.uuids w.drawn), record w { drawn = w.drawn + 1 })

abbrev pub with_db {ℓ} : {A : Type ℓ} → World → Result A × Db → Result A × World
with_db w (r, d) = (r, record w { db = d })

-- `tokio::spawn`
pub spawn : Task → Action (Unit {0})
spawn t w = (ok tt, record w { tasks = w.tasks ++ t ∷ [] })

-- One statement: it fails for want of the database, or runs on the tables.
pub exec {ℓ} : {A : Type ℓ} → (Db → Result A × Db) → Action A
exec f w =
    let w' = record w { statements = w.statements + 1 } in
    if w.faults w.statements then (err (database io), w') else with_db w' (f w.db)

-- A `SELECT`.
pub query {ℓ} : {A : Type ℓ} → (Db → A) → Action A
unfolding exec
query f = exec (λ d. (ok (f d), d))

-- An error drops the transaction, and the tables are as they were.
abbrev pub or_rollback {ℓ} : {A : Type ℓ} → Db → Result A × World → Result A × World
or_rollback d (ok a, w) = (ok a, w)
or_rollback d (err e, w) = (err e, record w { db = d })

pub atomically {ℓ} : {A : Type ℓ} → Action A → Action A
atomically m w = or_rollback w.db (m w)

-- What comes after a result: an error skips it.
abbrev pub follow {ℓ κ} :
    {A : Type ℓ} {B : Type κ} → (A → Action B) → Result A × World → Result B × World
follow f (ok a, w) = f a w
follow f (err e, w) = (err e, w)

infixl 5 ◌>>=◌ ◌>>◌
-- Opening this opens the actions above too.
unfoldable pub ◌>>=◌ {ℓ κ} : {A : Type ℓ} {B : Type κ} → Action A → (A → Action B) → Action B
unfolding pure raise or_raise raise_if utc_now new_v4 spawn exec query atomically
◌>>=◌ m f w = follow f (m w)

abbrev pub ◌>>◌ {ℓ κ} : {A : Type ℓ} {B : Type κ} → Action A → Action B → Action B
m >> k = m >>= λ _. k

-- `BEGIN`, `COMMIT` and `ROLLBACK` are statements as well.
abbrev pub control : Action (Unit {0})
control = query (λ d. tt)

abbrev pub transaction {ℓ} : {A : Type ℓ} → Action A → Action A
transaction m = do control; atomically (do a ← m; control; pure a)

-- `fetch_one`, on the rows that a statement returns.
abbrev pub fetch_one {ℓ} : {A : Type ℓ} → Action (List A) → Action A
fetch_one m = do rows ← m; or_raise (head? rows) (database row_not_found)

-- `fetch_optional`
abbrev pub fetch_optional {ℓ} : {A : Type ℓ} → Action (List A) → Action (Option A)
fetch_optional m = do rows ← m; pure (head? rows)

-- `rows_affected`
abbrev pub rows_affected {ℓ} : {A : Type ℓ} → Action (List A) → Action ℕ
rows_affected m = do rows ← m; pure (length rows)

-- The constraints of a table, each with its name: a row that breaks one is refused.
abbrev pub check_constraints : List (Bool × String) → Db → Db → Result (Unit {0}) × Db
check_constraints [] old new = (ok tt, new)
check_constraints ((holds, name) ∷ cs) old new =
    let rest = check_constraints cs old new in
    if holds then rest else (err (database (constraint name)), old)

abbrev pub returning {ℓ} : {A : Type ℓ} → A → Db → Result (Unit {0}) × Db → Result (List A) × Db
returning row d (ok _, d') = (ok (row ∷ []), d')
returning row d (err e, d') = (err e, d)

-- An `INSERT` of one row with `RETURNING`.
unfoldable pub insert {ℓ} :
    {A : Type ℓ} → A → List (Bool × String) → (Db → Db) → Db → Result (List A) × Db
insert row cs add d = returning row d (check_constraints cs d (add d))
