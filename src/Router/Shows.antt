-- ===== src/Router/Shows.antt =====
-- What the handlers of the `GET` routes show of a business.
use payman.Errors.{Result, ok, err, not_found}
use payman.Middleware.Limits.{Response, AppState, Redis}
use payman.Router.{
  Body, Result, World, run, Extract, Action, ListInvoicesQuery, extract, and_then, respond,
}
use payman.Models.{
  Business, Uuid, InvoiceResponse, InvoiceResult, WebhookEndpoint, Customer, InvoiceState, Invoice,
}
use payman.Store.{
  Db, World, Action, fetch_optional, query, query-eq-ok, >>=-eq-ok, pure-eq-ok, ◌>>=◌, or_raise,
  or_raise-eq-ok, IsReading,
}
use payman.Prelude.{
  refl, true, Bool, Option, none, some, List, ◌≡◌, All, select, arith, All-order_by_desc,
  All-select, subst, sym, head-select, ◌==◌, Mem, ◌&&◌, ap, head?, ◌∙◌,
}
use payman.Services.Customers.{
  get_customer as get_customer_service, list_customers as list_customers_service,
}
use payman.Services.Invoices.Read.{
  get_invoice as get_invoice_service, list_invoices as list_invoices_service, list_by_state,
  ListInvoicesQuery,
}
use payman.Services.Webhooks.{
  get_endpoint as get_endpoint_service, list_endpoints as list_endpoints_service,
}
use payman.Handlers.Customers.{get_customer, list_customers}
use payman.Handlers.Invoices.{response_of, get_invoice, list_invoices}
use payman.Handlers.Webhooks.{get_endpoint, list_endpoints}

-- What the rows of a body say of their owner.
abbrev pub BelongsTo : Uuid → Body → Type 0
BelongsTo id Body.healthy = Unit
BelongsTo id (Body.created_business b) = b.business_id ≡ id
BelongsTo id (Body.customer c) = c.business_id ≡ id
BelongsTo id (Body.customers rows) = All (λ c. c.business_id ≡ id) rows
BelongsTo id (Body.invoice r) = r.business_id ≡ id
BelongsTo id (Body.invoices rows) = All (λ r. r.business_id ≡ id) rows
BelongsTo id (Body.invoice_response r) =
    (r.invoice.business_id ≡ id) × All (λ l. l.invoice_id ≡ r.invoice.id) r.line_items
BelongsTo id (Body.attempt a) = Unit
BelongsTo id (Body.endpoint e) = e.business_id ≡ id
BelongsTo id (Body.endpoints rows) = All (λ e. e.business_id ≡ id) rows
BelongsTo id (Body.deleted d) = Unit

-- A response shows nothing of others.
abbrev pub ShowsOnly : Uuid → Response Body → Type 0
ShowsOnly id (Response.json body) = BelongsTo id body
ShowsOnly id (Response.error e) = Unit
ShowsOnly id (Response.rejected status) = Unit

abbrev pub IsError : Response Body → Type 0
IsError (Response.json body) = ⊥
IsError (Response.error e) = Unit
IsError (Response.rejected status) = ⊥

-- The tables are `d` after it, and the response shows nothing of others.
abbrev pub Shows : Uuid → Db → Response Body × AppState → Type 0
Shows id d (response, s) = (s.world.db ≡ d) × ShowsOnly id response

module _ {A : Type 0} (f : A → Body) (id : Uuid) where
  shown :
      (d : Db) (r : Result A × World) (redis : Redis)
      → ((a : A) (w : World) → r ≡ (ok a, w) → BelongsTo id (f a))
      → r.1.db ≡ d
      → Shows id d (and_then (λ a s. (Response.json (f a), s)) r redis)
  shown d (ok a, w) redis h same = (same, h a w refl)
  shown d (err e, w) redis h same = (same, tt)

  pub respond-Shows :
      (m : Action A) (s : AppState)
      → IsReading m
      → ((a : A) (w : World) → m s.world ≡ (ok a, w) → BelongsTo id (f a))
      → Shows id s.world.db (respond f m s)
  unfolding run
  respond-Shows m s reading h = shown s.world.db (m s.world) s.redis h (reading.at s.world)

  pub extract-Shows :
      {B : Type 0} (x : Extract B) (m : B → Action A) (s : AppState)
      → ((b : B) → IsReading (m b))
      → ((b : B) (a : A) (w : World) → m b s.world ≡ (ok a, w) → BelongsTo id (f a))
      → Shows id s.world.db (extract x (λ b. respond f (m b)) s)
  extract-Shows (Extract.extracted b) m s reading h = respond-Shows (m b) s (reading b) (h b)
  extract-Shows (Extract.rejection status) m s reading h = (refl, tt)

-- The row of a query by identifier and business.
found_row-eq-ok :
    {A : Type 0} (p : A → Bool) (rows : Db → List A) (w : World) {a : A} {w' : World}
    → (fetch_optional (query (λ d. select p (rows d))) >>= λ found. or_raise found not_found) w
      ≡ (ok a, w')
    → (Mem a (rows w.db) × (p a ≡ true)) × (w'.db ≡ w.db)
found_row-eq-ok p rows w run =
    let (found, w₁, e₁, run₁) = >>=-eq-ok _ _ w run in
    let (read, w₂, e₂, run₂) = >>=-eq-ok _ _ w e₁ in
    let (is_read, later) = query-eq-ok _ w e₂ in
    let (first, s₂) = pure-eq-ok _ w₂ run₂ in
    let (is_a, s₁) = or_raise-eq-ok _ _ w₁ run₁ in
    (
      head-select p (rows w.db) (ap head? (sym is_read) ∙ sym first ∙ is_a),
      ap (λ (u : World). u.db) (s₁ ∙ s₂) ∙ later.same_db,
    )

module _ (auth : Business) (w : World) where
  pub get_customer-Shows :
      (id : Uuid) (c : Customer) (w' : World)
      → get_customer auth id w ≡ (ok c, w')
      → c.business_id ≡ auth.id
  unfolding get_customer get_customer_service
  get_customer-Shows id c w' run =
      let ((_, test), _) = found_row-eq-ok _ (λ d. d.customers) w run in ground (arith, test)

  pub get_endpoint-Shows :
      (id : Uuid) (e : WebhookEndpoint) (w' : World)
      → get_endpoint auth id w ≡ (ok e, w')
      → e.business_id ≡ auth.id
  unfolding get_endpoint get_endpoint_service
  get_endpoint-Shows id e w' run =
      let ((_, test), _) = found_row-eq-ok _ (λ d. d.webhook_endpoints) w run in
      ground (arith, test)

  pub list_customers-Shows :
      (rows : List Customer) (w' : World)
      → list_customers auth w ≡ (ok rows, w')
      → All (λ c. c.business_id ≡ auth.id) rows
  unfolding list_customers list_customers_service
  list_customers-Shows rows w' run =
      let (read, _) = query-eq-ok _ w run in
      rw read (All-order_by_desc _ _ _ (All-select _ _ w.db.customers λ c h. ground (arith, h)))

  pub list_endpoints-Shows :
      (rows : List WebhookEndpoint) (w' : World)
      → list_endpoints auth w ≡ (ok rows, w')
      → All (λ e. e.business_id ≡ auth.id) rows
  unfolding list_endpoints list_endpoints_service
  list_endpoints-Shows rows w' run =
      let (read, _) = query-eq-ok _ w run in
      rw read
        (All-order_by_desc _ _ _ (All-select _ _ w.db.webhook_endpoints λ e h. ground (arith, h)))

  list_by_state-Shows :
      (state : Option InvoiceState) (rows : List Invoice) (w' : World)
      → list_by_state auth.id state w ≡ (ok rows, w')
      → All (λ r. r.business_id ≡ auth.id) rows
  unfolding list_by_state
  list_by_state-Shows none rows w' run =
      let (read, _) = query-eq-ok _ w run in
      rw read (All-order_by_desc _ _ _ (All-select _ _ w.db.invoices λ r h. ground (arith, h)))
  list_by_state-Shows (some state) rows w' run =
      let (read, _) = query-eq-ok _ w run in
      rw read (All-order_by_desc _ _ _ (All-select _ _ w.db.invoices λ r h. ground (arith, h)))

  pub list_invoices-Shows :
      (req : ListInvoicesQuery) (rows : List Invoice) (w' : World)
      → list_invoices auth req w ≡ (ok rows, w')
      → All (λ r. r.business_id ≡ auth.id) rows
  unfolding list_invoices list_invoices_service
  list_invoices-Shows req rows w' run = list_by_state-Shows req.state rows w' run

  get_invoice_service-Shows :
      (id : Uuid) (r : InvoiceResult) (w' : World)
      → get_invoice_service id auth.id w ≡ (ok r, w')
      → BelongsTo auth.id (Body.invoice_response (response_of r))
  unfolding get_invoice_service
  get_invoice_service-Shows id r w' run =
      let (found, w₁, e₁, run₁) = >>=-eq-ok _ _ w run in
      let (invoice, w₂, e₂, run₂) = >>=-eq-ok _ _ w₁ run₁ in
      let (items, w₃, e₃, run₃) = >>=-eq-ok _ _ w₂ run₂ in
      let (same, _) = pure-eq-ok _ w₃ run₃ in
      let (read, _) = query-eq-ok _ w₂ e₃ in
      let (rows, w₄, e₄, run₄) = >>=-eq-ok _ _ w e₁ in
      let (read_rows, _) = query-eq-ok _ w e₄ in
      let (first, _) = pure-eq-ok _ w₄ run₄ in
      let (is_invoice, _) = or_raise-eq-ok _ _ w₁ e₂ in
      let (_, test) =
        head-select (λ (r : Invoice). r.id == id && r.business_id == auth.id) w.db.invoices
          (ap head? (sym read_rows) ∙ sym first ∙ is_invoice) in
      let shows : BelongsTo auth.id
          (Body.invoice_response (response_of (record { invoice = invoice; line_items = items }))) =
        (
          ground (arith, test),
          rw read (All-select _ _ w₂.db.line_items λ l h. ground (arith, test, h)),
        ) in
      subst (λ x. BelongsTo auth.id (Body.invoice_response (response_of x))) (sym same) shows

  pub get_invoice-Shows :
      (id : Uuid) (r : InvoiceResponse) (w' : World)
      → get_invoice auth id w ≡ (ok r, w')
      → BelongsTo auth.id (Body.invoice_response r)
  unfolding get_invoice
  get_invoice-Shows id r w' run =
      let (x, w₁, e₁, run₁) = >>=-eq-ok _ _ w run in
      let (same, _) = pure-eq-ok _ w₁ run₁ in
      subst (λ y. BelongsTo auth.id (Body.invoice_response y)) (sym same)
        (get_invoice_service-Shows id x w₁ e₁)
