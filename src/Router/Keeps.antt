-- ===== src/Router/Keeps.antt =====
-- What every request keeps of the tables, whatever route it takes.
use payman.Services.Elsewhere.{Elsewhere}
use payman.Libraries.{Libraries}
use payman.Services.Payments.Safe.{IsSafe}
use payman.Models.{
  Uuid, Business, CreateInvoiceRequest, CreateCustomerRequest, ApiKeyRow, WebhookEndpoint,
  CreateWebhookEndpointRequest, Customer, EditInvoiceRequest, CreateBusinessRequest,
  FinalizeInvoiceRequest, VoidInvoiceRequest,
}
use payman.Errors.{Result, ok, err, AppError}
use payman.Middleware.Limits.{
  business_rate_limiter_middleware, Next, ip_rate_limiter_middleware, AppState, is_allowed, pass_if,
  MemberText, Redis,
}
use payman.Router.{
  Extract, run, Body, Action, extract, Result, World, respond, Uuid, and_then, Libraries, Keys,
}
use payman.Store.{
  Db, Action, Keeps, World, keeps_rules, exec, exec-Keeps, insert_cases, transaction-Keeps,
}
use payman.Services.Invoices.Create.{create_invoice as create_invoice_service}
use payman.Services.Invoices.Edit.{edit_invoice as edit_invoice_service}
use payman.Services.Invoices.Transitions.{
  finalize_invoice as finalize_invoice_service, void_invoice as void_invoice_service,
}
use payman.Services.Customers.{
  create_customer as create_customer_service, insert_customer, map_err, map_result,
}
use payman.Services.Businesses.{
  create_business as create_business_service, generate_api_key, insert_with_key, insert_api_key,
  insert_business, Keys, GeneratedApiKey,
}
use payman.Services.Webhooks.{
  create_endpoint as create_endpoint_service, delete_endpoint as delete_endpoint_service,
  deactivate, insert_endpoint,
}
use payman.Handlers.Customers.{create_customer}
use payman.Handlers.Businesses.{create_business}
use payman.Handlers.Webhooks.{create_endpoint, delete_endpoint}
use payman.Prelude.{true, false, String, Bool, refl, arith}

-- A predicate on the tables holds after the service if it held before.
pub record NextKeeps {B : Type 0} (P : Db → Type 0) (n : Next B) : Type 0 where
  pub at : (s : AppState) → P s.world.db → P (n s).1.world.db

module _ (P : Db → Type 0) where
  and_then-db :
      {A : Type 0} (k : A → Next Body) (r : Result A × World) (redis : Redis)
      → ((a : A) → NextKeeps P (k a))
      → P r.1.db
      → P (and_then k r redis).1.world.db
  and_then-db k (ok a, w) redis h p = (h a).at _ p
  and_then-db k (err e, w) redis h p = p

  pub run-NextKeeps :
      {A : Type 0} (m : Action A) (k : A → Next Body)
      → Keeps P m
      → ((a : A) → NextKeeps P (k a))
      → NextKeeps P (run m k)
  unfolding run
  run-NextKeeps m k h g = record {
    at = λ s p. and_then-db k (m s.world) s.redis g (h.at s.world p);
  }

  pub respond-NextKeeps :
      {A : Type 0} (f : A → Body) (m : Action A) → Keeps P m → NextKeeps P (respond f m)
  respond-NextKeeps f m h = run-NextKeeps m _ h λ a. record { at = λ s p. p }

  pub extract-NextKeeps :
      {A : Type 0} (x : Extract A) (k : A → Next Body)
      → ((a : A) → NextKeeps P (k a))
      → NextKeeps P (extract x k)
  extract-NextKeeps (Extract.extracted a) k h = h a
  extract-NextKeeps (Extract.rejection status) k h = record { at = λ s p. p }

  pass_if-db :
      {B : Type 0} (allowed : Bool × AppState) (next : Next B)
      → NextKeeps P next
      → P allowed.1.world.db
      → P (pass_if allowed next).1.world.db
  pass_if-db (true, s) next h p = h.at s p
  pass_if-db (false, s) next h p = p

  pub ip-NextKeeps :
      {B : Type 0} (text : MemberText) (ip : String) (next : Next B)
      → NextKeeps P next
      → NextKeeps P (ip_rate_limiter_middleware text ip next)
  unfolding ip_rate_limiter_middleware is_allowed
  ip-NextKeeps text ip next h = record { at = λ s p. pass_if-db (is_allowed text ip s) next h p }

  pub business-NextKeeps :
      {B : Type 0} (text : MemberText) (to_string : Uuid → String) (auth : Business) (next : Next B)
      → NextKeeps P next
      → NextKeeps P (business_rate_limiter_middleware text to_string auth next)
  unfolding business_rate_limiter_middleware is_allowed
  business-NextKeeps text to_string auth next h = record {
    at = λ s p. pass_if-db (is_allowed text (to_string auth.id) s) next h p;
  }

-- What the services on invoices keep, for the services that only read or write other tables.
pub record Services (P : Db → Type 0) : Type 1 where
  pub safe : IsSafe P
  pub creates : (id : Uuid) (req : CreateInvoiceRequest) → Keeps P (create_invoice_service id req)
  pub edits :
      (id business_id : Uuid) (req : EditInvoiceRequest)
      → Keeps P (edit_invoice_service id business_id req)
  pub finalizes :
      (id business_id : Uuid) (req : FinalizeInvoiceRequest)
      → Keeps P (finalize_invoice_service id business_id req)
  pub voids :
      (id business_id : Uuid) (req : VoidInvoiceRequest)
      → Keeps P (void_invoice_service id business_id req)

module _ (P : Db → Type 0) (safe : IsSafe P) where
  map_result-db :
      {A : Type 0} (f : AppError → AppError) (r : Result A × World)
      → P r.1.db
      → P (map_result f r).1.db
  map_result-db f (ok a, w) p = p
  map_result-db f (err e, w) p = p

  map_err-Keeps :
      {A : Type 0} (f : AppError → AppError) (m : Action A) → Keeps P m → Keeps P (map_err f m)
  unfolding map_err
  map_err-Keeps f m h = record { at = λ w p. map_result-db f (m w) (h.at w p) }

  insert_customer-Keeps : (row : Customer) → Keeps P (exec (insert_customer row))
  unfolding insert_customer
  insert_customer-Keeps row = exec-Keeps _ _ λ d h.
      insert_cases P row _ _ d h
        λ checked. safe.elsewhere d _ (Elsewhere.add_customer row (ground (arith, checked.1.0))) h

  insert_business-Keeps : (row : Business) → Keeps P (exec (insert_business row))
  unfolding insert_business
  insert_business-Keeps row = exec-Keeps _ _ (λ d h.
      insert_cases P row _ _ d h
        (λ _. safe.elsewhere d _ (Elsewhere.other _ refl refl refl refl refl) h))

  insert_api_key-Keeps : (row : ApiKeyRow) → Keeps P (exec (insert_api_key row))
  unfolding insert_api_key
  insert_api_key-Keeps row = exec-Keeps _ _ λ d h.
      insert_cases P row _ _ d h
        λ checked. safe.elsewhere d _ (Elsewhere.add_api_key row (ground (arith, checked.1.0))) h

  insert_endpoint-Keeps : (row : WebhookEndpoint) → Keeps P (exec (insert_endpoint row))
  unfolding insert_endpoint
  insert_endpoint-Keeps row = exec-Keeps _ _ (λ d h.
      insert_cases P row _ _ d h
        (λ _. safe.elsewhere d _ (Elsewhere.other _ refl refl refl refl refl) h))

  deactivate-Keeps : (id business_id : Uuid) → Keeps P (exec (deactivate id business_id))
  unfolding deactivate
  deactivate-Keeps id business_id =
      exec-Keeps _ _ (λ d h. safe.elsewhere d _ (Elsewhere.other _ refl refl refl refl refl) h)

  ruleset elsewhere_rules = (
    keeps_rules, map_err-Keeps, insert_customer-Keeps, insert_business-Keeps, insert_api_key-Keeps,
    insert_endpoint-Keeps, deactivate-Keeps,
  )

  pub create_customer-Keeps :
      (auth : Business) (req : CreateCustomerRequest) → Keeps P (create_customer auth req)
  unfolding create_customer create_customer_service
  create_customer-Keeps auth req = search elsewhere_rules depth 9

  insert_with_key-Keeps :
      (keys : Keys) (name : String) (id : Uuid) (key : GeneratedApiKey)
      → Keeps P (insert_with_key keys name id key)
  unfolding insert_with_key
  insert_with_key-Keeps keys name id key = search elsewhere_rules depth 9

  pub create_business-Keeps :
      (keys : Keys) (req : CreateBusinessRequest) → Keeps P (create_business keys req)
  unfolding create_business create_business_service generate_api_key
  create_business-Keeps keys req =
      search (elsewhere_rules, transaction-Keeps, insert_with_key-Keeps) depth 9

  pub create_endpoint-Keeps :
      (lib : Libraries) (auth : Business) (req : CreateWebhookEndpointRequest)
      → Keeps P (create_endpoint lib auth req)
  unfolding create_endpoint create_endpoint_service
  create_endpoint-Keeps lib auth req = search elsewhere_rules depth 9

  pub delete_endpoint-Keeps : (auth : Business) (id : Uuid) → Keeps P (delete_endpoint auth id)
  unfolding delete_endpoint delete_endpoint_service
  delete_endpoint-Keeps auth id = search elsewhere_rules depth 9
