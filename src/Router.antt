-- ===== src/Router.antt =====
-- The router of src/main.rs: the routes with their handlers, and the layers around them. What the
-- framework extracts from a request for a handler is part of the request.
use payman.Errors.{Result, ok, err, into_response}
pub mod Keeps
pub mod Reading
pub mod Requests
pub mod Guards
pub mod Logs
pub mod Traffic
pub mod Shows
pub mod Tenants
use payman.Prelude.{ℕ, String, Option, List}
use payman.Models.{
  Uuid, Business, Customer, Invoice, InvoiceResponse, PaymentAttempt, WebhookEndpoint,
  CreateBusinessRequest, CreateCustomerRequest, CreateInvoiceRequest, EditInvoiceRequest,
  FinalizeInvoiceRequest, VoidInvoiceRequest, PayInvoiceRequest, CreateWebhookEndpointRequest,
}
use payman.Libraries.{Libraries}
use payman.Store.{World, Action}
use payman.Services.Businesses.{Keys, authenticate}
use payman.Services.Invoices.Read.{ListInvoicesQuery}
use payman.Services.Payments.Charge.{Psp}
use payman.Handlers.Businesses.{CreatedBusiness, create_business}
use payman.Handlers.Customers.{create_customer, get_customer, list_customers}
use payman.Handlers.Invoices.{
  create_invoice, edit_invoice, get_invoice, list_invoices, finalize_invoice, void_invoice,
}
use payman.Handlers.Payments.{pay_invoice}
use payman.Handlers.Webhooks.{
  Deleted, create_endpoint, get_endpoint, list_endpoints, delete_endpoint,
}
use payman.Middleware.Limits.{
  AppState, MemberText, Response, Next, ip_rate_limiter_middleware,
  business_rate_limiter_middleware, Redis,
}

-- What an extractor (`Json`, `Path`, `Query`) makes of its part of the request: a value, or a
-- rejection with this status.
pub data Extract (A : Type 0) : Type 0 where
  extracted : A → Extract A
  rejection : ℕ → Extract A

-- The routes, each with what its handler extracts.
pub data PublicRoute : Type 0 where
  get_health : PublicRoute
  post_businesses : Extract CreateBusinessRequest → PublicRoute

pub data ProtectedRoute : Type 0 where
  get_customers get_webhooks : ProtectedRoute
  get_customers_id get_invoices_id get_webhooks_id delete_webhooks_id :
      Extract Uuid → ProtectedRoute
  post_customers : Extract CreateCustomerRequest → ProtectedRoute
  post_invoices : Extract CreateInvoiceRequest → ProtectedRoute
  get_invoices : Extract ListInvoicesQuery → ProtectedRoute
  patch_invoices_id : Extract Uuid → Extract EditInvoiceRequest → ProtectedRoute
  post_invoices_id_finalize : Extract Uuid → Extract FinalizeInvoiceRequest → ProtectedRoute
  post_invoices_id_void : Extract Uuid → Extract VoidInvoiceRequest → ProtectedRoute
  post_webhooks : Extract CreateWebhookEndpointRequest → ProtectedRoute
  post_payments_id_pay :
      Extract Uuid → Option (Option String) → Extract PayInvoiceRequest → ProtectedRoute

pub data Route : Type 0 where
  public : PublicRoute → Route
  protected : ProtectedRoute → Route

-- `ip` is the text of the address of the peer, `authorization` the header of that name.
pub record Request : Type 0 where
  pub ip : String
  pub authorization : Option (Option String)
  pub route : Route

-- The bodies with which the handlers answer.
pub data Body : Type 0 where
  healthy : Body
  created_business : CreatedBusiness → Body
  customer : Customer → Body
  customers : List Customer → Body
  invoice : Invoice → Body
  invoices : List Invoice → Body
  invoice_response : InvoiceResponse → Body
  attempt : PaymentAttempt → Body
  endpoint : WebhookEndpoint → Body
  endpoints : List WebhookEndpoint → Body
  deleted : Deleted → Body

-- `ok` goes on, and an error becomes the response.
abbrev pub and_then :
    {A : Type 0} → (A → Next Body) → Result A × World → Redis → Response Body × AppState
and_then k (ok a, w) r = k a (record { world = w; redis = r })
and_then k (err e, w) r = (Response.error (into_response e), record { world = w; redis = r })

unfoldable pub run : {A : Type 0} → Action A → (A → Next Body) → Next Body
run m k s = and_then k (m s.world) s.redis

-- What a handler returns becomes a response.
abbrev pub respond : {A : Type 0} → (A → Body) → Action A → Next Body
respond f m = run m (λ a s. (Response.json (f a), s))

abbrev pub extract : {A : Type 0} → Extract A → (A → Next Body) → Next Body
extract (Extract.extracted a) k s = k a s
extract (Extract.rejection status) k s = (Response.rejected status, s)

-- Everything that the service takes from outside of the repository.
pub record Environment : Type 0 where
  pub lib : Libraries
  pub keys : Keys
  pub psp : Psp
  pub text : MemberText

module _ (env : Environment) where
  unfoldable pub handle_public : PublicRoute → Next Body
  handle_public PublicRoute.get_health = λ s. (Response.json Body.healthy, s)
  handle_public (PublicRoute.post_businesses body) =
      extract body λ req. respond Body.created_business (create_business env.keys req)

  unfoldable pub handle_protected : ProtectedRoute → Business → Next Body
  handle_protected (ProtectedRoute.post_customers body) auth =
      extract body λ req. respond Body.customer (create_customer auth req)
  handle_protected ProtectedRoute.get_customers auth = respond Body.customers (list_customers auth)
  handle_protected (ProtectedRoute.get_customers_id path) auth =
      extract path λ id. respond Body.customer (get_customer auth id)
  handle_protected (ProtectedRoute.post_invoices body) auth =
      extract body λ req. respond Body.invoice_response (create_invoice auth req)
  handle_protected (ProtectedRoute.get_invoices query) auth =
      extract query λ q. respond Body.invoices (list_invoices auth q)
  handle_protected (ProtectedRoute.get_invoices_id path) auth =
      extract path λ id. respond Body.invoice_response (get_invoice auth id)
  handle_protected (ProtectedRoute.patch_invoices_id path body) auth =
      extract path
        λ id. extract body λ req. respond Body.invoice_response (edit_invoice auth id req)
  handle_protected (ProtectedRoute.post_invoices_id_finalize path body) auth =
      extract path λ id. extract body λ req. respond Body.invoice (finalize_invoice auth id req)
  handle_protected (ProtectedRoute.post_invoices_id_void path body) auth =
      extract path λ id. extract body λ req. respond Body.invoice (void_invoice auth id req)
  handle_protected (ProtectedRoute.post_webhooks body) auth =
      extract body λ req. respond Body.endpoint (create_endpoint env.lib auth req)
  handle_protected ProtectedRoute.get_webhooks auth = respond Body.endpoints (list_endpoints auth)
  handle_protected (ProtectedRoute.get_webhooks_id path) auth =
      extract path λ id. respond Body.endpoint (get_endpoint auth id)
  handle_protected (ProtectedRoute.delete_webhooks_id path) auth =
      extract path λ id. respond Body.deleted (delete_endpoint auth id)
  handle_protected (ProtectedRoute.post_payments_id_pay path header body) auth =
      extract path λ invoice_id.
        extract body
          λ req. respond Body.attempt (pay_invoice env.lib env.psp auth invoice_id header req)

  -- `auth_middleware` around the rest.
  unfoldable pub auth_middleware : Option (Option String) → (Business → Next Body) → Next Body
  auth_middleware header next = run (authenticate env.keys header) next

  unfoldable pub public_routes : String → PublicRoute → Next Body
  public_routes ip route = ip_rate_limiter_middleware env.text ip (handle_public route)

  -- The layer that is added last runs first.
  unfoldable pub protected_routes : String → Option (Option String) → ProtectedRoute → Next Body
  protected_routes ip header route = ip_rate_limiter_middleware env.text ip (
      auth_middleware header λ auth.
        business_rate_limiter_middleware env.text env.keys.uuid_to_string auth
          (handle_protected route auth))

  abbrev pub app_of : String → Option (Option String) → Route → Next Body
  app_of ip header (Route.public route) = public_routes ip route
  app_of ip header (Route.protected route) = protected_routes ip header route

  unfoldable pub app : Request → Next Body
  app req = app_of req.ip req.authorization req.route
