-- ===== src/Router/Requests.antt =====
-- What a request of any kind keeps of the tables.
use payman.Services.Unique.{IsUnique, IsUnique-IsSafe, IsUnique-Allows, IsUnique-Bumps}
use payman.Services.Invoices.Advance.{
  create_invoice-Kept, edit_invoice-Kept, finalize_invoice-Stable, void_invoice-Stable,
}
use payman.Services.Versions.{Distinct, Distinct-IsStable}
use payman.Services.Invoices.Stable.{
  OnInvoices, IsStable-IsKept, OnInvoices-Allows, exec_bump-Stable, Allows,
}
use payman.Router.Reading.{
  get_endpoint-IsReading, list_customers-IsReading, get_customer-IsReading, list_invoices-IsReading,
  get_invoice-IsReading, list_endpoints-IsReading, authenticate-IsReading,
}
use payman.Services.Invoices.Keeps.{
  create_invoice-Keeps, edit_invoice-Keeps, finalize_invoice-Keeps, void_invoice-Keeps,
}
use payman.Models.{Business, CreateInvoiceRequest, Uuid, PayInvoiceRequest, EditInvoiceRequest}
use payman.Services.Invoices.Consistent.{IsConsistent}
use payman.Services.Payments.Safe.{
  PspKeeps, IsConsistent-IsSafe, pay_invoice-Safe, OnInvoices-IsSafe,
}
use payman.Store.{
  Db, Action, Keeps, IsReading, >>=-Keeps, keeps_rules, IsReading-Keeps, or_raise-IsReading,
}
use payman.Router.Keeps.{
  Services, NextKeeps, extract-NextKeeps, respond-NextKeeps, create_customer-Keeps,
  create_business-Keeps, create_endpoint-Keeps, delete_endpoint-Keeps, ip-NextKeeps, run-NextKeeps,
  business-NextKeeps,
}
use payman.Prelude.{String, Option}
use payman.Router.{
  app, handle_public, handle_protected, auth_middleware, public_routes, protected_routes,
  Environment, PublicRoute, ProtectedRoute, Route, Request, Business, Body, Action, app_of, respond,
}
use payman.Handlers.Invoices.{create_invoice, edit_invoice, finalize_invoice, void_invoice}
use payman.Handlers.Payments.{pay_invoice}

module _ (env : Environment) (P : Db → Type 0) (k : Services P) (quiet : PspKeeps env.psp P) where
  create_invoice_handler-Keeps :
      (auth : Business) (req : CreateInvoiceRequest) → Keeps P (create_invoice auth req)
  unfolding create_invoice
  create_invoice_handler-Keeps auth req = search (keeps_rules, k.creates) depth 9

  edit_invoice_handler-Keeps :
      (auth : Business) (id : Uuid) (req : EditInvoiceRequest) → Keeps P (edit_invoice auth id req)
  unfolding edit_invoice
  edit_invoice_handler-Keeps auth id req = search (keeps_rules, k.edits) depth 9

  pay_invoice_handler-Keeps :
      (auth : Business) (id : Uuid) (header : Option (Option String)) (req : PayInvoiceRequest)
      → Keeps P (pay_invoice env.lib env.psp auth id header req)
  unfolding pay_invoice
  pay_invoice_handler-Keeps auth id header req =
      >>=-Keeps P _ _ (IsReading-Keeps P _ (or_raise-IsReading _ _))
        λ key. pay_invoice-Safe P k.safe env.lib env.psp quiet id auth.id key req

  handle_public-NextKeeps : (route : PublicRoute) → NextKeeps P (handle_public env route)
  unfolding handle_public
  handle_public-NextKeeps PublicRoute.get_health = record { at = λ s p. p }
  handle_public-NextKeeps (PublicRoute.post_businesses body) =
      extract-NextKeeps P body _
        λ req. respond-NextKeeps P _ _ (create_business-Keeps P k.safe env.keys req)

  reads : {A : Type 0} (f : A → Body) (m : Action A) → IsReading m → NextKeeps P (respond f m)
  reads f m h = respond-NextKeeps P f m (IsReading-Keeps P m h)

  handle_protected-NextKeeps :
      (route : ProtectedRoute) (auth : Business) → NextKeeps P (handle_protected env route auth)
  unfolding handle_protected finalize_invoice void_invoice
  handle_protected-NextKeeps (ProtectedRoute.post_customers body) auth =
      extract-NextKeeps P body _
        λ req. respond-NextKeeps P _ _ (create_customer-Keeps P k.safe auth req)
  handle_protected-NextKeeps ProtectedRoute.get_customers auth =
      reads _ _ (list_customers-IsReading auth)
  handle_protected-NextKeeps (ProtectedRoute.get_customers_id path) auth =
      extract-NextKeeps P path _ λ id. reads _ _ (get_customer-IsReading auth id)
  handle_protected-NextKeeps (ProtectedRoute.post_invoices body) auth =
      extract-NextKeeps P body _
        λ req. respond-NextKeeps P _ _ (create_invoice_handler-Keeps auth req)
  handle_protected-NextKeeps (ProtectedRoute.get_invoices query) auth =
      extract-NextKeeps P query _ λ q. reads _ _ (list_invoices-IsReading auth q)
  handle_protected-NextKeeps (ProtectedRoute.get_invoices_id path) auth =
      extract-NextKeeps P path _ λ id. reads _ _ (get_invoice-IsReading auth id)
  handle_protected-NextKeeps (ProtectedRoute.patch_invoices_id path body) auth =
      extract-NextKeeps P path _ λ id.
        extract-NextKeeps P body _
          λ req. respond-NextKeeps P _ _ (edit_invoice_handler-Keeps auth id req)
  handle_protected-NextKeeps (ProtectedRoute.post_invoices_id_finalize path body) auth =
      extract-NextKeeps P path _
        λ id. extract-NextKeeps P body _ λ req. respond-NextKeeps P _ _ (k.finalizes id auth.id req)
  handle_protected-NextKeeps (ProtectedRoute.post_invoices_id_void path body) auth =
      extract-NextKeeps P path _
        λ id. extract-NextKeeps P body _ λ req. respond-NextKeeps P _ _ (k.voids id auth.id req)
  handle_protected-NextKeeps (ProtectedRoute.post_webhooks body) auth =
      extract-NextKeeps P body _
        λ req. respond-NextKeeps P _ _ (create_endpoint-Keeps P k.safe env.lib auth req)
  handle_protected-NextKeeps ProtectedRoute.get_webhooks auth =
      reads _ _ (list_endpoints-IsReading auth)
  handle_protected-NextKeeps (ProtectedRoute.get_webhooks_id path) auth =
      extract-NextKeeps P path _ λ id. reads _ _ (get_endpoint-IsReading auth id)
  handle_protected-NextKeeps (ProtectedRoute.delete_webhooks_id path) auth =
      extract-NextKeeps P path _
        λ id. respond-NextKeeps P _ _ (delete_endpoint-Keeps P k.safe auth id)
  handle_protected-NextKeeps (ProtectedRoute.post_payments_id_pay path header body) auth =
      extract-NextKeeps P path _ λ id.
        extract-NextKeeps P body _
          λ req. respond-NextKeeps P _ _ (pay_invoice_handler-Keeps auth id header req)

  app_of-NextKeeps :
      (ip : String) (header : Option (Option String)) (route : Route)
      → NextKeeps P (app_of env ip header route)
  unfolding public_routes protected_routes auth_middleware
  app_of-NextKeeps ip header (Route.public route) =
      ip-NextKeeps P env.text ip _ (handle_public-NextKeeps route)
  app_of-NextKeeps ip header (Route.protected route) = ip-NextKeeps P env.text ip _ (
      run-NextKeeps P _ _ (IsReading-Keeps P _ (authenticate-IsReading env.keys header)) λ auth.
        business-NextKeeps P env.text env.keys.uuid_to_string auth _
          (handle_protected-NextKeeps route auth))

  pub app-NextKeeps : (req : Request) → NextKeeps P (app env req)
  unfolding app
  app-NextKeeps req = app_of-NextKeeps req.ip req.authorization req.route

pub IsConsistent-Services : Services IsConsistent
IsConsistent-Services = record {
  safe = IsConsistent-IsSafe;
  creates = create_invoice-Keeps;
  edits = edit_invoice-Keeps;
  finalizes = finalize_invoice-Keeps;
  voids = void_invoice-Keeps;
}

pub Distinct-Allows : Allows (OnInvoices Distinct)
Distinct-Allows = OnInvoices-Allows _ (IsStable-IsKept _ _ Distinct-IsStable)

pub Distinct-Services : Services (OnInvoices Distinct)
Distinct-Services = record {
  safe = OnInvoices-IsSafe Distinct (IsStable-IsKept _ Distinct Distinct-IsStable);
  creates = create_invoice-Kept _ Distinct-Allows;
  edits = edit_invoice-Kept _ Distinct-Allows;
  finalizes = finalize_invoice-Stable _ (exec_bump-Stable _ Distinct-IsStable);
  voids = void_invoice-Stable _ (exec_bump-Stable _ Distinct-IsStable);
}

pub IsUnique-Services : Services IsUnique
IsUnique-Services = record {
  safe = IsUnique-IsSafe;
  creates = create_invoice-Kept _ IsUnique-Allows;
  edits = edit_invoice-Kept _ IsUnique-Allows;
  finalizes = finalize_invoice-Stable _ IsUnique-Bumps;
  voids = void_invoice-Stable _ IsUnique-Bumps;
}
