-- ===== src/Router/Tenants.antt =====
-- What a business is shown: the `GET` routes, which change nothing.
use payman.Router.Guards.{Guarded, Holder, protected_routes-Guarded}
use payman.Router.Reading.{
  list_customers-IsReading, list_endpoints-IsReading, get_customer-IsReading, get_invoice-IsReading,
  get_endpoint-IsReading, list_invoices-IsReading,
}
use payman.Models.{Business}
use payman.Middleware.Limits.{AppState, Response}
use payman.Store.{Db}
use payman.Router.{
  ProtectedRoute, Environment, handle_protected, AppState, Business, protected_routes, Body,
}
use payman.Prelude.{String, Option, ◌≡◌, ◌⊎◌, ap, ◌∙◌, inl, inr}
use payman.Router.Shows.{
  Shows, respond-Shows, IsError, list_customers-Shows, list_endpoints-Shows, ShowsOnly,
  extract-Shows, get_customer-Shows, get_invoice-Shows, get_endpoint-Shows, list_invoices-Shows,
}

-- The route reads.
abbrev pub IsGet : ProtectedRoute → Type 0
IsGet ProtectedRoute.get_customers = Unit
IsGet ProtectedRoute.get_webhooks = Unit
IsGet (ProtectedRoute.get_customers_id path) = Unit
IsGet (ProtectedRoute.get_invoices_id path) = Unit
IsGet (ProtectedRoute.get_webhooks_id path) = Unit
IsGet (ProtectedRoute.delete_webhooks_id path) = ⊥
IsGet (ProtectedRoute.post_customers body) = ⊥
IsGet (ProtectedRoute.post_invoices body) = ⊥
IsGet (ProtectedRoute.get_invoices query) = Unit
IsGet (ProtectedRoute.patch_invoices_id path body) = ⊥
IsGet (ProtectedRoute.post_invoices_id_finalize path body) = ⊥
IsGet (ProtectedRoute.post_invoices_id_void path body) = ⊥
IsGet (ProtectedRoute.post_webhooks body) = ⊥
IsGet (ProtectedRoute.post_payments_id_pay path header body) = ⊥

module _ (env : Environment) where
  handle_protected-Shows :
      (route : ProtectedRoute) (auth : Business) (s : AppState)
      → IsGet route
      → Shows auth.id s.world.db (handle_protected env route auth s)
  unfolding handle_protected
  handle_protected-Shows ProtectedRoute.get_customers auth s h =
      respond-Shows Body.customers auth.id _ s (list_customers-IsReading auth)
        (list_customers-Shows auth s.world)
  handle_protected-Shows ProtectedRoute.get_webhooks auth s h =
      respond-Shows Body.endpoints auth.id _ s (list_endpoints-IsReading auth)
        (list_endpoints-Shows auth s.world)
  handle_protected-Shows (ProtectedRoute.get_customers_id path) auth s h =
      extract-Shows Body.customer auth.id path _ s (get_customer-IsReading auth)
        (get_customer-Shows auth s.world)
  handle_protected-Shows (ProtectedRoute.get_invoices_id path) auth s h =
      extract-Shows Body.invoice_response auth.id path _ s (get_invoice-IsReading auth)
        (get_invoice-Shows auth s.world)
  handle_protected-Shows (ProtectedRoute.get_webhooks_id path) auth s h =
      extract-Shows Body.endpoint auth.id path _ s (get_endpoint-IsReading auth)
        (get_endpoint-Shows auth s.world)
  handle_protected-Shows (ProtectedRoute.get_invoices query) auth s h =
      extract-Shows Body.invoices auth.id query _ s (list_invoices-IsReading auth)
        (list_invoices-Shows auth s.world)
  handle_protected-Shows (ProtectedRoute.delete_webhooks_id path) auth s h = absurd h
  handle_protected-Shows (ProtectedRoute.post_customers body) auth s h = absurd h
  handle_protected-Shows (ProtectedRoute.post_invoices body) auth s h = absurd h
  handle_protected-Shows (ProtectedRoute.patch_invoices_id path body) auth s h = absurd h
  handle_protected-Shows (ProtectedRoute.post_invoices_id_finalize path body) auth s h = absurd h
  handle_protected-Shows (ProtectedRoute.post_invoices_id_void path body) auth s h = absurd h
  handle_protected-Shows (ProtectedRoute.post_webhooks body) auth s h = absurd h
  handle_protected-Shows (ProtectedRoute.post_payments_id_pay path header body) auth s h = absurd h

  -- What a request to a protected `GET` route ends in.
  Guarded-Shows :
      (header : Option (Option String)) (route : ProtectedRoute) (d : Db)
      (r : Response Body × AppState)
      → IsGet route
      → Guarded env header route d r
      → (r.1.world.db ≡ d)
        × (IsError r.0 ⊎ ((b : Business) × Holder env.keys header b d × ShowsOnly b.id r.0))
  Guarded-Shows header route d r get (Guarded.refused e s same answer) =
      (ap (λ x. x.1.world.db) answer ∙ same, inl (rw answer tt))
  Guarded-Shows header route d r get (Guarded.handled b s holder same answer) =
      let (kept, shows) = handle_protected-Shows route b s get in
      (ap (λ x. x.1.world.db) answer ∙ kept ∙ same, inr (b, holder, rw answer shows))

  -- A request to a protected `GET` route changes no table. It is answered with an error, or with
  -- nothing but rows of a business whose key it carries: customers, invoices, and webhook endpoints of
  -- the business, and the line items of an invoice of the business.
  pub get_routes-Shows :
      (ip : String) (header : Option (Option String)) (route : ProtectedRoute) (s : AppState)
      → IsGet route
      → ((protected_routes env ip header route s).1.world.db ≡ s.world.db)
        × (IsError (protected_routes env ip header route s).0
            ⊎ ((b : Business) × Holder env.keys header b s.world.db
                × ShowsOnly b.id (protected_routes env ip header route s).0))
  get_routes-Shows ip header route s get =
      Guarded-Shows header route s.world.db _ get (protected_routes-Guarded env header route ip s)
