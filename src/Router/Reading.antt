-- ===== src/Router/Reading.antt =====
-- The handlers of the `GET` routes change no table.
use payman.Store.{IsReading, reading_rules}
use payman.Services.Businesses.{authenticate, extract_api_key, find_business_by_key, Keys}
use payman.Models.{Business, Uuid, InvoiceState}
use payman.Prelude.{Option, none, some, String}
use payman.Services.Customers.{
  get_customer as get_customer_service, list_customers as list_customers_service,
}
use payman.Services.Invoices.Read.{
  get_invoice as get_invoice_service, list_invoices as list_invoices_service, ListInvoicesQuery,
  list_by_state,
}
use payman.Services.Webhooks.{
  get_endpoint as get_endpoint_service, list_endpoints as list_endpoints_service,
}
use payman.Handlers.Customers.{get_customer, list_customers}
use payman.Handlers.Invoices.{get_invoice, list_invoices}
use payman.Handlers.Webhooks.{get_endpoint, list_endpoints}

module _ (auth : Business) where
  pub get_customer-IsReading : (id : Uuid) → IsReading (get_customer auth id)
  unfolding get_customer get_customer_service
  get_customer-IsReading id = search reading_rules depth 9

  pub list_customers-IsReading : IsReading (list_customers auth)
  unfolding list_customers list_customers_service
  list_customers-IsReading = search reading_rules depth 9

  pub get_invoice-IsReading : (id : Uuid) → IsReading (get_invoice auth id)
  unfolding get_invoice get_invoice_service
  get_invoice-IsReading id = search reading_rules depth 9

  list_by_state-IsReading :
      (id : Uuid) (state : Option InvoiceState) → IsReading (list_by_state id state)
  unfolding list_by_state
  list_by_state-IsReading id none = search reading_rules
  list_by_state-IsReading id (some state) = search reading_rules

  pub list_invoices-IsReading : (req : ListInvoicesQuery) → IsReading (list_invoices auth req)
  unfolding list_invoices list_invoices_service
  list_invoices-IsReading req = list_by_state-IsReading auth.id req.state

  pub get_endpoint-IsReading : (id : Uuid) → IsReading (get_endpoint auth id)
  unfolding get_endpoint get_endpoint_service
  get_endpoint-IsReading id = search reading_rules depth 9

  pub list_endpoints-IsReading : IsReading (list_endpoints auth)
  unfolding list_endpoints list_endpoints_service
  list_endpoints-IsReading = search reading_rules depth 9

pub authenticate-IsReading :
    (keys : Keys) (header : Option (Option String)) → IsReading (authenticate keys header)
unfolding authenticate extract_api_key find_business_by_key
authenticate-IsReading keys header = search reading_rules depth 12
