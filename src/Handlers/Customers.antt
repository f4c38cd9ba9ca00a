-- ===== src/Handlers/Customers.antt =====
-- src/handlers/customers.rs. `auth` is the business that the request was authenticated as.
use payman.Prelude.{List, trim, is_empty_str}
use payman.Models.{Uuid, Business, Customer, CreateCustomerRequest}
use payman.Errors.{bad_request}
use payman.Store.{Action, ◌>>◌, raise_if}
use payman.Services.Customers.{
  create_customer as create_customer_service, get_customer as get_customer_service,
  list_customers as list_customers_service,
}

unfoldable pub create_customer : Business → CreateCustomerRequest → Action Customer
create_customer auth req = do
  raise_if (is_empty_str (trim req.name)) (bad_request "name cannot be empty")
  raise_if (is_empty_str (trim req.email)) (bad_request "email cannot be empty")
  create_customer_service req auth.id

unfoldable pub get_customer : Business → Uuid → Action Customer
get_customer auth id = get_customer_service id auth.id

unfoldable pub list_customers : Business → Action (List Customer)
list_customers auth = list_customers_service auth.id
