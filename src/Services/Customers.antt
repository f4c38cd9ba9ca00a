-- ===== src/Services/Customers.antt =====
-- src/services/customers.rs.
pub mod Lookups
use payman.Prelude.{
  String, Bool, ◌&&◌, not, List, [], ◌∷◌, ◌++◌, ◌==◌, str_eq, trim, select, exists, order_by_desc,
  if◌then◌else◌,
}
use payman.Models.{Uuid, Customer, CreateCustomerRequest}
use payman.Errors.{AppError, constraint, database, conflict, not_found, Result, ok, err}
use payman.Store.{
  Db, World, Action, ◌>>=◌, or_raise, utc_now, new_v4, exec, query, insert, fetch_one,
  fetch_optional,
}

-- `UNIQUE(business_id, email)`
abbrev pub has_email : Uuid → String → Customer → Bool
has_email business_id email c = c.business_id == business_id && str_eq c.email email

unfoldable pub insert_customer : Customer → Db → Result (List Customer) × Db
insert_customer row d =
    insert row
      ((not (exists (λ c. c.id == row.id) d.customers), "customers_pkey")
        ∷ (
          not (exists (has_email row.business_id row.email) d.customers),
          "customers_business_id_email_key",
        )
        ∷ (exists (λ b. b.id == row.business_id) d.businesses, "customers_business_id_fkey")
        ∷ [])
      (λ t. record t { customers = t.customers ++ row ∷ [] }) d

-- The closure of `map_err`.
unfoldable pub email_taken : AppError → AppError
email_taken (database (constraint name)) =
    if str_eq name "customers_business_id_email_key"
    then conflict "customer with this email already exists"
    else database (constraint name)
email_taken e = e

abbrev pub map_result {ℓ} :
    {A : Type ℓ} → (AppError → AppError) → Result A × World → Result A × World
map_result f (ok a, w) = (ok a, w)
map_result f (err e, w) = (err (f e), w)

unfoldable pub map_err {ℓ} : {A : Type ℓ} → (AppError → AppError) → Action A → Action A
map_err f m w = map_result f (m w)

unfoldable pub create_customer : CreateCustomerRequest → Uuid → Action Customer
create_customer req business_id = do
  id ← new_v4
  let name = trim req.name
  let email = trim req.email
  now ← utc_now
  map_err email_taken (
      fetch_one (
        exec (
          insert_customer (record {
            id = id;
            business_id = business_id;
            name = name;
            email = email;
            created_at = now;
          }))))

unfoldable pub get_customer : Uuid → Uuid → Action Customer
get_customer id business_id = do
  found ←
      fetch_optional
        (query (λ d. select (λ c. c.id == id && c.business_id == business_id) d.customers))
  or_raise found not_found

unfoldable pub list_customers : Uuid → Action (List Customer)
list_customers business_id = query (λ d.
    order_by_desc (λ c. c.created_at) (select (λ c. c.business_id == business_id) d.customers))
