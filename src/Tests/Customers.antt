-- ===== src/Tests/Customers.antt =====
-- Customers, and the list of invoices.
use payman.Prelude.{
  ◌≡◌, refl, ◌∷◌, [], ◌+◌, trim, trim_start, trim_end, some, select, order_by_desc, insert_desc,
  Perm, IsDescending, List,
}
use payman.Models.{Customer, CreateCustomerRequest, Invoice, draft}
use payman.Errors.{conflict, ok, err}
use payman.Store.{◌>>=◌, insert, World}
use payman.Services.Customers.{insert_customer, email_taken, map_err, create_customer, get_customer}
use payman.Services.Customers.Lookups.{create_customer-get_customer, create_customer-conflict}
use payman.Services.Invoices.Read.{list_by_state, list_invoices}
use payman.Services.Invoices.Listing.{is_wanted, list_invoices-eq-ok}
use payman.Tests.Data.{start, tables, ordered}

program : Unit {0}
unfolding create_customer insert_customer email_taken map_err insert trim trim_start trim_end ◌>>=◌
    list_invoices list_by_state order_by_desc insert_desc
program = tt

abbrev grace : CreateCustomerRequest
grace = record { name = " Grace"; email = "grace@example.com" }

abbrev as_stored : Customer
as_stored = record {
  id = 100;
  business_id = 1;
  name = "Grace";
  email = "grace@example.com";
  created_at = 1_000_000_000_000;
}

abbrev welcomed : World
welcomed = (create_customer grace 1 start).1

welcoming : create_customer grace 1 start ≡ (ok as_stored, welcomed)
unfolding program
welcoming = refl

create_customer-get_customer_example :
    (as_stored.name ≡ trim grace.name)
    × (as_stored.email ≡ trim grace.email)
    × (get_customer 100 1 welcomed
        ≡ (ok as_stored, record welcomed { statements = welcomed.statements + 1 }))
unfolding program
create_customer-get_customer_example = create_customer-get_customer grace 1 start welcoming refl

abbrev again : CreateCustomerRequest
again = record { name = "Ada"; email = " ada@example.com " }

create_customer-conflict_example : create_customer again 1 start ≡ (
  err (conflict "customer with this email already exists"),
  record start { drawn = 1; statements = 1 },
)
unfolding program
create_customer-conflict_example = create_customer-conflict again 1 start refl refl refl

-- An older invoice and a later one, and one of another business.
abbrev several : World
several = record start {
  db = record tables {
    invoices =
        record ordered { id = 7; created_at = 5 }
        ∷ record ordered { business_id = 3 }
        ∷ ordered
        ∷ [];
  };
}

abbrev listed : List Invoice
listed = ordered ∷ record ordered { id = 7; created_at = 5 } ∷ []

listing :
    list_invoices 1 (record { state = some draft }) several
    ≡ (ok listed, record several { statements = 1 })
unfolding program
listing = refl

list_invoices-eq-ok_example :
    Perm listed (select (is_wanted 1 (some draft)) several.db.invoices)
    × IsDescending (λ (r : Invoice). r.created_at) listed
    × (several.db ≡ several.db)
list_invoices-eq-ok_example = list_invoices-eq-ok 1 (record { state = some draft }) several listing
