-- ===== src/Services/Invoices/Listing.antt =====
-- What `list_invoices` of src/services/invoices.rs returns.
use payman.Prelude.{
  ◌≡◌, Bool, Option, none, some, List, ◌&&◌, ◌==◌, select, Perm, IsDescending, order_by_desc-Perm,
  order_by_desc-IsDescending,
}
use payman.Models.{Uuid, InvoiceState, eq_state, Invoice}
use payman.Errors.{ok}
use payman.Store.{World, query-eq-ok}
use payman.Services.Invoices.Read.{ListInvoicesQuery, list_by_state, list_invoices}

-- The invoices that are asked for.
abbrev pub is_wanted : Uuid → Option InvoiceState → Invoice → Bool
is_wanted business_id none r = r.business_id == business_id
is_wanted business_id (some state) r = r.business_id == business_id && eq_state r.state state

list_by_state-eq-ok :
    (business_id : Uuid) (state : Option InvoiceState) (w : World) {rows : List Invoice}
    {w' : World}
    → list_by_state business_id state w ≡ (ok rows, w')
    → Perm rows (select (is_wanted business_id state) w.db.invoices)
      × IsDescending (λ r. r.created_at) rows
      × (w'.db ≡ w.db)
unfolding list_by_state
list_by_state-eq-ok business_id none w run =
    let (read, later) = query-eq-ok _ w run in
    (rw read (order_by_desc-Perm _ _), rw read (order_by_desc-IsDescending _ _), later.same_db)
list_by_state-eq-ok business_id (some state) w run =
    let (read, later) = query-eq-ok _ w run in
    (rw read (order_by_desc-Perm _ _), rw read (order_by_desc-IsDescending _ _), later.same_db)

-- A list of invoices holds the invoices of the business, and of the wanted state if one is given, each
-- as often as it is stored; the latest come first; and no table changes.
pub list_invoices-eq-ok :
    (business_id : Uuid) (req : ListInvoicesQuery) (w : World) {rows : List Invoice} {w' : World}
    → list_invoices business_id req w ≡ (ok rows, w')
    → Perm rows (select (is_wanted business_id req.state) w.db.invoices)
      × IsDescending (λ r. r.created_at) rows
      × (w'.db ≡ w.db)
unfolding list_invoices
list_invoices-eq-ok business_id req w run = list_by_state-eq-ok business_id req.state w run
