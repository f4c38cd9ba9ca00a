-- ===== src/Services/Invoices/Statements.antt =====
-- The SQL statements of src/services/invoices.rs, on the tables.
use payman.Prelude.{
  Bool, ◌&&◌, not, List, ◌∷◌, [], map, ◌++◌, ◌==◌, if◌then◌else◌, select, update, delete, exists,
}
use payman.Prelude.Int.{pos, ◌+ℤ◌, eqb_ℤ, ltb_ℤ}
use payman.Models.{Uuid, Customer, Invoice, LineItem}
use payman.Errors.{database, out_of_range, Result, ok, err}
use payman.Store.{Db, insert}

unfoldable pub insert_invoice : Invoice → Db → Result (List Invoice) × Db
insert_invoice row d =
    insert row
      ((not (exists (λ r. r.id == row.id) d.invoices), "invoices_pkey")
        ∷ (exists (λ b. b.id == row.business_id) d.businesses, "invoices_business_id_fkey")
        ∷ (exists (λ c. c.id == row.customer_id) d.customers, "invoices_customer_id_fkey")
        ∷ [])
      (λ t. record t { invoices = t.invoices ++ row ∷ [] }) d

unfoldable pub insert_line_item : LineItem → Db → Result (List LineItem) × Db
insert_line_item row d =
    insert row
      ((not (exists (λ r. r.id == row.id) d.line_items), "invoice_line_items_pkey")
        ∷ (exists (λ i. i.id == row.invoice_id) d.invoices, "invoice_line_items_invoice_id_fkey")
        ∷ (ltb_ℤ (pos 0) row.quantity, "invoice_line_items_quantity_check")
        ∷ (ltb_ℤ (pos 0) row.unit_amount_cents, "invoice_line_items_unit_amount_cents_check")
        ∷ [])
      (λ t. record t { line_items = t.line_items ++ row ∷ [] }) d

-- `UPDATE invoices SET f WHERE p RETURNING …`
unfoldable pub update_invoices :
    (Invoice → Bool) → (Invoice → Invoice) → Db → Result (List Invoice) × Db
update_invoices p f d =
    (ok (map f (select p d.invoices)), record d { invoices = update p f d.invoices })

abbrev pub bump : (Invoice → Invoice) → Invoice → Invoice
bump f r = let r' = f r in record r' { versioning = r.versioning +ℤ pos 1 }

-- The same with `versioning = versioning + 1` among the settings: the column is a 32-bit integer,
-- and the statement fails where that would leave its range.
unfoldable pub bump_invoices :
    (Invoice → Bool) → (Invoice → Invoice) → Db → Result (List Invoice) × Db
unfolding update_invoices
bump_invoices p f d =
    if exists (λ r. p r && eqb_ℤ r.versioning (pos 2_147_483_647)) d.invoices
    then (err (database out_of_range), d)
    else update_invoices p (bump f) d

-- `DELETE FROM invoice_line_items WHERE invoice_id = $1`. The statement sees the rows that were committed
-- when it started: `seen` says which, since it may have waited for another transaction after that.
unfoldable pub delete_line_items : (LineItem → Bool) → Uuid → Db → Result (List LineItem) × Db
delete_line_items seen id d = (
  ok (select (λ r. r.invoice_id == id && seen r) d.line_items),
  record d { line_items = delete (λ r. r.invoice_id == id && seen r) d.line_items },
)

abbrev pub customers_by_id : Uuid → Uuid → Db → List Customer
customers_by_id id business_id d =
    select (λ c. c.id == id && c.business_id == business_id) d.customers

abbrev pub invoices_by_id : Uuid → Uuid → Db → List Invoice
invoices_by_id id business_id d =
    select (λ r. r.id == id && r.business_id == business_id) d.invoices

abbrev pub line_items_of : Uuid → List LineItem → List LineItem
line_items_of id = select (λ r. r.invoice_id == id)
