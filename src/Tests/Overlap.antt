-- ===== src/Tests/Overlap.antt =====
-- Two edits of one draft whose transactions overlap: src/services/invoices.rs.
use payman.Prelude.{refl, ◌≡◌, Bool, ◌||◌, ◌==◌, none, some, [], ◌∷◌, map, arith, ap}
use payman.Prelude.Int.{pos_part, pos, add_i64, mul_i64}
use payman.Models.{Invoice, LineItem, EditInvoiceRequest}
use payman.Store.{World, transaction, ◌>>=◌, insert}
use payman.Services.Invoices.Consistent.{IsConsistent}
use payman.Services.Invoices.Create.{add_line_item}
use payman.Services.Invoices.Edit.{
  all_rows, edit_rows, set_due_date, set_line_items, replace_line_items, add_line_items,
}
use payman.Services.Invoices.Statements.{insert_line_item, update_invoices, delete_line_items}
use payman.Services.Invoices.Totals.{total_cents}
use payman.Tests.Data.{drafted, two_pens, a_desk}

-- The rows that are stored before either edit.
abbrev stored : LineItem → Bool
stored li = li.id == 101 || li.id == 102

abbrev first_edit : EditInvoiceRequest
first_edit = record { due_date = none; line_items = some (two_pens ∷ []); versioning = pos 1 }

abbrev second_edit : EditInvoiceRequest
second_edit = record { due_date = none; line_items = some (a_desk ∷ []); versioning = pos 2 }

abbrev after_first : World
after_first = (transaction (edit_rows all_rows 100 first_edit) drafted).1

-- The `DELETE` of the second edit started before the first was committed, and waited for it.
abbrev after_both : World
after_both = (transaction (edit_rows stored 100 second_edit) after_first).1

program : Unit {0}
unfolding transaction edit_rows set_due_date set_line_items replace_line_items add_line_items
    add_line_item insert_line_item update_invoices delete_line_items total_cents ◌>>=◌ add_i64
    mul_i64 insert
program = tt

-- The invoice has the total of the second edit, and the items of both.
lost_total : map (λ (r : Invoice). r.total_cents) after_both.db.invoices ≡ pos 20_000 ∷ []
unfolding program
lost_total = refl

all_items :
    map (λ (li : LineItem). li.unit_amount_cents) after_both.db.line_items
    ≡ pos 150 ∷ pos 20_000 ∷ []
unfolding program
all_items = refl

overlapping-not-IsConsistent : ¬ IsConsistent after_both.db
unfolding program
overlapping-not-IsConsistent h =
    let wrong : pos 20_000 ≡ pos 20_300 = h.totals.0 in
    let parts : 20_000 ≡ 20_300 = ap pos_part wrong in omega (arith, parts)
