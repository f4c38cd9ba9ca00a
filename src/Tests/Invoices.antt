-- ===== src/Tests/Invoices.antt =====
-- The services on invoices.
use payman.Services.Invoices.Progress.{
  moved_world, void_invoice-succeeds, finalize_invoice-succeeds,
}
use payman.Prelude.{
  ◌≡◌, refl, List, ◌∷◌, [], ◌<◌, ◌%◌, ◌^◌, ◌&&◌, ◌==◌, trim, trim_start, trim_end, arith, All, true,
}
use payman.Prelude.Int.{pos, ◌+ℤ◌, add_i64, mul_i64, to_u64}
use payman.Models.{can_transition_to, draft, opened, InvoiceState, CreateLineItemRequest, Invoice}
use payman.Errors.{ok}
use payman.Store.{◌>>=◌, insert, IsAtomic, unfailing}
use payman.Services.Invoices.Totals.{
  line_total, total_cents, IsPositive, exact_total, total_cents_exact, total_cents_wraps,
}
use payman.Services.Invoices.Statements.{
  insert_invoice, insert_line_item, update_invoices, bump_invoices,
}
use payman.Services.Invoices.Create.{
  add_line_item, check_line_item, add_checked_line_items, insert_draft, create_invoice,
}
use payman.Services.Invoices.Transitions.{
  set_state, finalize_draft, finalize_invoice, void_at_version, void_invoice,
}
use payman.Services.Invoices.Atomic.{create_invoice-IsAtomic}
use payman.Services.Invoices.States.{rank, can_transition_to-rank}
use payman.Services.Invoices.Outcomes.{
  FromDraft, at_version, finalize_invoice-eq-ok, void_invoice-eq-ok, moved,
}
use payman.Tests.Data.{start, order, ordered, drafted, issued, pens, desk, finalized, voided}

program : Unit {0}
unfolding create_invoice insert_draft add_checked_line_items check_line_item add_line_item
    total_cents line_total insert_invoice insert_line_item trim trim_start trim_end ◌>>=◌ insert
    finalize_invoice finalize_draft set_state bump_invoices update_invoices can_transition_to
    void_invoice void_at_version add_i64 mul_i64 ◌+ℤ◌
program = tt

pub ordering :
    create_invoice 1 order start
    ≡ (ok (record { invoice = ordered; line_items = pens ∷ desk ∷ [] }), drafted)
unfolding program
ordering = refl

pub finalizing :
    finalize_invoice 100 1 (record { versioning = pos 1 }) drafted ≡ (ok finalized, issued)
unfolding program
finalizing = refl

voiding : void_invoice 100 1 (record { versioning = pos 1 }) drafted ≡ (ok (voided.0), voided.1)
unfolding program
voiding = refl

order-IsPositive : All IsPositive order.line_items
order-IsPositive = ((omega arith, omega arith), ((omega arith, omega arith), tt))

total_cents_exact_example : total_cents order.line_items ≡ pos 20_300
total_cents_exact_example = total_cents_exact order.line_items order-IsPositive (omega arith)

-- The exact total is 2^64 + 4.
abbrev huge : List CreateLineItemRequest
huge =
    record { description = ""; quantity = pos 2; unit_amount_cents = pos 9_223_372_036_854_775_807 }
    ∷ record { description = ""; quantity = pos 3; unit_amount_cents = pos 2 }
    ∷ []

huge-IsPositive : All IsPositive huge
huge-IsPositive = ((omega arith, omega arith), ((omega arith, omega arith), tt))

wrapped : total_cents huge ≡ pos 4
unfolding program
wrapped = refl

total_cents_wraps_example : to_u64 (total_cents huge) ≡ exact_total huge % 2 ^ 64
total_cents_wraps_example = total_cents_wraps huge huge-IsPositive

create_invoice-IsAtomic_example : IsAtomic (create_invoice 1 order)
create_invoice-IsAtomic_example = create_invoice-IsAtomic 1 order

can_transition_to-rank_example : rank draft < rank opened
unfolding can_transition_to
can_transition_to-rank_example = can_transition_to-rank draft opened refl

finalize_invoice-eq-ok_example :
    FromDraft
      (λ r. r.id == 100 && r.business_id == 1)
      opened
      drafted.now
      100
      1
      (pos 1)
      finalized
      drafted.db
      issued.db
finalize_invoice-eq-ok_example =
    finalize_invoice-eq-ok 100 1 (record { versioning = pos 1 }) drafted finalizing

void_invoice-eq-ok_example :
    FromDraft
      (at_version 100 1 (pos 1))
      InvoiceState.void
      drafted.now
      100
      1
      (pos 1)
      voided.0
      drafted.db
      voided.1.db
void_invoice-eq-ok_example =
    void_invoice-eq-ok 100 1 (record { versioning = pos 1 }) drafted voiding

finalize_invoice-succeeds_example :
    (found : Invoice) × (finalize_invoice 100 1 (record { versioning = pos 1 }) (unfailing drafted)
      ≡ (
        ok (moved opened drafted.now found),
        record (moved_world opened 100 1 (pos 1) drafted) {
          tasks =
              record { business_id = 1; invoice_id = 100; event_type = "invoice.finalized" } ∷ [];
        },
      ))
    × (at_version 100 1 (pos 1) found ≡ true)
finalize_invoice-succeeds_example =
    finalize_invoice-succeeds 100 1 (pos 1) drafted {r = ordered} refl refl refl refl

void_invoice-succeeds_example :
    void_invoice 100 1 (record { versioning = pos 1 }) (unfailing drafted) ≡ (
      ok (moved InvoiceState.void drafted.now ordered),
      moved_world InvoiceState.void 100 1 (pos 1) drafted,
    )
void_invoice-succeeds_example =
    void_invoice-succeeds 100 1 (pos 1) drafted {r = ordered} refl refl refl refl
