-- ===== src/Services/Invoices/States.antt =====
-- The order that `can_transition_to` of src/models/invoice.rs follows.
use payman.Prelude.{ℕ, ◌≡◌, true, ◌<◌, arith}
use payman.Models.{
  InvoiceState, draft, opened, paid, void, uncollectible, processing, can_transition_to,
}

-- How far a state is along the life of an invoice. The three last states are equally far.
abbrev pub rank : InvoiceState → ℕ
rank draft = 0
rank opened = 1
rank processing = 2
rank paid = 3
rank void = 3
rank uncollectible = 3

-- Every permitted transition goes forward: no chain of them returns to a state, and none leaves
-- `Paid`, `Void` or `Uncollectible`.
pub can_transition_to-rank : (s t : InvoiceState) → can_transition_to s t ≡ true → rank s < rank t
unfolding can_transition_to
can_transition_to-rank draft t h = ground arith
can_transition_to-rank opened t h = ground arith
can_transition_to-rank paid t h = ground arith
can_transition_to-rank void t h = ground arith
can_transition_to-rank uncollectible t h = ground arith
can_transition_to-rank processing t h = ground arith
