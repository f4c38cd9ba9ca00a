-- ===== src/Models/Invoices.antt =====
-- src/models/invoice.rs: invoices, their line items and their states.
use payman.Prelude.{String, Bool, true, false, Option, List}
use payman.Prelude.Int.{ℤ}
use payman.Models.JsonValues.{Uuid, DateTime, NaiveDate}

-- `opened` is the source's `Open`: `open` is a reserved word here.
pub data InvoiceState : Type 0 where
  draft opened paid void uncollectible processing : InvoiceState

-- The derived `PartialEq`.
abbrev pub eq_state : InvoiceState → InvoiceState → Bool
eq_state draft t = elim t [ draft ↦ true | _ ↦ false ]
eq_state opened t = elim t [ opened ↦ true | _ ↦ false ]
eq_state paid t = elim t [ paid ↦ true | _ ↦ false ]
eq_state void t = elim t [ void ↦ true | _ ↦ false ]
eq_state uncollectible t = elim t [ uncollectible ↦ true | _ ↦ false ]
eq_state processing t = elim t [ processing ↦ true | _ ↦ false ]

unfoldable pub can_transition_to : InvoiceState → InvoiceState → Bool
can_transition_to draft opened = true
can_transition_to draft void = true
can_transition_to opened processing = true
can_transition_to processing paid = true
can_transition_to processing opened = false
can_transition_to processing uncollectible = true
can_transition_to opened void = true
can_transition_to opened uncollectible = true
can_transition_to _ _ = false

pub record Invoice : Type 0 where
  pub id : Uuid
  pub business_id : Uuid
  pub customer_id : Uuid
  pub state : InvoiceState
  pub total_cents : ℤ
  pub due_date : NaiveDate
  pub created_at : DateTime
  pub updated_at : DateTime
  pub versioning : ℤ

pub record LineItem : Type 0 where
  pub id : Uuid
  pub invoice_id : Uuid
  pub description : String
  pub quantity : ℤ
  pub unit_amount_cents : ℤ
  pub created_at : DateTime

pub record CreateLineItemRequest : Type 0 where
  pub description : String
  pub quantity : ℤ
  pub unit_amount_cents : ℤ

pub record CreateInvoiceRequest : Type 0 where
  pub customer_id : Uuid
  pub due_date : NaiveDate
  pub line_items : List CreateLineItemRequest

pub record EditInvoiceRequest : Type 0 where
  pub due_date : Option NaiveDate
  pub line_items : Option (List CreateLineItemRequest)
  pub versioning : ℤ

pub record FinalizeInvoiceRequest : Type 0 where
  pub versioning : ℤ

pub record VoidInvoiceRequest : Type 0 where
  pub versioning : ℤ

-- The result of a service.
pub record InvoiceResult : Type 0 where
  pub invoice : Invoice
  pub line_items : List LineItem

-- What a handler answers.
pub record InvoiceResponse : Type 0 where
  pub invoice : Invoice
  pub line_items : List LineItem

-- The derived `Debug` of a state.
unfoldable pub debug_state : InvoiceState → String
debug_state draft = "Draft"
debug_state opened = "Open"
debug_state paid = "Paid"
debug_state void = "Void"
debug_state uncollectible = "Uncollectible"
debug_state processing = "Processing"
