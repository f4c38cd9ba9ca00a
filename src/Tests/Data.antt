-- ===== src/Tests/Data.antt =====
-- One business with one customer, and the requests that it sends.
use payman.Prelude.{false, [], ◌∷◌, ◌+◌}
use payman.Prelude.Int.{pos}
use payman.Models.{
  Business, Customer, Invoice, LineItem, CreateInvoiceRequest, CreateLineItemRequest, draft, opened,
  InvoiceState,
}
use payman.Store.{Db, World}

abbrev pub acme : Business
acme = record { id = 1; name = "Acme"; created_at = 0 }

abbrev pub ada : Customer
ada = record { id = 2; business_id = 1; name = "Ada"; email = "ada@example.com"; created_at = 0 }

abbrev pub tables : Db
tables = record {
  businesses = acme ∷ [];
  api_keys = [];
  customers = ada ∷ [];
  invoices = [];
  line_items = [];
  payment_attempts = [];
  idempotency_keys = [];
  webhook_endpoints = [];
  webhook_deliveries = [];
}

-- The first eleven days of 1970 have passed, and no statement fails.
abbrev pub start : World
start = record {
  db = tables;
  now = 1_000_000_000_000;
  uuids = λ n. 100 + n;
  drawn = 0;
  faults = λ _. false;
  statements = 0;
  tasks = [];
}

abbrev pub two_pens : CreateLineItemRequest
two_pens = record { description = " pens "; quantity = pos 2; unit_amount_cents = pos 150 }

abbrev pub a_desk : CreateLineItemRequest
a_desk = record { description = "desk"; quantity = pos 1; unit_amount_cents = pos 20_000 }

abbrev pub order : CreateInvoiceRequest
order = record { customer_id = 2; due_date = pos 30; line_items = two_pens ∷ a_desk ∷ [] }

abbrev pub ordered : Invoice
ordered = record {
  id = 100;
  business_id = 1;
  customer_id = 2;
  state = draft;
  total_cents = pos 20_300;
  due_date = pos 30;
  created_at = 1_000_000_000_000;
  updated_at = 1_000_000_000_000;
  versioning = pos 1;
}

abbrev pub finalized : Invoice
finalized = record ordered { state = opened; versioning = pos 2 }

abbrev pub pens : LineItem
pens = record {
  id = 101;
  invoice_id = 100;
  description = "pens";
  quantity = pos 2;
  unit_amount_cents = pos 150;
  created_at = 1_000_000_000_000;
}

abbrev pub desk : LineItem
desk = record {
  id = 102;
  invoice_id = 100;
  description = "desk";
  quantity = pos 1;
  unit_amount_cents = pos 20_000;
  created_at = 1_000_000_000_000;
}

-- After the order, at some later statement.
abbrev pub drafted : World
drafted = record start {
  db = record tables { invoices = ordered ∷ []; line_items = pens ∷ desk ∷ [] };
  drawn = 3;
  statements = 6;
}

-- After it was finalized.
abbrev pub issued : World
issued = record drafted {
  db = record tables { invoices = finalized ∷ []; line_items = pens ∷ desk ∷ [] };
  tasks = record { business_id = 1; invoice_id = 100; event_type = "invoice.finalized" } ∷ [];
  statements = 10;
}

-- The invoice after the draft was voided instead, and the world then.
abbrev pub voided : Invoice × World
voided =
    let row = record ordered { state = InvoiceState.void; versioning = pos 2 } in
    (
      row,
      record drafted {
        db = record tables { invoices = row ∷ []; line_items = pens ∷ desk ∷ [] };
        statements = 10;
      },
    )

-- A day of waiting is less than this.
abbrev pub next_morning : World
next_morning = record issued { now = 1_040_000_000_000 }
