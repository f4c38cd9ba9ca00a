-- ===== src/Services/Invoices/Atomic.antt =====
-- Which requests of src/services/invoices.rs leave nothing behind when they fail.
use payman.Models.{Uuid, CreateInvoiceRequest, FinalizeInvoiceRequest, VoidInvoiceRequest}
use payman.Store.{IsAtomic, transaction-IsAtomic, >>=-IsAtomic_last, atomic_rules, total_rules}
use payman.Services.Invoices.Create.{create_invoice}
use payman.Services.Invoices.Transitions.{finalize_invoice, void_invoice}

-- A request to create an invoice that fails leaves every table as it was.
pub create_invoice-IsAtomic :
    (business_id : Uuid) (req : CreateInvoiceRequest) → IsAtomic (create_invoice business_id req)
unfolding create_invoice
create_invoice-IsAtomic business_id req = search (atomic_rules, transaction-IsAtomic) depth 9

-- A request to finalize an invoice that fails leaves every table as it was.
pub finalize_invoice-IsAtomic :
    (id business_id : Uuid) (req : FinalizeInvoiceRequest)
    → IsAtomic (finalize_invoice id business_id req)
unfolding finalize_invoice
finalize_invoice-IsAtomic id business_id req =
    search (>>=-IsAtomic_last, transaction-IsAtomic, total_rules)

-- A request to void an invoice that fails leaves every table as it was.
pub void_invoice-IsAtomic :
    (id business_id : Uuid) (req : VoidInvoiceRequest) → IsAtomic (void_invoice id business_id req)
unfolding void_invoice
void_invoice-IsAtomic id business_id req = transaction-IsAtomic _
