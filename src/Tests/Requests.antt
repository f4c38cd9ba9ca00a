-- ===== src/Tests/Requests.antt =====
-- Runs of several requests.
use payman.Services.Invoices.Lifecycle.{view}
use payman.System.Lifecycle.{IsIssued, Reach-IsIssued}
use payman.Prelude.{refl}
use payman.Prelude.Int.{pos}
use payman.Store.{World}
use payman.Services.Invoices.Consistent.{IsConsistent}
use payman.System.{create, finalize, here, next, Won, Reach-IsConsistent, Won_once}
use payman.Tests.Codec.{codec}
use payman.Tests.Data.{start, order, drafted, issued, finalized}
use payman.Tests.Invoices.{finalizing}
use payman.Services.Invoices.Create.{create_invoice}
use payman.Services.Invoices.Transitions.{finalize_invoice}

start-IsConsistent : IsConsistent start.db
start-IsConsistent = record { totals = tt; owned = tt; charged = tt }

abbrev after_order : World
after_order = (create_invoice 1 order start).1

abbrev after_issue : World
after_issue = (finalize_invoice 100 1 (record { versioning = pos 1 }) after_order).1

Reach-IsConsistent_example : IsConsistent after_issue.db
Reach-IsConsistent_example =
    Reach-IsConsistent codec start-IsConsistent
      (next (next here (create 1 order)) (finalize 100 1 (record { versioning = pos 1 })))
      ((tt, tt), tt)

-- The second order comes between.
Won_once_example : ¬ (Won codec 100 (pos 1) (create_invoice 1 order issued).1 issued)
Won_once_example =
    Won_once codec 100 (pos 1) {w = drafted} (refl, tt)
      (Won.finalized 1 (record { versioning = pos 1 }) finalized refl finalizing)
      (next here (create 1 order))

Reach-IsIssued_example : IsIssued (view 100 (create_invoice 1 order issued).1.db.invoices)
Reach-IsIssued_example =
    Reach-IsIssued codec {w = issued} 100 (refl, tt) tt (next here (create 1 order))
