-- ===== src/Services/Invoices/Outcomes.antt =====
-- What a successful `finalize_invoice` or `void_invoice` of src/services/invoices.rs found and wrote.
use payman.Prelude.{
  ◌≡◌, refl, some, head?, map, select, update, ◌&&◌, ◌==◌, Bool, not, false, ap, ◌∙◌, sym, List,
}
use payman.Prelude.Int.{ℤ, eqb_ℤ}
use payman.Models.{
  Uuid, DateTime, InvoiceState, Invoice, draft, can_transition_to, opened, FinalizeInvoiceRequest,
  VoidInvoiceRequest,
}
use payman.Errors.{ok}
use payman.Store.{
  World, Db, >>=-eq-ok, or_raise-eq-ok, pure-eq-ok, utc_now-eq-ok, exec-eq-ok, query-eq-ok,
  raise_if-eq-ok, spawn-IsReading, query, transaction-eq-ok, reading-same,
}
use payman.Services.Invoices.Statements.{bump}
use payman.Services.Invoices.Updates.{bump-eq-ok}
use payman.Services.Invoices.Transitions.{
  set_state, finalize_invoice, finalize_draft, void_at_version, void_invoice,
}

-- The settings of the `UPDATE`, and its condition.
abbrev pub moved : InvoiceState → DateTime → Invoice → Invoice
moved target now = bump (λ r. record r { state = target; updated_at = now })

abbrev pub at_version : Uuid → Uuid → ℤ → Invoice → Bool
at_version id business_id v r = r.id == id && r.business_id == business_id && eqb_ℤ r.versioning v

-- The tables before and after an `UPDATE` that found a row and returned `r`.
pub record Moved (target : InvoiceState) (now : DateTime) (id business_id : Uuid) (v : ℤ)
    (r : Invoice) (d d' : Db) : Type 0 where
  pub returned :
      head? (map (moved target now) (select (at_version id business_id v) d.invoices)) ≡ some r
  pub written :
      d'
      ≡ record d { invoices = update (at_version id business_id v) (moved target now) d.invoices }

Moved-of_eq :
    (target : InvoiceState) (id business_id : Uuid) (v : ℤ) {now now' : DateTime} {r : Invoice}
    {d d' e : Db}
    → now ≡ now'
    → d ≡ d'
    → Moved target now id business_id v r d e
    → Moved target now' id business_id v r d' e
Moved-of_eq target id business_id v {e = e} h k m = record {
  returned = rw (← h, ← k) m.returned;
  written = rw (← h, ← k) m.written;
}

set_state-eq-ok :
    (target : InvoiceState) (id business_id : Uuid) (v : ℤ) (w : World) {r : Invoice} {w' : World}
    → set_state target id business_id v w ≡ (ok r, w')
    → Moved target w.now id business_id v r w.db w'.db
unfolding set_state
set_state-eq-ok target id business_id v w run =
    let (now, w₁, e₁, run₁) = >>=-eq-ok _ _ w run in
    let (o, w₂, e₂, run₂) = >>=-eq-ok _ _ w₁ run₁ in
    let (rows, w₃, e₃, run₃) = >>=-eq-ok _ _ w₁ e₂ in
    let (found, same₂) = or_raise-eq-ok o _ w₂ run₂ in
    let (head, same₃) = pure-eq-ok _ w₃ run₃ in
    let (time, same₁) = utc_now-eq-ok w e₁ in
    let (read, same) = exec-eq-ok _ w₁ e₃ in
    let (selected, wrote) = bump-eq-ok _ _ w₁.db read in
    record {
      returned = rw (← found, head, selected, time, same₁) refl;
      written = rw (same₂, same₃, wrote, time, same₁) refl;
    }

-- Only a draft may be opened.
draft_of_test : (s : InvoiceState) → not (can_transition_to s opened) ≡ false → s ≡ draft
unfolding can_transition_to
draft_of_test draft h = refl
draft_of_test opened h = cc
draft_of_test InvoiceState.paid h = cc
draft_of_test InvoiceState.void h = cc
draft_of_test InvoiceState.uncollectible h = cc
draft_of_test InvoiceState.processing h = cc

-- The row that was read, the first that passes `p`, was a draft, and the invoice was moved to `target`.
pub record FromDraft (p : Invoice → Bool) (target : InvoiceState) (now : DateTime)
    (id business_id : Uuid) (v : ℤ) (r : Invoice) (d d' : Db) : Type 0 where
  pub found : Invoice
  pub first : head? (select p d.invoices) ≡ some found
  pub was_draft : found.state ≡ draft
  pub moved : Moved target now id business_id v r d d'

FromDraft-of_eq :
    (p : Invoice → Bool) (target : InvoiceState) (id business_id : Uuid) (v : ℤ)
    {now now' : DateTime} {r r' : Invoice} {d d' e e' : Db}
    → now ≡ now'
    → d ≡ d'
    → e' ≡ e
    → r' ≡ r
    → FromDraft p target now id business_id v r d e
    → FromDraft p target now' id business_id v r' d' e'
FromDraft-of_eq p target id business_id v h k l m x = record {
  found = x.found;
  first = rw (← k) x.first;
  was_draft = x.was_draft;
  moved = rw (← h, ← k, l, m) x.moved;
}

query_first :
    (p : Invoice → Bool) (w : World) {rows : List Invoice} {found : Invoice} {w' : World}
    → query (λ d. select p d.invoices) w ≡ (ok rows, w')
    → head? rows ≡ some found
    → head? (select p w.db.invoices) ≡ some found
query_first p w read first = ap head? (sym (query-eq-ok _ w read).0) ∙ first

finalize_draft-eq-ok :
    (id business_id : Uuid) (req : FinalizeInvoiceRequest) (w : World) {r : Invoice} {w' : World}
    → finalize_draft id business_id req w ≡ (ok r, w')
    → FromDraft
        (λ r. r.id == id && r.business_id == business_id)
        opened
        w.now
        id
        business_id
        req.versioning
        r
        w.db
        w'.db
unfolding finalize_draft
finalize_draft-eq-ok id business_id req w run =
    let (found, w₁, e₁, run₁) = >>=-eq-ok _ _ w run in
    let (_, w₂, e₂, run₂) = >>=-eq-ok _ _ w₁ run₁ in
    let (allowed, same₂) = raise_if-eq-ok _ _ w₁ e₂ in
    let (rows, w₃, e₃, run₃) = >>=-eq-ok _ _ w e₁ in
    let (first, same₁) = or_raise-eq-ok _ _ w₃ run₃ in
    let (_, later) = query-eq-ok _ w e₃ in
    let now : w₂.now ≡ w.now = rw (same₂, same₁) later.same_now in
    let db : w₂.db ≡ w.db = rw (same₂, same₁) later.same_db in
    record {
      found = found;
      first = query_first _ w e₃ first;
      was_draft = draft_of_test found.state allowed;
      moved =
          Moved-of_eq opened id business_id req.versioning now db
            (set_state-eq-ok opened id business_id req.versioning w₂ run₂);
    }

void_at_version-eq-ok :
    (id business_id : Uuid) (req : VoidInvoiceRequest) (w : World) {r : Invoice} {w' : World}
    → void_at_version id business_id req w ≡ (ok r, w')
    → FromDraft
        (at_version id business_id req.versioning)
        InvoiceState.void
        w.now
        id
        business_id
        req.versioning
        r
        w.db
        w'.db
unfolding void_at_version
void_at_version-eq-ok id business_id req w run =
    let (o, w₁, e₁, run₁) = >>=-eq-ok _ _ w run in
    let (found, w₂, e₂, run₂) = >>=-eq-ok _ _ w₁ run₁ in
    let (_, w₃, e₃, run₃) = >>=-eq-ok _ _ w₂ run₂ in
    let (allowed, same₃) = raise_if-eq-ok _ _ w₂ e₃ in
    let (got, same₂) = or_raise-eq-ok o _ w₁ e₂ in
    let (rows, w₄, e₄, run₄) = >>=-eq-ok _ _ w e₁ in
    let (first, same₁) = pure-eq-ok _ w₄ run₄ in
    let (_, later) = query-eq-ok _ w e₄ in
    let now : w₃.now ≡ w.now = rw (same₃, same₂, same₁) later.same_now in
    let db : w₃.db ≡ w.db = rw (same₃, same₂, same₁) later.same_db in
    record {
      found = found;
      first = query_first _ w e₄ (sym first ∙ got);
      was_draft = draft_of_test found.state allowed;
      moved =
          Moved-of_eq InvoiceState.void id business_id req.versioning now db
            (set_state-eq-ok InvoiceState.void id business_id req.versioning w₃ run₃);
    }

-- A successful request to finalize an invoice found a draft of the business. It wrote the state
-- `Open` and the next version on the rows of that invoice at the requested version, returned one of
-- them, and changed nothing else.
pub finalize_invoice-eq-ok :
    (id business_id : Uuid) (req : FinalizeInvoiceRequest) (w : World) {r : Invoice} {w' : World}
    → finalize_invoice id business_id req w ≡ (ok r, w')
    → FromDraft
        (λ r. r.id == id && r.business_id == business_id)
        opened
        w.now
        id
        business_id
        req.versioning
        r
        w.db
        w'.db
unfolding finalize_invoice
finalize_invoice-eq-ok id business_id req w run =
    let (r', w₁, e₁, run₁) = >>=-eq-ok _ _ w run in
    let (_, w₂, e₂, run₂) = >>=-eq-ok _ _ w₁ run₁ in
    let (same_r, same₂) = pure-eq-ok r' w₂ run₂ in
    let (a, b, body, now, db, db') = transaction-eq-ok _ w e₁ in
    let spawned = reading-same _ w₁ (spawn-IsReading _) e₂ in
    FromDraft-of_eq _ _ id business_id req.versioning now db
      (ap (λ (x : World). x.db) same₂ ∙ spawned ∙ db') same_r
      (finalize_draft-eq-ok id business_id req a body)

-- A successful request to void an invoice found a draft of the business at the requested version, so
-- that no open invoice is ever voided. It wrote the state `Void` and the next version on the rows of
-- that invoice at that version, returned one of them, and changed nothing else.
pub void_invoice-eq-ok :
    (id business_id : Uuid) (req : VoidInvoiceRequest) (w : World) {r : Invoice} {w' : World}
    → void_invoice id business_id req w ≡ (ok r, w')
    → FromDraft
        (at_version id business_id req.versioning)
        InvoiceState.void
        w.now
        id
        business_id
        req.versioning
        r
        w.db
        w'.db
unfolding void_invoice
void_invoice-eq-ok id business_id req w run =
    let (a, b, body, now, db, db') = transaction-eq-ok _ w run in
    FromDraft-of_eq _ _ id business_id req.versioning now db db' refl
      (void_at_version-eq-ok id business_id req a body)
