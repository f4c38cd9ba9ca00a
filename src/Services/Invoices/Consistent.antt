-- ===== src/Services/Invoices/Consistent.antt =====
-- The invariant of the invoice tables, and the steps that a service takes between two states that
-- have it: while the items of one invoice are being written, its total is left out.
use payman.Prelude.{
  ℕ, ◌≡◌, refl, sym, ap, ◌∙◌, true, false, List, [], ◌∷◌, ◌++◌, map, ◌==◌, ==_iff, arith, All,
  exists, All-append, All-imp, All-delete, All-not_exists, select-append, select_none,
  select-delete_self, select-delete_disjoint, exists-append, Bool-cases, inl, inr, map-append,
  append-nil, All-zip, subst, Bool, delete, ◌&&◌, delete-same,
}
use payman.Prelude.Int.{ℤ, ltb_ℤ, pos, ◌≤ℤ◌}
use payman.Models.{Uuid, Invoice, LineItem, CreateLineItemRequest}
use payman.Errors.{ok}
use payman.Store.{Db, insert-eq-ok}
use payman.Services.Invoices.Totals.{total_cents, IsPositive}
use payman.Services.Invoices.Statements.{
  insert_invoice, insert_line_item, delete_line_items, line_items_of,
}

abbrev pub as_request : LineItem → CreateLineItemRequest
as_request li = record {
  description = li.description;
  quantity = li.quantity;
  unit_amount_cents = li.unit_amount_cents;
}

abbrev pub items_for : Uuid → List LineItem → List CreateLineItemRequest
items_for id rows = map as_request (line_items_of id rows)

abbrev pub HasTotal : List LineItem → Invoice → Type 0
HasTotal rows r = r.total_cents ≡ total_cents (items_for r.id rows)

abbrev IsOwned : List Invoice → LineItem → Type 0
IsOwned invoices li = exists (λ r. r.id == li.invoice_id) invoices ≡ true

abbrev IsCharged : LineItem → Type 0
IsCharged li = IsPositive (as_request li)

-- Every invoice carries the total of the line items that are stored for it, every line item belongs
-- to a stored invoice, and its quantity and amount are positive.
pub record IsConsistent (d : Db) : Type 0 where
  pub totals : All (HasTotal d.line_items) d.invoices
  pub owned : All (IsOwned d.invoices) d.line_items
  pub charged : All IsCharged d.line_items

-- The same but for the total of `id`, whose items so far are `done`.
pub record IsBuilding (id : Uuid) (done : List CreateLineItemRequest) (d : Db) : Type 0 where
  pub others : All (λ r. (r.id == id) ≡ false → HasTotal d.line_items r) d.invoices
  pub owned : All (IsOwned d.invoices) d.line_items
  pub charged : All IsCharged d.line_items
  pub items : items_for id d.line_items ≡ done

-- The invoice `id` carries the total `t`.
abbrev pub CarriesTotal : Uuid → ℤ → Db → Type 0
CarriesTotal id t d = All (λ r. (r.id == id) ≡ true → r.total_cents ≡ t) d.invoices

eq_of_test : (a b : ℕ) → (a == b) ≡ true → a ≡ b
eq_of_test a b = (==_iff a b).0

ne_of_test : (a b : ℕ) → (a == b) ≡ false → (b == a) ≡ false
ne_of_test a b h = ground arith

items_for-append_self :
    (row : LineItem) (rows : List LineItem)
    → items_for row.invoice_id (rows ++ row ∷ [])
      ≡ items_for row.invoice_id rows ++ as_request row ∷ []
items_for-append_self row rows =
    let e : (row.invoice_id == row.invoice_id) ≡ true = ground arith in
    rw (select-append (λ r. r.invoice_id == row.invoice_id) rows (row ∷ []), e)
      (map-append as_request (line_items_of row.invoice_id rows) (row ∷ []))

items_for-append :
    (row : LineItem) (id : Uuid) (done : List CreateLineItemRequest) (rows : List LineItem)
    → row.invoice_id ≡ id
    → items_for id rows ≡ done
    → items_for id (rows ++ row ∷ []) ≡ done ++ as_request row ∷ []
items_for-append row id done rows mine h = rw (← h, ← mine) (items_for-append_self row rows)

positive_of_test : (a : ℤ) → ltb_ℤ (pos 0) a ≡ true → pos 1 ≤ℤ a
positive_of_test a h = ground arith

items_for-append_ne :
    (id : Uuid) (row : LineItem) (rows : List LineItem)
    → (row.invoice_id == id) ≡ false
    → items_for id (rows ++ row ∷ []) ≡ items_for id rows
items_for-append_ne id row rows h =
    rw (select-append (λ r. r.invoice_id == id) rows (row ∷ []), h, append-nil)

-- A row that belongs to a stored invoice does not belong to one that is not stored.
unowned :
    (id : Uuid) (invoices : List Invoice) (li : LineItem)
    → exists (λ r. r.id == id) invoices ≡ false
    → IsOwned invoices li
    → (li.invoice_id == id) ≡ false
unowned id invoices li h k = elim (Bool-cases (li.invoice_id == id)) [
  | inl e ↦
      let k' : exists (λ (r : Invoice). r.id == id) invoices ≡ true =
        subst (λ x. exists (λ (r : Invoice). r.id == x) invoices ≡ true)
          (eq_of_test li.invoice_id id e) k in
      cc
  | inr e ↦ e
]

-- A fresh invoice has no items yet.
pub insert_invoice-IsBuilding :
    (row : Invoice) (d : Db) {rows : List Invoice} {d' : Db}
    → IsConsistent d
    → insert_invoice row d ≡ (ok rows, d')
    → IsBuilding row.id [] d' × CarriesTotal row.id row.total_cents d'
unfolding insert_invoice
insert_invoice-IsBuilding row d h e =
    let (checked, _, same) = insert-eq-ok row _ _ d e in
    let fresh : exists (λ r. r.id == row.id) d.invoices ≡ false = ground (arith, checked.0) in
    let unused =
      All-imp _ (λ (li : LineItem). (li.invoice_id == row.id) ≡ false) d.line_items
        (λ li k. unowned row.id d.invoices li fresh k) h.owned in
    rw same (
      record {
        others =
            All-append _ d.invoices (row ∷ []) (All-imp _ _ d.invoices (λ r k _. k) h.totals)
              (λ f. absurd (ground arith), tt);
        owned = All-imp _ _ d.line_items (λ li k. exists-append _ d.invoices (row ∷ []) k) h.owned;
        charged = h.charged;
        items = ap (map as_request) (select_none _ d.line_items unused);
      },
      All-append _ d.invoices (row ∷ [])
          (All-imp _ _ d.invoices (λ r f t. absurd (cc)) (All-not_exists _ d.invoices fresh))
          (λ _. refl, tt),
    )

pub insert_line_item-IsBuilding :
    (row : LineItem) (id : Uuid) (done : List CreateLineItemRequest) (d : Db) {rows : List LineItem}
    {d' : Db}
    → row.invoice_id ≡ id
    → IsBuilding id done d
    → insert_line_item row d ≡ (ok rows, d')
    → IsBuilding id (done ++ as_request row ∷ []) d' × (d'.invoices ≡ d.invoices)
unfolding insert_line_item
insert_line_item-IsBuilding row id done d mine h e =
    let (checked, _, same) = insert-eq-ok row _ _ d e in
    rw same (
      record {
        others =
            All-imp _ _ d.invoices
              (λ r k f.
                k f
                ∙ ap total_cents (
                    sym
                      (items_for-append_ne r.id row d.line_items (rw mine (ne_of_test r.id id f)))))
              h.others;
        owned = All-append _ d.line_items (row ∷ []) h.owned (checked.1.0, tt);
        charged =
            All-append _ d.line_items (row ∷ []) h.charged
              ((positive_of_test _ checked.1.1.0, positive_of_test _ checked.1.1.1.0), tt);
        items = items_for-append row id done d.line_items mine h.items;
      },
      refl,
    )

-- A `DELETE` that sees every row: no transaction that adds line items overlaps its own.
abbrev pub SeesAll : (LineItem → Bool) → Type 0
SeesAll seen = (li : LineItem) → seen li ≡ true

sees_all :
    (seen : LineItem → Bool) (id : Uuid) (rows : List LineItem)
    → SeesAll seen
    → delete (λ r. r.invoice_id == id && seen r) rows ≡ delete (λ r. r.invoice_id == id) rows
sees_all seen id rows all = delete-same _ _ rows λ r. ground (arith, all r)

pub delete_line_items-IsBuilding :
    (seen : LineItem → Bool) (id : Uuid) (d : Db)
    → SeesAll seen
    → IsConsistent d
    → IsBuilding id [] (delete_line_items seen id d).1
unfolding delete_line_items
delete_line_items-IsBuilding seen id d all h = rw (sees_all seen id d.line_items all) (record {
  others =
      All-imp _ _ d.invoices
        (λ r k f.
          k
          ∙ ap (λ l. total_cents (map as_request l))
              (sym (select-delete_disjoint _ _ d.line_items (λ li e. ground arith))))
        h.totals;
  owned = All-delete _ _ d.line_items h.owned;
  charged = All-delete _ _ d.line_items h.charged;
  items = ap (map as_request) (select-delete_self (λ r. r.invoice_id == id) d.line_items);
})

-- Once the total of the items is written, the tables are consistent again.
pub IsBuilding-done :
    (id : Uuid) (done : List CreateLineItemRequest) (d : Db)
    → IsBuilding id done d
    → CarriesTotal id (total_cents done) d
    → IsConsistent d
IsBuilding-done id done d h c = record {
  totals =
      All-zip _ _ _ d.invoices
        (λ r k l. elim (Bool-cases (r.id == id)) [
          | inl e ↦ l e ∙ ap total_cents (sym (rw (eq_of_test r.id id e) h.items))
          | inr e ↦ k e
        ])
        h.others c;
  owned = h.owned;
  charged = h.charged;
}
