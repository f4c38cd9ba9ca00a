-- ===== src/Services/Customers/Lookups.antt =====
-- What a customer that was created is, and who can see it: src/services/customers.rs.
use payman.Prelude.{
  ◌≡◌, refl, ap, sym, ◌∙◌, subst, Bool, true, false, ◌&&◌, ◌+◌, List, [], ◌∷◌, ◌==◌, trim, select,
  exists, head?, some, select-append, select_none, All-not_exists, All-imp, arith,
}
use payman.Models.{Uuid, Customer, CreateCustomerRequest}
use payman.Errors.{AppError, conflict, ok, err, Result}
use payman.Store.{
  Db, World, Action, ◌>>=◌, insert, insert-eq-ok, >>=-eq-ok, or_raise-eq-ok, exec-eq-ok,
}
use payman.Services.Customers.{
  has_email, insert_customer, email_taken, map_err, map_result, create_customer, get_customer,
}

map_result-eq-ok :
    (f : AppError → AppError) (r : Result Customer × World) {c : Customer} {w' : World}
    → map_result f r ≡ (ok c, w')
    → r ≡ (ok c, w')
map_result-eq-ok f (ok a, w) h = h
map_result-eq-ok f (err e, w) h = cc

map_err-eq-ok :
    (f : AppError → AppError) (m : Action Customer) (w : World) {c : Customer} {w' : World}
    → map_err f m w ≡ (ok c, w')
    → m w ≡ (ok c, w')
unfolding map_err
map_err-eq-ok f m w h = map_result-eq-ok f (m w) h

-- A row that was inserted is the only one with its identifier.
insert_customer-select :
    (row : Customer) (d : Db) {rows : List Customer} {d' : Db}
    → insert_customer row d ≡ (ok rows, d')
    → (rows ≡ row ∷ [])
      × (select (λ c. c.id == row.id && c.business_id == row.business_id) d'.customers ≡ row ∷ [])
unfolding insert_customer
insert_customer-select row d run =
    let (checked, read, same) = insert-eq-ok row _ _ d run in
    let fresh : exists (λ c. c.id == row.id) d.customers ≡ false = ground (arith, checked.0) in
    let p : Customer → Bool = λ c. c.id == row.id && c.business_id == row.business_id in
    let before : select p d.customers ≡ [] =
      select_none p d.customers
        (All-imp _ _ d.customers (λ c k. rw k refl) (All-not_exists _ d.customers fresh)) in
    let passes : p row ≡ true = ground arith in
    (read, rw same (select-append p d.customers (row ∷ []) ∙ rw (before, passes) refl))

first_of : (row : Customer) {c : Customer} → some row ≡ some c → row ≡ c
first_of row h = cc

get_customer-first :
    (id business_id : Uuid) (w : World) {c : Customer}
    → w.faults w.statements ≡ false
    → head? (select (λ c. c.id == id && c.business_id == business_id) w.db.customers) ≡ some c
    → get_customer id business_id w ≡ (ok c, record w { statements = w.statements + 1 })
unfolding get_customer ◌>>=◌
get_customer-first id business_id w live found = rw (live, found) refl

-- The customer that a request has created carries the trimmed name and email of the request. The
-- business finds it under its identifier, if no statement fails.
pub create_customer-get_customer :
    (req : CreateCustomerRequest) (business_id : Uuid) (w : World) {c : Customer} {w' : World}
    → create_customer req business_id w ≡ (ok c, w')
    → w'.faults w'.statements ≡ false
    → (c.name ≡ trim req.name)
      × (c.email ≡ trim req.email)
      × (get_customer c.id business_id w' ≡ (ok c, record w' { statements = w'.statements + 1 }))
unfolding create_customer
create_customer-get_customer req business_id w run live =
    let (id, w₁, e₁, run₁) = >>=-eq-ok _ _ w run in
    let (now, w₂, e₂, run₂) = >>=-eq-ok _ _ w₁ run₁ in
    let (rows, w₃, e₃, run₃) = >>=-eq-ok _ _ w₂ (map_err-eq-ok _ _ w₂ run₂) in
    let (first, same) = or_raise-eq-ok _ _ w₃ run₃ in
    let (inserted, _) = exec-eq-ok _ w₂ e₃ in
    let (read, found) = insert_customer-select _ w₂.db inserted in
    let row = first_of _ (ap head? (sym read) ∙ first) in
    let stored =
      subst
        (λ (x : Customer).
          head? (select (λ k. k.id == x.id && k.business_id == business_id) w₃.db.customers)
          ≡ some x)
        row (ap head? found) in
    (
      ap (λ (x : Customer). x.name) (sym row),
      ap (λ (x : Customer). x.email) (sym row),
      get_customer-first _ business_id _ live (rw same stored),
    )

-- A second customer with an email that the business has already is refused as a conflict, and no
-- table changes. The fresh identifier is not in use, and the statement does not fail.
pub create_customer-conflict :
    (req : CreateCustomerRequest) (business_id : Uuid) (w : World)
    → w.faults w.statements ≡ false
    → exists (λ c. c.id == w.uuids w.drawn) w.db.customers ≡ false
    → exists (has_email business_id (trim req.email)) w.db.customers ≡ true
    → create_customer req business_id w ≡ (
      err (conflict "customer with this email already exists"),
      record w { drawn = w.drawn + 1; statements = w.statements + 1 },
    )
unfolding create_customer map_err email_taken insert_customer insert ◌>>=◌
create_customer-conflict req business_id w live fresh taken = rw (live, fresh, taken) refl
