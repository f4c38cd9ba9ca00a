-- ===== src/Services/Invoices/Lifecycle.antt =====
-- The life of an invoice, as the services and the workers move it: the abstract view of the table
-- invoices, which knows of an identifier only the state of its invoice.
use payman.Models.{InvoiceState, Invoice, Uuid}
use payman.Prelude.{
  All, Bool-cases, inl, inr, head?, select, update, exists, arith, ◌≡◌, Bool, true, false, Option,
  none, some, List, [], ◌∷◌, ◌++◌, ◌==◌, refl,
}

-- The states in which a payment may end.
pub data IsOutcome : InvoiceState → Type 0 where
  paid : IsOutcome InvoiceState.paid
  opened : IsOutcome InvoiceState.opened

-- Who moves an invoice: the requests that create and edit it, the request that finalizes it, the one
-- that voids it, and payments with the worker on them. The clock moves none.
pub data Actor : Type 0 where
  editor finalizer voider payer clock : Actor

-- The moves of each. A payment that is settled, or that expires, takes the invoice from any state.
pub data Moves : Actor → InvoiceState → InvoiceState → Type 0 where
  stay : {a : Actor} {s : InvoiceState} → Moves a s s
  finalize : Moves Actor.finalizer InvoiceState.draft InvoiceState.opened
  void : Moves Actor.voider InvoiceState.draft InvoiceState.void
  claim : Moves Actor.payer InvoiceState.opened InvoiceState.processing
  settle : {s t : InvoiceState} → IsOutcome t → Moves Actor.payer s t

-- What one step of an actor can make of an identifier: an editor gives it a draft, and moves it.
pub data Life (a : Actor) (x : Option InvoiceState) : Option InvoiceState → Type 0 where
  here : Life a x x
  issue : a ≡ Actor.editor → Life a x none → Life a x (some InvoiceState.draft)
  move : {s t : InvoiceState} → Life a x (some s) → Moves a s t → Life a x (some t)

-- What the steps of these actors, the last one first, can make of it.
pub data Story (x : Option InvoiceState) : List Actor → Option InvoiceState → Type 0 where
  start : Story x [] x
  next :
      {a : Actor} {actors : List Actor} {y z : Option InvoiceState}
      → Story x actors y
      → Life a y z
      → Story x (a ∷ actors) z

abbrev pub state_of : Option Invoice → Option InvoiceState
state_of none = none
state_of (some r) = some r.state

-- The view of one identifier.
abbrev pub view : Uuid → List Invoice → Option InvoiceState
view id rows = state_of (head? (select (λ r. r.id == id) rows))

-- What `rows` can have become from `before`.
abbrev pub Lives : Actor → List Invoice → List Invoice → Type 0
Lives a before rows = (id : Uuid) → Life a (view id before) (view id rows)

pub view-append :
    (a : Option InvoiceState) (id : Uuid) (row : Invoice) (rows : List Invoice)
    → row.state ≡ InvoiceState.draft
    → exists (λ r. r.id == row.id) rows ≡ false
    → Life Actor.editor a (view id rows)
    → Life Actor.editor a (view id (rows ++ row ∷ []))
view-append a id row [] e fresh life = elim (Bool-cases (row.id == id)) [
  | inl same ↦ rw (same, e) (Life.issue refl life)
  | inr differs ↦ rw differs life
]
view-append a id row (r ∷ rows) e fresh life = elim (Bool-cases (r.id == id)) [
  | inl same ↦ rw same (rw same at life)
  | inr differs ↦
      rw differs (view-append a id row rows e (ground (arith, fresh)) (rw differs at life))
]

pub view-update :
    (by : Actor) (a : Option InvoiceState) (id : Uuid) (p : Invoice → Bool) (f : Invoice → Invoice)
    (rows : List Invoice)
    → ((r : Invoice) → (f r).id ≡ r.id)
    → All (λ r. p r ≡ true → Moves by r.state (f r).state) rows
    → Life by a (view id rows)
    → Life by a (view id (update p f rows))
view-update by a id p f [] s k life = life
view-update by a id p f (r ∷ rows) s k life =
    let rest = view-update by a id p f rows s k.1 in
    elim (Bool-cases (r.id == id)) [
      | inl same ↦ elim (Bool-cases (p r)) [
        | inl e ↦ rw (e, s r, same) (Life.move (rw same at life) (k.0 e))
        | inr e ↦ rw (e, same) (rw same at life)
      ]
      | inr differs ↦ elim (Bool-cases (p r)) [
        | inl e ↦ rw (e, s r, differs) (rest (rw differs at life))
        | inr e ↦ rw (e, differs) (rest (rw differs at life))
      ]
    ]
