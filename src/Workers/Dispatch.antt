-- ===== src/Workers/Dispatch.antt =====
-- What `dispatch` of src/workers/webhook.rs adds to the deliveries.
use payman.Prelude.Int.{pos}
use payman.Errors.{ok}
use payman.Store.{
  Db, insert-eq-ok, World, Task, pure-eq-ok, >>=-eq-ok, exec-eq-ok, query-eq-ok, utc_now-eq-ok,
  reading-same, new_v4-IsReading, utc_now-IsReading,
}
use payman.Models.{
  DeliveryRow, Json, WebhookEndpoint, DeliveryStatus, Uuid, DateTime, Fields, object, null, bool,
  number, string, array, end, field,
}
use payman.Workers.Webhooks.{add_deliveries, insert_delivery, dispatch, Wire, event_payload}
use payman.Prelude.{
  Option, none, some, true, false, str_eq, select, Bool-cases, inl, inr, ==_iff, arith, ◌&&◌, ◌==◌,
  if◌then◌else◌, refl, List, [], ◌∷◌, ◌++◌, String, ◌≡◌, ap, sym, ◌∙◌, append_assoc, append-nil,
}

abbrev look_up : String → Fields → Option Json
look_up name end = none
look_up name (field key value fields) = if str_eq key name then some value else look_up name fields

-- One delivery for each of the endpoints, in their order: pending, and never tried.
abbrev Added : String → Json → List WebhookEndpoint → List DeliveryRow → Type 0
Added event_type payload [] [] = Unit
Added event_type payload [] (r ∷ rows) = ⊥
Added event_type payload (e ∷ endpoints) [] = ⊥
Added event_type payload (e ∷ endpoints) (r ∷ rows) =
    (r.webhook_endpoint_id ≡ e.id)
    × (r.event_type ≡ event_type)
    × (r.payload ≡ payload)
    × (r.status ≡ DeliveryStatus.pending)
    × (r.attempt_count ≡ pos 0)
    × Added event_type payload endpoints rows

-- The value of a field of an object.
abbrev pub value_of : String → Json → Option Json
value_of name (object fields) = look_up name fields
value_of name null = none
value_of name (bool b) = none
value_of name (number n) = none
value_of name (string s) = none
value_of name (array items) = none

-- The delivery tells the endpoint of the event of the task, at the time `now`: it is pending, and was
-- never tried.
pub record Tells (wire : Wire) (task : Task) (now : DateTime) (e : WebhookEndpoint)
    (r : DeliveryRow) : Type 0 where
  pub to : r.webhook_endpoint_id ≡ e.id
  pub event_type : r.event_type ≡ task.event_type
  pub event : value_of "event" r.payload ≡ some (string task.event_type)
  pub invoice :
      value_of "invoice_id" r.payload ≡ some (string (wire.uuid_to_string task.invoice_id))
  pub business :
      value_of "business_id" r.payload ≡ some (string (wire.uuid_to_string task.business_id))
  pub timestamp : value_of "timestamp" r.payload ≡ some (string (wire.to_rfc3339 now))
  pub pending : r.status ≡ DeliveryStatus.pending
  pub untried : r.attempt_count ≡ pos 0

abbrev pub IsListening : Uuid → WebhookEndpoint → Type 0
IsListening business_id e = (e.business_id ≡ business_id) × (e.active ≡ true)

-- One delivery for each of the endpoints that listens to the business, in their order.
pub data Queued (wire : Wire) (task : Task) (now : DateTime)
    : List WebhookEndpoint → List DeliveryRow → Type 0 where
  done : Queued wire task now [] []
  told :
      {e : WebhookEndpoint} {r : DeliveryRow} {endpoints : List WebhookEndpoint}
      {rows : List DeliveryRow}
      → IsListening task.business_id e
      → Tells wire task now e r
      → Queued wire task now endpoints rows
      → Queued wire task now (e ∷ endpoints) (r ∷ rows)
  passed_over :
      {e : WebhookEndpoint} {endpoints : List WebhookEndpoint} {rows : List DeliveryRow}
      → ¬ IsListening task.business_id e
      → Queued wire task now endpoints rows
      → Queued wire task now (e ∷ endpoints) rows

-- The tables with these deliveries added, and nothing else changed.
abbrev pub with_deliveries : List DeliveryRow → Db → Db
with_deliveries rows d = record d { webhook_deliveries = d.webhook_deliveries ++ rows }

insert_delivery-eq-ok :
    (row : DeliveryRow) (d : Db) {rows : List DeliveryRow} {d' : Db}
    → insert_delivery row d ≡ (ok rows, d')
    → d' ≡ with_deliveries (row ∷ []) d
unfolding insert_delivery
insert_delivery-eq-ok row d run = let (_, _, same) = insert-eq-ok row _ _ d run in same

with_more :
    (d d₁ d₂ : Db) (row : DeliveryRow) (rows : List DeliveryRow)
    → d₁ ≡ with_deliveries (row ∷ []) d
    → d₂ ≡ with_deliveries rows d₁
    → d₂ ≡ with_deliveries (row ∷ rows) d
with_more d d₁ d₂ row rows h k =
    k
    ∙ rw h (
        ap (λ x. record d { webhook_deliveries = x })
          (append_assoc d.webhook_deliveries (row ∷ []) rows))

add_deliveries-eq-ok :
    (event_type : String) (payload : Json) (endpoints : List WebhookEndpoint) (w : World)
    {u : Unit {0}} {w' : World}
    → add_deliveries event_type payload endpoints w ≡ (ok u, w')
    → (rows : List DeliveryRow) × (w'.db ≡ with_deliveries rows w.db)
      × Added event_type payload endpoints rows
unfolding add_deliveries
add_deliveries-eq-ok event_type payload [] w run =
    let (_, same) = pure-eq-ok _ w run in
    (
      [],
      ap (λ (x : World). x.db) same
          ∙ ap (λ x. record w.db { webhook_deliveries = x })
              (sym (append-nil w.db.webhook_deliveries)),
      tt,
    )
add_deliveries-eq-ok event_type payload (e ∷ endpoints) w run =
    let (id, w₁, e₁, run₁) = >>=-eq-ok _ _ w run in
    let (now, w₂, e₂, run₂) = >>=-eq-ok _ _ w₁ run₁ in
    let (_, w₃, e₃, run₃) = >>=-eq-ok _ _ w₂ run₂ in
    let (rows, added, each) = add_deliveries-eq-ok event_type payload endpoints w₃ run₃ in
    let inserted = insert_delivery-eq-ok _ w₂.db (exec-eq-ok _ w₂ e₃).0 in
    let drawn = reading-same _ w new_v4-IsReading e₁ in
    let read = reading-same _ w₁ utc_now-IsReading e₂ in
    (
      _ ∷ rows,
      with_more w.db w₃.db _ _ rows (inserted ∙ ap (with_deliveries (_ ∷ [])) (read ∙ drawn)) added,
      (refl, refl, refl, refl, refl, each),
    )

Added-Tells :
    (wire : Wire) (task : Task) (now : DateTime) (e : WebhookEndpoint) (r : DeliveryRow)
    → r.webhook_endpoint_id ≡ e.id
    → r.event_type ≡ task.event_type
    → r.payload ≡ event_payload wire task.event_type task.invoice_id task.business_id now
    → r.status ≡ DeliveryStatus.pending
    → r.attempt_count ≡ pos 0
    → Tells wire task now e r
unfolding event_payload
Added-Tells wire task now e r to kind payload pending untried = record {
  to = to;
  event_type = kind;
  event = ap (value_of "event") payload;
  invoice = ap (value_of "invoice_id") payload;
  business = ap (value_of "business_id") payload;
  timestamp = ap (value_of "timestamp") payload;
  pending = pending;
  untried = untried;
}

listens :
    (business_id : Uuid) (e : WebhookEndpoint)
    → (e.business_id == business_id && e.active) ≡ true
    → IsListening business_id e
listens business_id e h =
    ((==_iff e.business_id business_id).0 (ground (arith, h)), ground (arith, h))

deaf :
    (business_id : Uuid) (e : WebhookEndpoint)
    → (e.business_id == business_id && e.active) ≡ false
    → ¬ IsListening business_id e
deaf business_id e h (mine, active) =
    let same = (==_iff e.business_id business_id).1 mine in ground (arith, h, same, active)

Added-Queued :
    (wire : Wire) (task : Task) (now : DateTime) (endpoints : List WebhookEndpoint)
    (rows : List DeliveryRow)
    → Added task.event_type
        (event_payload wire task.event_type task.invoice_id task.business_id now)
        (select (λ e. e.business_id == task.business_id && e.active) endpoints)
        rows
    → Queued wire task now endpoints rows
Added-Queued wire task now [] [] h = Queued.done
Added-Queued wire task now [] (r ∷ rows) h = absurd h
Added-Queued wire task now (e ∷ endpoints) [] h =
    elim (Bool-cases (e.business_id == task.business_id && e.active)) [
      | inl hit ↦ absurd (rw hit at h)
      | inr miss ↦
          Queued.passed_over (deaf task.business_id e miss)
            (Added-Queued wire task now endpoints [] (rw miss at h))
    ]
Added-Queued wire task now (e ∷ endpoints) (r ∷ rows) h =
    elim (Bool-cases (e.business_id == task.business_id && e.active)) [
      | inl hit ↦
          let (to, kind, payload, pending, untried, rest) = rw hit at h in
          Queued.told (listens task.business_id e hit)
            (Added-Tells wire task now e r to kind payload pending untried)
            (Added-Queued wire task now endpoints rows rest)
      | inr miss ↦
          Queued.passed_over (deaf task.business_id e miss)
            (Added-Queued wire task now endpoints (r ∷ rows) (rw miss at h))
    ]

-- A dispatch that succeeds adds one delivery for each endpoint of the business that is active, and none
-- for another endpoint. Each carries the event, and a payload whose fields name the event, the invoice,
-- the business and the time; it is pending and was never tried. Nothing else in the tables changes.
pub dispatch-eq-ok :
    (wire : Wire) (task : Task) (w : World) {u : Unit {0}} {w' : World}
    → dispatch wire task w ≡ (ok u, w')
    → (rows : List DeliveryRow) × (w'.db ≡ with_deliveries rows w.db)
      × Queued wire task w.now w.db.webhook_endpoints rows
unfolding dispatch
dispatch-eq-ok wire task w run =
    let (endpoints, w₁, e₁, run₁) = >>=-eq-ok _ _ w run in
    let (now, w₂, e₂, run₂) = >>=-eq-ok _ _ w₁ run₁ in
    let (found, later) = query-eq-ok _ w e₁ in
    let (time, same) = utc_now-eq-ok w₁ e₂ in
    let (rows, added, each) = add_deliveries-eq-ok task.event_type _ endpoints w₂ run₂ in
    (
      rows,
      added ∙ ap (with_deliveries rows) (ap (λ (x : World). x.db) same ∙ later.same_db),
      Added-Queued wire task w.now w.db.webhook_endpoints rows
          (rw (found, time, later.same_now) at each),
    )
