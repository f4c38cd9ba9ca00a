-- ===== src/Services/Deleted.antt =====
-- What becomes of an endpoint that was deleted: `delete_endpoint` of src/services/webhook.rs, and the
-- queries of src/workers/webhook.rs and webhook_worker.rs.
use payman.Prelude.{
  none-ne-some, some_inj, sym, ◌∙◌, ◌≡◌, refl, ap, ap₂, false, ◌&&◌, String, List, [], ◌∷◌, ◌==◌,
  map, select, update, All, Option, none, some, Bool-cases, inl, inr, ℕ, ◌-◌,
}
use payman.Models.{Uuid, DateTime, WebhookEndpoint, DeliveryRow}
use payman.Errors.{ok}
use payman.Store.{Db, World, >>=-eq-ok, exec-eq-ok, pure-eq-ok, raise_if-eq-ok, db_of}
use payman.Workers.Webhooks.{
  endpoints_of, due_deliveries, join, with_endpoint, first_endpoint, limit_rows,
}
use payman.Services.Webhooks.{delete_endpoint, deactivate}

-- Of an endpoint that is deactivated, no later event of the business is sent.
silent_rows :
    (id business_id : Uuid) (rows : List WebhookEndpoint)
    → All
        (λ e. (e.id == id) ≡ false)
        (select
          (λ e. e.business_id == business_id && e.active)
          (update
            (λ e. e.id == id && e.business_id == business_id)
            (λ e. record e { active = false })
            rows))
silent_rows id business_id [] = tt
silent_rows id business_id (e ∷ rows) =
    let rest = silent_rows id business_id rows in
    elim (Bool-cases (e.id == id)) [
      | inl same ↦ elim (Bool-cases (e.business_id == business_id)) [
        | inl mine ↦ rw (same, mine, mine) rest
        | inr other ↦ rw (same, other, other) rest
      ]
      | inr differs ↦ elim (Bool-cases (e.business_id == business_id && e.active)) [
        | inl sent ↦ rw (differs, sent) (differs, rest)
        | inr unsent ↦ rw (differs, unsent) rest
      ]
    ]

deactivate-eq-ok :
    (id business_id : Uuid) (d : Db) {rows : List WebhookEndpoint} {d' : Db}
    → deactivate id business_id d ≡ (ok rows, d')
    → All (λ e. (e.id == id) ≡ false) (endpoints_of business_id d')
unfolding deactivate
deactivate-eq-ok id business_id d run =
    rw (← db_of _ run) (silent_rows id business_id d.webhook_endpoints)

-- What the worker sends: a delivery, and the url and the secret that it is sent with.
abbrev pub sent_to : DeliveryRow × WebhookEndpoint → DeliveryRow × (String × String)
sent_to (r, e) = (r, (e.url, e.secret))

abbrev address : Option WebhookEndpoint → Option (String × String)
address none = none
address (some e) = some (e.url, e.secret)

module _ (id business_id : Uuid) where
  abbrev off : List WebhookEndpoint → List WebhookEndpoint
  off = update (λ e. e.id == id && e.business_id == business_id) (λ e. record e { active = false })

  first_endpoint-off :
      (x : Uuid) (endpoints : List WebhookEndpoint)
      → address (first_endpoint x (off endpoints)) ≡ address (first_endpoint x endpoints)
  first_endpoint-off x [] = refl
  first_endpoint-off x (e ∷ endpoints) =
      let rest = first_endpoint-off x endpoints in
      elim (Bool-cases (e.id == id && e.business_id == business_id)) [
        | inl hit ↦ elim (Bool-cases (e.id == x)) [
          | inl first ↦ rw (hit, first) refl
          | inr later ↦ rw (hit, later) rest
        ]
        | inr miss ↦ elim (Bool-cases (e.id == x)) [
          | inl first ↦ rw (miss, first) refl
          | inr later ↦ rw (miss, later) rest
        ]
      ]

  with_endpoint-address :
      (r : DeliveryRow) (o o' : Option WebhookEndpoint)
      (rest rest' : List (DeliveryRow × WebhookEndpoint))
      → address o ≡ address o'
      → map sent_to rest ≡ map sent_to rest'
      → map sent_to (with_endpoint r o rest) ≡ map sent_to (with_endpoint r o' rest')
  with_endpoint-address r none none rest rest' h k = k
  with_endpoint-address r none (some e) rest rest' h k = absurd (none-ne-some _ h)
  with_endpoint-address r (some e) none rest rest' h k = absurd (none-ne-some _ (sym h))
  with_endpoint-address r (some e) (some e') rest rest' h k =
      ap₂ (λ (a : String × String) (l : List (DeliveryRow × (String × String))). (r, a) ∷ l)
        (some_inj.0 h) k

  join-off :
      (rows : List DeliveryRow) (endpoints : List WebhookEndpoint)
      → map sent_to (join rows (off endpoints)) ≡ map sent_to (join rows endpoints)
  join-off [] endpoints = refl
  join-off (r ∷ rows) endpoints =
      with_endpoint-address r _ _ _ _ (first_endpoint-off r.webhook_endpoint_id endpoints)
        (join-off rows endpoints)

  limit_rows-map {ℓ κ} :
      {A : Type ℓ} {B : Type κ} (f : A → B) (n : ℕ) (xs : List A)
      → map f (limit_rows n xs) ≡ limit_rows n (map f xs)
  limit_rows-map f n [] = refl
  limit_rows-map f n (x ∷ xs) = elim (Bool-cases (n == 0)) [
    | inl e ↦ rw e refl
    | inr e ↦ rw e (ap (◌∷◌ (f x)) (limit_rows-map f (n - 1) xs))
  ]

  due-off :
      (now : DateTime) (d d' : Db)
      → d'.webhook_endpoints ≡ off d.webhook_endpoints
      → d'.webhook_deliveries ≡ d.webhook_deliveries
      → map sent_to (due_deliveries now d') ≡ map sent_to (due_deliveries now d)
  due-off now d d' e e' =
      limit_rows-map sent_to 10 _
      ∙ rw (e, e') (ap (limit_rows 10) (join-off _ d.webhook_endpoints))
      ∙ sym (limit_rows-map sent_to 10 _)

deactivate-due :
    (id business_id : Uuid) (now : DateTime) (d : Db) {rows : List WebhookEndpoint} {d' : Db}
    → deactivate id business_id d ≡ (ok rows, d')
    → map sent_to (due_deliveries now d') ≡ map sent_to (due_deliveries now d)
unfolding deactivate
deactivate-due id business_id now d run = rw (← db_of _ run) (
    due-off id business_id now d
      (record d { webhook_endpoints = off id business_id d.webhook_endpoints }) refl refl)

-- Once a request to delete an endpoint has succeeded, the endpoint is not among those that a later event
-- of the business is queued for. The deliveries that are queued already are not withdrawn: at any time,
-- the worker sends what it would have sent without the request, with the url and the secret of the
-- endpoint that was deleted.
pub delete_endpoint-eq-ok :
    (id business_id : Uuid) (w : World) (now : DateTime) {u : Unit {0}} {w' : World}
    → delete_endpoint id business_id w ≡ (ok u, w')
    → All (λ e. (e.id == id) ≡ false) (endpoints_of business_id w'.db)
      × (map sent_to (due_deliveries now w'.db) ≡ map sent_to (due_deliveries now w.db))
unfolding delete_endpoint
delete_endpoint-eq-ok id business_id w now run =
    let (n, w₁, e₁, run₁) = >>=-eq-ok _ _ w run in
    let (rows, w₂, e₂, run₂) = >>=-eq-ok _ _ w e₁ in
    let (done, _) = exec-eq-ok _ w e₂ in
    let (_, counted) = pure-eq-ok _ w₂ run₂ in
    let (_, last) = raise_if-eq-ok _ _ w₁ run₁ in
    rw (last ∙ counted)
      (deactivate-eq-ok id business_id w.db done, deactivate-due id business_id now w.db done)
