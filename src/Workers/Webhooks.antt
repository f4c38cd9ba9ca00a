-- ===== src/Workers/Webhooks.antt =====
-- src/workers/webhook.rs and src/workers/webhook_worker.rs: events become rows of webhook_deliveries,
-- and a worker sends them to the endpoints of the business.
use payman.Prelude.{
  ℕ, ◌+◌, ◌-◌, ◌*◌, ◌/◌, ◌^◌, String, Bool, true, false, ◌&&◌, not, Option, none, some, List, [],
  ◌∷◌, ◌++◌, map, select, update, exists, ◌==◌, leb, head?, str_append, if◌then◌else◌,
}
use payman.Prelude.Int.{pos, pos_part, ◌+ℤ◌, leb_ℤ, eqb_ℤ}
use payman.Models.{
  Uuid, DateTime, Json, string, object, end, field, WebhookEndpoint, DeliveryStatus, DeliveryRow,
}
use payman.Errors.{serde_json, Result, ok, err, internal, database, out_of_range}
use payman.Http.{HttpReply, is_success}
use payman.Store.{
  Db, World, Task, Action, ◌>>=◌, ◌>>◌, pure, or_raise, utc_now, new_v4, exec, query, insert,
}
use payman.Workers.Status.{logged}

-- chrono, serde_json, uuid and hmac: parameters of the model.
pub record Wire : Type 0 where
  pub to_rfc3339 : DateTime → String
  pub uuid_to_string : Uuid → String
  pub number_to_string : ℕ → String
  pub json_to_string : Json → Option String
  pub hmac_sha256_hex : String → String → String

-- A request to an endpoint: the url, the header `X-Webhook-Signature`, and the body.
pub record HookRequest : Type 0 where
  pub url : String
  pub signature : String
  pub body : String

-- The endpoints: the reply to a request, and the world when it arrives.
pub record Hooks : Type 0 where
  pub send : HookRequest → World → HttpReply (Unit {0}) × World

abbrev pub endpoints_of : Uuid → Db → List WebhookEndpoint
endpoints_of business_id d =
    select (λ e. e.business_id == business_id && e.active) d.webhook_endpoints

unfoldable pub insert_delivery : DeliveryRow → Db → Result (List DeliveryRow) × Db
insert_delivery row d =
    insert row
      ((not (exists (λ r. r.id == row.id) d.webhook_deliveries), "webhook_deliveries_pkey")
        ∷ (
          exists (λ e. e.id == row.webhook_endpoint_id) d.webhook_endpoints,
          "webhook_deliveries_webhook_endpoint_id_fkey",
        )
        ∷ [])
      (λ t. record t { webhook_deliveries = t.webhook_deliveries ++ row ∷ [] }) d

-- The loop of `dispatch` over the endpoints.
unfoldable pub add_deliveries : String → Json → List WebhookEndpoint → Action (Unit {0})
add_deliveries event_type payload [] = pure tt
add_deliveries event_type payload (endpoint ∷ endpoints) = do
  id ← new_v4
  now ← utc_now
  exec (
      insert_delivery (record {
        id = id;
        webhook_endpoint_id = endpoint.id;
        event_type = event_type;
        payload = payload;
        status = DeliveryStatus.pending;
        attempt_count = pos 0;
        next_retry_at = some now;
        created_at = now;
        updated_at = now;
      }))
  add_deliveries event_type payload endpoints

abbrev pub is_pending_delivery : DeliveryStatus → Bool
is_pending_delivery DeliveryStatus.pending = true
is_pending_delivery DeliveryStatus.delivered = false
is_pending_delivery DeliveryStatus.failed = false

-- `SET status = 'delivered', …`
unfoldable pub set_delivered : DateTime → DeliveryRow → DeliveryRow
set_delivered now r = record r {
  status = DeliveryStatus.delivered;
  attempt_count = r.attempt_count +ℤ pos 1;
  updated_at = now;
}

-- `SET attempt_count = attempt_count + 1, next_retry_at = …, status = CASE …`: the right sides read the
-- row as it was.
unfoldable pub set_missed : DateTime → DeliveryRow → DeliveryRow
set_missed now r = record r {
  attempt_count = r.attempt_count +ℤ pos 1;
  next_retry_at = some (now + 60_000_000 * 2 ^ pos_part r.attempt_count);
  status = if leb_ℤ (pos 4) r.attempt_count then DeliveryStatus.failed else DeliveryStatus.pending;
  updated_at = now;
}

-- `attempt_count` is a 32-bit integer.
unfoldable pub update_deliveries :
    Uuid → (DeliveryRow → DeliveryRow) → Db → Result (List DeliveryRow) × Db
update_deliveries id f d =
    if exists (λ r. r.id == id && eqb_ℤ r.attempt_count (pos 2_147_483_647)) d.webhook_deliveries
    then (err (database out_of_range), d)
    else (
      ok (map f (select (λ r. r.id == id) d.webhook_deliveries)),
      record d { webhook_deliveries = update (λ r. r.id == id) f d.webhook_deliveries },
    )

abbrev pub was_received : HttpReply (Unit {0}) → Bool
was_received (HttpReply.response status body) = is_success status
was_received HttpReply.elapsed = false
was_received HttpReply.refused = false

unfoldable pub post_hook : Hooks → HookRequest → Action (HttpReply (Unit {0}))
post_hook hooks req w = let (reply, w') = hooks.send req w in (ok reply, w')

unfoldable pub record_delivery : Uuid → Bool → Action (Unit {0})
record_delivery delivery_id true = do
  now ← utc_now
  exec (update_deliveries delivery_id (set_delivered now))
  pure tt
record_delivery delivery_id false = do
  now ← utc_now
  exec (update_deliveries delivery_id (set_missed now))
  pure tt

-- A row of the worker's join: the delivery and its endpoint.
abbrev pub first_endpoint : Uuid → List WebhookEndpoint → Option WebhookEndpoint
first_endpoint id endpoints = head? (select (λ e. e.id == id) endpoints)

abbrev is_due : DateTime → Option DateTime → Bool
is_due now none = false
is_due now (some t) = leb t now

abbrev pub with_endpoint :
    DeliveryRow
    → Option WebhookEndpoint
    → List (DeliveryRow × WebhookEndpoint)
    → List (DeliveryRow × WebhookEndpoint)
with_endpoint r none rest = rest
with_endpoint r (some e) rest = (r, e) ∷ rest

abbrev pub join : List DeliveryRow → List WebhookEndpoint → List (DeliveryRow × WebhookEndpoint)
join [] endpoints = []
join (r ∷ rows) endpoints =
    with_endpoint r (first_endpoint r.webhook_endpoint_id endpoints) (join rows endpoints)

-- `LIMIT n`
abbrev pub limit_rows {ℓ} : {A : Type ℓ} → ℕ → List A → List A
limit_rows n [] = []
limit_rows n (x ∷ xs) = let rest = limit_rows (n - 1) xs in if n == 0 then [] else x ∷ rest

abbrev pub due_deliveries : DateTime → Db → List (DeliveryRow × WebhookEndpoint)
due_deliveries now d = limit_rows 10 (
    join
      (select (λ r. is_pending_delivery r.status && is_due now r.next_retry_at)
        d.webhook_deliveries)
      d.webhook_endpoints)

module _ (wire : Wire) where
  unfoldable pub event_payload : String → Uuid → Uuid → DateTime → Json
  event_payload event_type invoice_id business_id now = object (
      field "event" (string event_type) (
        field "invoice_id" (string (wire.uuid_to_string invoice_id)) (
          field "business_id" (string (wire.uuid_to_string business_id))
            (field "timestamp" (string (wire.to_rfc3339 now)) end))))

  unfoldable pub dispatch : Task → Action (Unit {0})
  dispatch task = do
    endpoints ← query (endpoints_of task.business_id)
    now ← utc_now
    add_deliveries task.event_type
        (event_payload task.event_type task.invoice_id task.business_id now) endpoints

  -- The time stamp is in seconds.
  unfoldable pub sign_payload : String → String → ℕ → String
  sign_payload secret payload timestamp =
      wire.hmac_sha256_hex secret
        (str_append (wire.number_to_string timestamp) (str_append "." payload))

  module _ (hooks : Hooks) where
    unfoldable pub deliver : Uuid → String → String → Json → Action (Unit {0})
    deliver delivery_id url secret payload = do
      now ← utc_now
      payload_str ← or_raise (wire.json_to_string payload) (internal serde_json)
      response ← post_hook hooks (record {
        url = url;
        signature = str_append "sha256=" (sign_payload secret payload_str (now / 1_000_000));
        body = payload_str;
      })
      record_delivery delivery_id (was_received response)

    unfoldable pub deliver_each : List (DeliveryRow × WebhookEndpoint) → Action (Unit {0})
    deliver_each [] = pure tt
    deliver_each ((r, e) ∷ rows) = do
      logged (deliver r.id e.url e.secret r.payload)
      deliver_each rows

    unfoldable pub process_pending_deliveries : Action (Unit {0})
    process_pending_deliveries = do
      now ← utc_now
      deliveries ← query (due_deliveries now)
      deliver_each deliveries
