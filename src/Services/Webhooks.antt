-- ===== src/Services/Webhooks.antt =====
-- src/services/webhook.rs.
use payman.Prelude.{
  Bool, true, false, ◌&&◌, not, List, [], ◌∷◌, ◌++◌, ◌==◌, map, select, update, exists, trim,
  str_append, without_dashes, order_by_desc,
}
use payman.Models.{Uuid, WebhookEndpoint, CreateWebhookEndpointRequest}
use payman.Errors.{not_found, Result, ok}
use payman.Libraries.{Libraries}
use payman.Store.{
  Db, Action, ◌>>=◌, or_raise, raise_if, utc_now, new_v4, exec, query, insert, fetch_one,
  fetch_optional, rows_affected,
}

unfoldable pub insert_endpoint : WebhookEndpoint → Db → Result (List WebhookEndpoint) × Db
insert_endpoint row d =
    insert row
      ((not (exists (λ e. e.id == row.id) d.webhook_endpoints), "webhook_endpoints_pkey")
        ∷ (exists (λ b. b.id == row.business_id) d.businesses, "webhook_endpoints_business_id_fkey")
        ∷ [])
      (λ t. record t { webhook_endpoints = t.webhook_endpoints ++ row ∷ [] }) d

unfoldable pub create_endpoint :
    Libraries → Uuid → CreateWebhookEndpointRequest → Action WebhookEndpoint
create_endpoint lib business_id req = do
  secret_id ← new_v4
  id ← new_v4
  now ← utc_now
  fetch_one (
      exec (
        insert_endpoint (record {
          id = id;
          business_id = business_id;
          url = trim req.url;
          secret = str_append "whsec_" (without_dashes (lib.uuid_to_string secret_id));
          active = true;
          created_at = now;
        })))

unfoldable pub get_endpoint : Uuid → Uuid → Action WebhookEndpoint
get_endpoint id business_id = do
  found ←
      fetch_optional
        (query (λ d. select (λ e. e.id == id && e.business_id == business_id) d.webhook_endpoints))
  or_raise found not_found

unfoldable pub list_endpoints : Uuid → Action (List WebhookEndpoint)
list_endpoints business_id = query (λ d.
    order_by_desc (λ e. e.created_at)
      (select (λ e. e.business_id == business_id) d.webhook_endpoints))

-- `UPDATE webhook_endpoints SET active = false WHERE …`
unfoldable pub deactivate : Uuid → Uuid → Db → Result (List WebhookEndpoint) × Db
deactivate id business_id d =
    let p : WebhookEndpoint → Bool = λ e. e.id == id && e.business_id == business_id in
    let f : WebhookEndpoint → WebhookEndpoint = λ e. record e { active = false } in
    (
      ok (map f (select p d.webhook_endpoints)),
      record d { webhook_endpoints = update p f d.webhook_endpoints },
    )

unfoldable pub delete_endpoint : Uuid → Uuid → Action (Unit {0})
delete_endpoint id business_id = do
  affected ← rows_affected (exec (deactivate id business_id))
  raise_if (affected == 0) not_found
