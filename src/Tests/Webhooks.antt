-- ===== src/Tests/Webhooks.antt =====
-- Webhooks: events, deliveries, and endpoints that do not answer or that are deleted; and the response to an error.
use payman.Tests.Data.{issued, tables}
use payman.Workers.Dispatch.{with_deliveries, Queued, dispatch-eq-ok}
use payman.Prelude.Int.{pos}
use payman.Models.{DeliveryStatus, null, DeliveryRow, WebhookEndpoint}
use payman.Prelude.{refl, [], ◌∷◌, true, List, ◌≡◌, some, All, ◌==◌, false, arith, ◌⊎◌, ◌≤◌, map}
use payman.Errors.{into_response, into_response-hides, ok, database, constraint}
use payman.Http.{HttpReply}
use payman.Store.{Ensures, Task, World, insert, ◌>>=◌}
use payman.Workers.Webhooks.{
  Wire, Hooks, endpoints_of, deliver, dispatch, add_deliveries, insert_delivery, due_deliveries,
}
use payman.Workers.Hooks.{HooksKeep}
use payman.Workers.Attempts.{IsDue, IsCounted, deliver-Ensures}
use payman.Services.Webhooks.{delete_endpoint, deactivate}
use payman.Services.Deleted.{sent_to, delete_endpoint-eq-ok}

abbrev wire : Wire
wire = record {
  to_rfc3339 = λ _. "1970-01-12T13:46:40+00:00";
  uuid_to_string = λ _. "an-id";
  number_to_string = λ _. "1000000";
  json_to_string = λ _. some "{}";
  hmac_sha256_hex = λ secret text. text;
}

abbrev deaf : Hooks
deaf = record { send = λ req w. (HttpReply.elapsed, w) }

deaf-Keeps : HooksKeep deaf (λ d. All (IsDue 9 (pos 4)) d.webhook_deliveries)
deaf-Keeps = record { at = λ req w h. h }

-- The fifth attempt.
deliver-Ensures_example :
    Ensures
      (λ d. All (IsDue 9 (pos 4)) d.webhook_deliveries)
      (deliver wire deaf 9 "https://example.com" "whsec_1" null)
      (λ _ d. All (IsCounted 9 (pos 4)) d.webhook_deliveries)
deliver-Ensures_example =
    deliver-Ensures wire deaf 9 (pos 4) "https://example.com" "whsec_1" null deaf-Keeps

at_least : 500 ≤ (into_response (database (constraint "invoices_pkey"))).status
unfolding into_response
at_least = omega arith

into_response-hides_example :
    (into_response (database (constraint "invoices_pkey"))
      ≡ record { status = 500; code = "database_error"; message = "internal server error" })
    ⊎ (into_response (database (constraint "invoices_pkey"))
        ≡ record { status = 500; code = "internal_error"; message = "internal server error" })
into_response-hides_example = into_response-hides (database (constraint "invoices_pkey")) at_least

abbrev listening : WebhookEndpoint
listening = record {
  id = 5;
  business_id = 1;
  url = "https://example.com";
  secret = "whsec_1";
  active = true;
  created_at = 0;
}

-- The invoice was finalized, and the business listens at two endpoints, of which one is inactive.
abbrev heard : World
heard = record issued {
  db = record tables {
    webhook_endpoints = listening ∷ record listening { id = 6; active = false } ∷ [];
  };
}

abbrev event : Task
event = record { business_id = 1; invoice_id = 100; event_type = "invoice.finalized" }

program : Unit {0}
unfolding dispatch add_deliveries insert_delivery insert ◌>>=◌
program = tt

dispatching : dispatch wire event heard ≡ (ok tt, (dispatch wire event heard).1)
unfolding program
dispatching = refl

dispatch-eq-ok_example :
    (rows : List DeliveryRow) × ((dispatch wire event heard).1.db ≡ with_deliveries rows heard.db)
    × Queued wire event heard.now heard.db.webhook_endpoints rows
dispatch-eq-ok_example = dispatch-eq-ok wire event heard dispatching

abbrev unsent : DeliveryRow
unsent = record {
  id = 9;
  webhook_endpoint_id = 5;
  event_type = "invoice.finalized";
  payload = null;
  status = DeliveryStatus.pending;
  attempt_count = pos 0;
  next_retry_at = some 0;
  created_at = 0;
  updated_at = 0;
}

-- A delivery that waits for the endpoint that is deleted.
abbrev waiting : World
waiting = record heard { db = record heard.db { webhook_deliveries = unsent ∷ [] } }

deleting : delete_endpoint 5 1 waiting ≡ (ok tt, (delete_endpoint 5 1 waiting).1)
unfolding delete_endpoint deactivate ◌>>=◌
deleting = refl

delete_endpoint-eq-ok_example :
    All (λ e. (e.id == 5) ≡ false) (endpoints_of 1 (delete_endpoint 5 1 waiting).1.db)
    × (map sent_to (due_deliveries 1 (delete_endpoint 5 1 waiting).1.db)
        ≡ map sent_to (due_deliveries 1 waiting.db))
delete_endpoint-eq-ok_example = delete_endpoint-eq-ok 5 1 waiting 1 deleting
