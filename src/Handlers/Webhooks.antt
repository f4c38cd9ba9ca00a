-- ===== src/Handlers/Webhooks.antt =====
-- src/handlers/webhooks.rs. `auth` is the business that the request was authenticated as.
use payman.Prelude.{Bool, true, ◌&&◌, not, List, trim, is_empty_str, starts_with}
use payman.Models.{Uuid, Business, WebhookEndpoint, CreateWebhookEndpointRequest}
use payman.Errors.{bad_request}
use payman.Libraries.{Libraries}
use payman.Store.{Action, ◌>>◌, pure, raise_if}
use payman.Services.Webhooks.{
  create_endpoint as create_endpoint_service, get_endpoint as get_endpoint_service,
  list_endpoints as list_endpoints_service, delete_endpoint as delete_endpoint_service,
}

unfoldable pub create_endpoint :
    Libraries → Business → CreateWebhookEndpointRequest → Action WebhookEndpoint
create_endpoint lib auth req = do
  raise_if (is_empty_str (trim req.url)) (bad_request "url cannot be empty")
  raise_if (not (starts_with "http://" req.url) && not (starts_with "https://" req.url))
      (bad_request "url must start with http:// or https://")
  create_endpoint_service lib auth.id req

unfoldable pub get_endpoint : Business → Uuid → Action WebhookEndpoint
get_endpoint auth id = get_endpoint_service id auth.id

unfoldable pub list_endpoints : Business → Action (List WebhookEndpoint)
list_endpoints auth = list_endpoints_service auth.id

-- The object of `json!`.
pub record Deleted : Type 0 where
  pub deleted : Bool

unfoldable pub delete_endpoint : Business → Uuid → Action Deleted
delete_endpoint auth id = do delete_endpoint_service id auth.id; pure (record { deleted = true })
