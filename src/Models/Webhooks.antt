-- ===== src/Models/Webhooks.antt =====
-- src/models/webhook.rs, and a row of webhook_deliveries.
use payman.Prelude.{String, Bool, Option}
use payman.Prelude.Int.{ℤ}
use payman.Models.JsonValues.{Uuid, DateTime, Json}

pub record WebhookEndpoint : Type 0 where
  pub id : Uuid
  pub business_id : Uuid
  pub url : String
  pub secret : String
  pub active : Bool
  pub created_at : DateTime

pub record CreateWebhookEndpointRequest : Type 0 where
  pub url : String

pub data DeliveryStatus : Type 0 where
  pending delivered failed : DeliveryStatus

pub record DeliveryRow : Type 0 where
  pub id : Uuid
  pub webhook_endpoint_id : Uuid
  pub event_type : String
  pub payload : Json
  pub status : DeliveryStatus
  pub attempt_count : ℤ
  pub next_retry_at : Option DateTime
  pub created_at : DateTime
  pub updated_at : DateTime
