-- ===== src/Models/Businesses.antt =====
-- src/models/business.rs, and a row of the table api_keys.
use payman.Prelude.{String, Bool}
use payman.Models.JsonValues.{Uuid, DateTime}

pub record Business : Type 0 where
  pub id : Uuid
  pub name : String
  pub created_at : DateTime

pub record CreateBusinessRequest : Type 0 where
  pub name : String

pub record ApiKeyRow : Type 0 where
  pub id : Uuid
  pub business_id : Uuid
  pub key_hash : String
  pub key_prefix : String
  pub revoked : Bool
  pub created_at : DateTime
