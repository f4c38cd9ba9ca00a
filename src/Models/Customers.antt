-- ===== src/Models/Customers.antt =====
-- src/models/customer.rs.
use payman.Prelude.{String}
use payman.Models.JsonValues.{Uuid, DateTime}

pub record Customer : Type 0 where
  pub id : Uuid
  pub business_id : Uuid
  pub name : String
  pub email : String
  pub created_at : DateTime

pub record CreateCustomerRequest : Type 0 where
  pub name : String
  pub email : String
