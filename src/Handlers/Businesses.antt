-- ===== src/Handlers/Businesses.antt =====
-- src/handlers/businesses.rs.
use payman.Prelude.{String, trim, is_empty_str}
use payman.Models.{Uuid, CreateBusinessRequest}
use payman.Errors.{bad_request}
use payman.Store.{Action, ◌>>=◌, ◌>>◌, pure, raise_if}
use payman.Services.Businesses.{Keys, create_business as create_business_service}

-- The object of `json!`.
pub record CreatedBusiness : Type 0 where
  pub business_id : Uuid
  pub api_key : String
  pub prefix : String
  pub warning : String

unfoldable pub create_business : Keys → CreateBusinessRequest → Action CreatedBusiness
create_business keys req = do
  raise_if (is_empty_str (trim req.name)) (bad_request "name cannot be empty")
  result ← create_business_service keys (trim req.name)
  pure (record {
    business_id = result.business_id;
    api_key = result.api_key;
    prefix = result.prefix;
    warning = "save this key now. It will never be shown again.";
  })
