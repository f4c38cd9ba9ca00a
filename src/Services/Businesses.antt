-- ===== src/Services/Businesses.antt =====
-- src/services/businesses.rs, src/utils/api_key.rs and src/middleware/auth.rs: the key that a business
-- is given, and the check of the key that a request carries.
pub mod Access
use payman.Prelude.{
  String, Bool, false, Option, ◌&&◌, ◌||◌, not, List, [], ◌∷◌, ◌++◌, ◌==◌, str_eq, str_append,
  strip_prefix, starts_with, byte_len, take_bytes, without_dashes, is_empty_str, select, exists,
}
use payman.Models.{Uuid, Business, ApiKeyRow}
use payman.Errors.{unauthorized, Result}
use payman.Store.{
  Db, Action, ◌>>=◌, ◌>>◌, pure, or_raise, raise_if, utc_now, new_v4, exec, query, insert,
  transaction, fetch_optional,
}

-- `Uuid::to_string`, and the hexadecimal SHA-256 of a text: parameters of the model.
pub record Keys : Type 0 where
  pub uuid_to_string : Uuid → String
  pub sha256_hex : String → String

pub record GeneratedApiKey : Type 0 where
  pub raw : String
  pub hash : String
  pub prefix : String

pub record CreateBusinessResult : Type 0 where
  pub business_id : Uuid
  pub api_key : String
  pub prefix : String

unfoldable pub insert_business : Business → Db → Result (List Business) × Db
insert_business row d =
    insert row ((not (exists (λ b. b.id == row.id) d.businesses), "businesses_pkey") ∷ [])
      (λ t. record t { businesses = t.businesses ++ row ∷ [] }) d

-- `key_hash TEXT NOT NULL UNIQUE`
abbrev pub has_hash : String → ApiKeyRow → Bool
has_hash key_hash k = str_eq k.key_hash key_hash

unfoldable pub insert_api_key : ApiKeyRow → Db → Result (List ApiKeyRow) × Db
insert_api_key row d =
    insert row
      ((not (exists (λ k. k.id == row.id) d.api_keys), "api_keys_pkey")
        ∷ (not (exists (has_hash row.key_hash) d.api_keys), "api_keys_key_hash_key")
        ∷ (exists (λ b. b.id == row.business_id) d.businesses, "api_keys_business_id_fkey")
        ∷ [])
      (λ t. record t { api_keys = t.api_keys ++ row ∷ [] }) d

-- The join of businesses and api_keys: a key of the business, not revoked, has the hash.
abbrev pub has_key : String → List ApiKeyRow → Business → Bool
has_key key_hash keys b =
    exists (λ k. k.business_id == b.id && str_eq k.key_hash key_hash && not k.revoked) keys

unfoldable pub find_business_by_key : String → Action Business
find_business_by_key key_hash = do
  row ← fetch_optional (query (λ d. select (has_key key_hash d.api_keys) d.businesses))
  or_raise row unauthorized

-- The header `Authorization`, if there is one, and its text, if it can be read.
unfoldable pub extract_api_key : Option (Option String) → Action String
extract_api_key header = do
  value ← or_raise header unauthorized
  auth_header ← or_raise value unauthorized
  key ← or_raise (strip_prefix "Bearer " auth_header) unauthorized
  raise_if (not (starts_with "sk_live_" key) || not (byte_len key == 40) || is_empty_str key)
      unauthorized
  pure key

module _ (keys : Keys) where
  unfoldable pub api_key_of : Uuid → GeneratedApiKey
  api_key_of id =
      let raw = str_append "sk_live_" (without_dashes (keys.uuid_to_string id)) in
      record { raw = raw; hash = keys.sha256_hex raw; prefix = take_bytes 16 raw }

  unfoldable pub generate_api_key : Action GeneratedApiKey
  generate_api_key = do id ← new_v4; pure (api_key_of id)

  -- What `create_business` does in its transaction.
  unfoldable pub insert_with_key : String → Uuid → GeneratedApiKey → Action (Unit {0})
  insert_with_key name business_id api_key = do
    now ← utc_now
    exec (insert_business (record { id = business_id; name = name; created_at = now }))
    key_id ← new_v4
    exec (
        insert_api_key (record {
          id = key_id;
          business_id = business_id;
          key_hash = api_key.hash;
          key_prefix = api_key.prefix;
          revoked = false;
          created_at = now;
        }))
    pure tt

  unfoldable pub create_business : String → Action CreateBusinessResult
  create_business name = do
    api_key ← generate_api_key
    business_id ← new_v4
    transaction (insert_with_key name business_id api_key)
    pure (record { business_id = business_id; api_key = api_key.raw; prefix = api_key.prefix })

  -- `auth_middleware`, up to the request that it passes on.
  unfoldable pub authenticate : Option (Option String) → Action Business
  authenticate header = do
    api_key ← extract_api_key header
    find_business_by_key (keys.sha256_hex api_key)
