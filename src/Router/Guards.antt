-- ===== src/Router/Guards.antt =====
-- What the layers around a protected route let through.
use payman.Router.Reading.{authenticate-IsReading}
use payman.Middleware.Limits.{
  business_rate_limiter_middleware, Response, AppState, is_allowed, ip_rate_limiter_middleware,
  pass_if, Redis,
}
use payman.Router.{
  Environment, ProtectedRoute, protected_routes, business_rate_limiter_middleware, Response,
  auth_middleware, Body, run, handle_protected, and_then,
}
use payman.Errors.{ok, Result, ErrorResponse, err}
use payman.Store.{World, Db, >>=-eq-ok, query-eq-ok, or_raise-eq-ok, raise_if-eq-ok, pure-eq-ok}
use payman.Models.{ApiKeyRow, Business}
use payman.Services.Businesses.{authenticate, Keys, extract_api_key, find_business_by_key, has_key}
use payman.Prelude.{
  refl, String, true, false, Option, some, List, Mem, ◌≡◌, str_append, exists-Mem, arith, eq_iff,
  ◌∙◌, head-select, ap, head?, strip_prefix-eq-some, sym, subst, Bool,
}

-- The header carries a key of the business: its hash belongs to a stored key of the business that
-- has not been revoked.
pub record Holder (keys : Keys) (header : Option (Option String)) (b : Business) (d : Db)
    : Type 0 where
  pub raw : String
  pub row : ApiKeyRow
  pub carried : header ≡ some (some (str_append "Bearer " raw))
  pub stored : Mem b d.businesses
  pub listed : Mem row d.api_keys
  pub mine : row.business_id ≡ b.id
  pub hashed : row.key_hash ≡ keys.sha256_hex raw
  pub valid : row.revoked ≡ false

extract_api_key-eq-ok :
    (header : Option (Option String)) (w : World) {raw : String} {w' : World}
    → extract_api_key header w ≡ (ok raw, w')
    → (header ≡ some (some (str_append "Bearer " raw))) × (w' ≡ w)
unfolding extract_api_key
extract_api_key-eq-ok header w {raw} run =
    let (value, w₁, e₁, run₁) = >>=-eq-ok _ _ w run in
    let (text, w₂, e₂, run₂) = >>=-eq-ok _ _ w₁ run₁ in
    let (key, w₃, e₃, run₃) = >>=-eq-ok _ _ w₂ run₂ in
    let (u, w₄, e₄, run₄) = >>=-eq-ok _ _ w₃ run₃ in
    let (present, s₁) = or_raise-eq-ok _ _ w e₁ in
    let (readable, s₂) = or_raise-eq-ok _ _ w₁ e₂ in
    let (bearer, s₃) = or_raise-eq-ok _ _ w₂ e₃ in
    let (_, s₄) = raise_if-eq-ok _ _ w₃ e₄ in
    let (same, s₅) = pure-eq-ok _ w₄ run₄ in
    (
      present
          ∙ ap some (
              readable
              ∙ ap some (
                  strip_prefix-eq-some "Bearer " text bearer
                  ∙ ap (str_append "Bearer ") (sym same))),
      s₅ ∙ s₄ ∙ s₃ ∙ s₂ ∙ s₁,
    )

has_key-row :
    (hash : String) (rows : List ApiKeyRow) (b : Business)
    → has_key hash rows b ≡ true
    → (row : ApiKeyRow) × Mem row rows
      × (row.business_id ≡ b.id)
      × (row.key_hash ≡ hash)
      × (row.revoked ≡ false)
has_key-row hash rows b h =
    let (row, stored, test) = exists-Mem _ rows h in
    (
      row,
      stored,
      ground (arith, test),
      (eq_iff row.key_hash hash).0 (ground (arith, test)),
      ground (arith, test),
    )

find_business_by_key-eq-ok :
    (keys : Keys) (header : Option (Option String)) (raw : String) (w : World) {b : Business}
    {w' : World}
    → header ≡ some (some (str_append "Bearer " raw))
    → find_business_by_key (keys.sha256_hex raw) w ≡ (ok b, w')
    → Holder keys header b w.db
unfolding find_business_by_key
find_business_by_key-eq-ok keys header raw w {b} carried run =
    let (found, w₁, e₁, run₁) = >>=-eq-ok _ _ w run in
    let (rows, w₂, e₂, run₂) = >>=-eq-ok _ _ w e₁ in
    let (read, _) = query-eq-ok _ w e₂ in
    let (first, _) = pure-eq-ok _ w₂ run₂ in
    let (is_b, _) = or_raise-eq-ok _ _ w₁ run₁ in
    let (stored, has) =
      head-select (has_key (keys.sha256_hex raw) w.db.api_keys) w.db.businesses
        (ap head? (sym read) ∙ sym first ∙ is_b) in
    let (row, listed, mine, hashed, valid) = has_key-row _ _ b has in
    record {
      raw = raw;
      row = row;
      carried = carried;
      stored = stored;
      listed = listed;
      mine = mine;
      hashed = hashed;
      valid = valid;
    }

authenticate-eq-ok :
    (keys : Keys) (header : Option (Option String)) (w : World) {b : Business} {w' : World}
    → authenticate keys header w ≡ (ok b, w')
    → Holder keys header b w.db
unfolding authenticate
authenticate-eq-ok keys header w {b} run =
    let (raw, w₁, e₁, run₁) = >>=-eq-ok _ _ w run in
    let (carried, same) = extract_api_key-eq-ok header w e₁ in
    subst (λ (u : World). Holder keys header b u.db) same
      (find_business_by_key-eq-ok keys header raw w₁ carried run₁)

-- How a request to a protected route ends: it is refused with an error, or the handler answers it for
-- a business whose key it carries; either way on the tables that it found.
pub data Guarded (env : Environment) (header : Option (Option String)) (route : ProtectedRoute)
    (d : Db) (r : Response Body × AppState) : Type 0 where
  refused :
      (e : ErrorResponse) (s : AppState)
      → s.world.db ≡ d
      → r ≡ (Response.error e, s)
      → Guarded env header route d r
  handled :
      (b : Business) (s : AppState)
      → Holder env.keys header b d
      → s.world.db ≡ d
      → r ≡ handle_protected env route b s
      → Guarded env header route d r

module _ (env : Environment) (header : Option (Option String)) (route : ProtectedRoute) where
  behind_limit :
      (b : Business) (d : Db) (allowed : Bool × AppState)
      → Holder env.keys header b d
      → allowed.1.world.db ≡ d
      → Guarded env header route d (pass_if allowed (handle_protected env route b))
  behind_limit b d (true, s) holder same = Guarded.handled b s holder same refl
  behind_limit b d (false, s) holder same = Guarded.refused _ s same refl

  behind_auth :
      (d : Db) (r : Result Business × World) (redis : Redis)
      → ((b : Business) (w : World) → r ≡ (ok b, w) → Holder env.keys header b d)
      → r.1.db ≡ d
      → Guarded env header route d (
          and_then
            (λ auth.
              business_rate_limiter_middleware env.text env.keys.uuid_to_string auth
                (handle_protected env route auth))
            r
            redis)
  unfolding business_rate_limiter_middleware is_allowed
  behind_auth d (ok b, w) redis holds same =
      behind_limit b d
        (is_allowed env.text (env.keys.uuid_to_string b.id) (record { world = w; redis = redis }))
        (holds b w refl) same
  behind_auth d (err e, w) redis holds same = Guarded.refused _ _ same refl

  behind_ip :
      (d : Db) (allowed : Bool × AppState)
      → allowed.1.world.db ≡ d
      → Guarded env header route d (
          pass_if allowed (
            auth_middleware env header λ auth.
              business_rate_limiter_middleware env.text env.keys.uuid_to_string auth
                (handle_protected env route auth)))
  unfolding auth_middleware run
  behind_ip d (true, s) same =
      behind_auth d (authenticate env.keys header s.world) s.redis
        (λ b w run.
          subst (Holder env.keys header b) same (authenticate-eq-ok env.keys header s.world run))
        ((authenticate-IsReading env.keys header).at s.world ∙ same)
  behind_ip d (false, s) same = Guarded.refused _ s same refl

  -- A request to a protected route is refused with an error, and no table changes; or it carries a key
  -- that is stored for a business and has not been revoked, and the handler of the route answers for
  -- that business, on the tables that the request found.
  pub protected_routes-Guarded :
      (ip : String) (s : AppState)
      → Guarded env header route s.world.db (protected_routes env ip header route s)
  unfolding protected_routes ip_rate_limiter_middleware is_allowed
  protected_routes-Guarded ip s = behind_ip s.world.db (is_allowed env.text ip s) refl
