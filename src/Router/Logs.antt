-- ===== src/Router/Logs.antt =====
-- What a request does to the sorted sets of Redis: behind the limiter of the address, nothing to that of
-- the address.
use payman.Services.Businesses.{authenticate}
use payman.Middleware.RateLimiter.{Log}
use payman.Models.{Uuid, Business}
use payman.Store.{Action, World}
use payman.Errors.{Result, ok, err}
use payman.Middleware.Limits.{
  Next, run_script, AppState, Fate, business_rate_limiter_middleware, Redis, pass_if, is_allowed,
  ip_rate_limiter_middleware, Response,
}
use payman.Router.{
  Environment, run, Extract, Body, Result, handle_public, Uuid, Action, handle_protected, extract,
  PublicRoute, World, respond, ProtectedRoute, public_routes, protected_routes, and_then,
  auth_middleware, Route, app_of, authenticate, app, Request,
}
use payman.Prelude.{refl, true, false, ℕ, String, ◌≡◌, str_eq, Bool, ap, ◌∙◌, Option}

-- The handlers leave Redis alone.
record LeavesRedis (n : Next Body) : Type 0 where
  at : (s : AppState) → (n s).1.redis ≡ s.redis

and_then-redis :
    {A : Type 0} (f : A → Body) (r : Result A × World) (redis : Redis)
    → (and_then (λ a s. (Response.json (f a), s)) r redis).1.redis ≡ redis
and_then-redis f (ok a, w) redis = refl
and_then-redis f (err e, w) redis = refl

respond-LeavesRedis : {A : Type 0} (f : A → Body) (m : Action A) → LeavesRedis (respond f m)
unfolding run
respond-LeavesRedis f m = record { at = λ s. and_then-redis f (m s.world) s.redis }

extract-LeavesRedis :
    {A : Type 0} (x : Extract A) (k : A → Next Body)
    → ((a : A) → LeavesRedis (k a))
    → LeavesRedis (extract x k)
extract-LeavesRedis (Extract.extracted a) k h = h a
extract-LeavesRedis (Extract.rejection status) k h = record { at = λ s. refl }

ruleset leaves_rules = (respond-LeavesRedis, extract-LeavesRedis)

module _ (env : Environment) where
  handle_public-LeavesRedis : (route : PublicRoute) → LeavesRedis (handle_public env route)
  unfolding handle_public
  handle_public-LeavesRedis PublicRoute.get_health = record { at = λ s. refl }
  handle_public-LeavesRedis (PublicRoute.post_businesses body) = search leaves_rules

  handle_protected-LeavesRedis :
      (route : ProtectedRoute) (auth : Business) → LeavesRedis (handle_protected env route auth)
  unfolding handle_protected
  handle_protected-LeavesRedis ProtectedRoute.get_customers auth = search leaves_rules
  handle_protected-LeavesRedis ProtectedRoute.get_webhooks auth = search leaves_rules
  handle_protected-LeavesRedis (ProtectedRoute.get_customers_id path) auth = search leaves_rules
  handle_protected-LeavesRedis (ProtectedRoute.get_invoices_id path) auth = search leaves_rules
  handle_protected-LeavesRedis (ProtectedRoute.get_webhooks_id path) auth = search leaves_rules
  handle_protected-LeavesRedis (ProtectedRoute.delete_webhooks_id path) auth = search leaves_rules
  handle_protected-LeavesRedis (ProtectedRoute.post_customers body) auth = search leaves_rules
  handle_protected-LeavesRedis (ProtectedRoute.post_invoices body) auth = search leaves_rules
  handle_protected-LeavesRedis (ProtectedRoute.get_invoices query) auth = search leaves_rules
  handle_protected-LeavesRedis (ProtectedRoute.patch_invoices_id path body) auth =
      search leaves_rules
  handle_protected-LeavesRedis (ProtectedRoute.post_invoices_id_finalize path body) auth =
      search leaves_rules
  handle_protected-LeavesRedis (ProtectedRoute.post_invoices_id_void path body) auth =
      search leaves_rules
  handle_protected-LeavesRedis (ProtectedRoute.post_webhooks body) auth = search leaves_rules
  handle_protected-LeavesRedis (ProtectedRoute.post_payments_id_pay path header body) auth =
      search leaves_rules

-- A script on another key leaves the log of a key alone.
run_script-log :
    (fate : Fate) (key other : String) (result : ℕ × Log) (r : Redis)
    → str_eq other key ≡ false
    → (run_script fate key result r).1.logs other ≡ r.logs other
unfolding run_script
run_script-log Fate.answered key other (n, log) r h = rw h refl
run_script-log Fate.lost key other (n, log) r h = rw h refl
run_script-log Fate.unreached key other (n, log) r h = refl

module _ (env : Environment) (ip : String)
    (no_business : (id : Uuid) → str_eq ip (env.keys.uuid_to_string id) ≡ false) where
  -- The log of the address, behind its limiter.
  LeavesLog : Next Body → Type 0
  LeavesLog n = (s : AppState) → (n s).1.redis.logs ip ≡ s.redis.logs ip

  pass_if-log :
      (allowed : Bool × AppState) (n : Next Body) (log : Log)
      → LeavesLog n
      → allowed.1.redis.logs ip ≡ log
      → (pass_if allowed n).1.redis.logs ip ≡ log
  unfolding LeavesLog
  pass_if-log (true, s) n log h e = h s ∙ e
  pass_if-log (false, s) n log h e = e

  business-LeavesLog :
      (auth : Business) (n : Next Body)
      → LeavesRedis n
      → LeavesLog (business_rate_limiter_middleware env.text env.keys.uuid_to_string auth n)
  unfolding LeavesLog business_rate_limiter_middleware is_allowed
  business-LeavesLog auth n h s =
      pass_if-log (is_allowed env.text (env.keys.uuid_to_string auth.id) s) n (s.redis.logs ip)
        (λ t. ap (λ (r : Redis). r.logs ip) (h.at t))
        (run_script-log _ _ ip _ s.redis (no_business auth.id))

  and_then-LeavesLog :
      (k : Business → Next Body) (r : Result Business × World) (redis : Redis)
      → ((b : Business) → LeavesLog (k b))
      → (and_then k r redis).1.redis.logs ip ≡ redis.logs ip
  unfolding LeavesLog
  and_then-LeavesLog k (ok b, w) redis h = h b _
  and_then-LeavesLog k (err e, w) redis h = refl

  -- What a request of the address does to the log is what its limiter does.
  app_of-log :
      (header : Option (Option String)) (route : Route) (s : AppState)
      → (app_of env ip header route s).1.redis.logs ip ≡ (is_allowed env.text ip s).1.redis.logs ip
  unfolding public_routes protected_routes ip_rate_limiter_middleware auth_middleware run LeavesLog
  app_of-log header (Route.public route) s =
      pass_if-log (is_allowed env.text ip s) _ _
        (λ t. ap (λ (r : Redis). r.logs ip) ((handle_public-LeavesRedis env route).at t)) refl
  app_of-log header (Route.protected route) s =
      pass_if-log (is_allowed env.text ip s) _ _
        (λ t.
          and_then-LeavesLog
            (λ b.
              business_rate_limiter_middleware env.text env.keys.uuid_to_string b
                (handle_protected env route b))
            (authenticate env.keys header t.world) t.redis
            λ b. business-LeavesLog b _ (handle_protected-LeavesRedis env route b))
        refl

  pub app-log :
      (req : Request) (s : AppState)
      → req.ip ≡ ip
      → (app env req s).1.redis.logs ip ≡ (is_allowed env.text ip s).1.redis.logs ip
  unfolding app
  app-log req s e = rw e (app_of-log req.authorization req.route s)
