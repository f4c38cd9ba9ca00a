-- ===== src/Middleware/Limits.antt =====
-- The two middlewares of src/middleware/rate_limiter.rs on the state of the server: the world, and the
-- sorted sets of Redis.
use payman.Prelude.{
  ℕ, ◌+◌, ◌/◌, String, Bool, true, false, Option, none, some, str_eq, if◌then◌else◌,
}
use payman.Models.{Uuid, Business}
use payman.Errors.{ErrorResponse, into_response, too_many_requests}
use payman.Store.{World}
use payman.Middleware.RateLimiter.{Log, sliding_log, read_result}

-- What becomes of a script: Redis runs it and answers, runs it but the answer is lost, or never has
-- it.
pub data Fate : Type 0 where
  answered lost unreached : Fate

-- `logs key` is the sorted set of the key, `now` the clock of Redis, `fates n` what becomes of the n-th
-- script.
pub record Redis : Type 0 where
  pub logs : String → Log
  pub now : ℕ
  pub fates : ℕ → Fate
  pub scripts : ℕ

-- `AppState`
pub record AppState : Type 0 where
  pub world : World
  pub redis : Redis

-- The text of a member, `{now}-{uuid}`: a parameter of the model.
pub record MemberText : Type 0 where
  pub member_text : ℕ → Uuid → String

-- What reaches the service of a result, and what Redis keeps.
unfoldable pub run_script : Fate → String → ℕ × Log → Redis → Option ℕ × Redis
run_script Fate.answered key (answer, log) r =
    (some answer, record r { logs = λ k. if str_eq k key then log else r.logs k })
run_script Fate.lost key (answer, log) r =
    (none, record r { logs = λ k. if str_eq k key then log else r.logs k })
run_script Fate.unreached key (answer, log) r = (none, r)

-- The clock of the service in milliseconds.
abbrev pub as_millis : World → ℕ
as_millis w = w.now / 1_000

unfoldable pub is_allowed : MemberText → String → AppState → Bool × AppState
unfolding run_script
is_allowed text key s =
    let w = s.world in
    let r = s.redis in
    let member = text.member_text (as_millis w) (w.uuids w.drawn) in
    let (result, r') =
      run_script (r.fates r.scripts) key (sliding_log (as_millis w) r.now member (r.logs key)) r in
    (
      read_result result,
      record {
        world = record w { drawn = w.drawn + 1 };
        redis = record r' { scripts = r.scripts + 1 };
      },
    )

-- What a request is answered, generic in the body: JSON with status 200, an error of the service, or
-- the status with which an extractor of the framework rejects the request.
pub data Response (B : Type 0) : Type 0 where
  json : B → Response B
  error : ErrorResponse → Response B
  rejected : ℕ → Response B

-- A service of the framework: it answers a request, and the state is another afterwards.
abbrev pub Next : Type 0 → Type 0
Next B = AppState → Response B × AppState

module _ {B : Type 0} where
  abbrev pub pass_if : Bool × AppState → Next B → Response B × AppState
  pass_if (true, s) next = next s
  pass_if (false, s) next = (error (into_response too_many_requests), s)

  unfoldable pub ip_rate_limiter_middleware : MemberText → String → Next B → Next B
  ip_rate_limiter_middleware text ip next s = pass_if (is_allowed text ip s) next

  -- The business is what `auth_middleware` has put into the request.
  unfoldable pub business_rate_limiter_middleware :
      MemberText → (Uuid → String) → Business → Next B → Next B
  business_rate_limiter_middleware text to_string auth next s =
      pass_if (is_allowed text (to_string auth.id) s) next
