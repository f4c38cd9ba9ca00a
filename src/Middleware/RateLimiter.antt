-- ===== src/Middleware/RateLimiter.antt =====
-- src/middleware/rate_limiter.rs: the sliding log of requests, one sorted set of Redis for each key.
pub mod Window
pub mod Reference
use payman.Prelude.{
  String, str_eq, ℕ, ◌+◌, ◌==◌, Bool, true, false, not, Option, none, some, List, [], ◌∷◌, ◌++◌,
  delete, length, leb, if◌then◌else◌,
}

-- `WINDOW_MS` and `MAX_REQUESTS`
abbrev pub window_ms : ℕ
window_ms = 60_000

abbrev pub max_requests : ℕ
max_requests = 100

-- A member of the sorted set, with its score.
pub record Entry : Type 0 where
  pub score : ℕ
  pub member : String

-- The sorted set, and the time of Redis at which `PEXPIRE` lets it go.
pub record Log : Type 0 where
  pub entries : List Entry
  pub expires : ℕ

-- What is left of it at a time of Redis.
unfoldable pub alive : ℕ → Log → List Entry
alive redis_now log = if leb log.expires redis_now then [] else log.entries

-- `now - window` is at or after the score: the range that `ZREMRANGEBYSCORE` removes.
abbrev pub is_old : ℕ → Entry → Bool
is_old now e = leb (e.score + window_ms) now

-- `ZADD`: a member that is there already takes the new score.
unfoldable pub zadd : Entry → List Entry → List Entry
zadd e entries = delete (λ x. str_eq x.member e.member) entries ++ e ∷ []

-- `SLIDING_LOG_SCRIPT`, which Redis runs as one step. `now` is the clock of the service, `redis_now`
-- that of Redis.
unfoldable pub sliding_log : ℕ → ℕ → String → Log → ℕ × Log
sliding_log now redis_now member log =
    let kept = delete (is_old now) (alive redis_now log) in
    if leb max_requests (length kept)
    then (0, record { entries = kept; expires = log.expires })
    else (
      1,
      record {
        entries = zadd (record { score = now; member = member }) kept;
        expires = redis_now + (window_ms + 1_000);
      },
    )

-- The `match` on the result of the script: where Redis fails, the request may pass.
unfoldable pub read_result : Option ℕ → Bool
read_result none = true
read_result (some n) = n == 1
