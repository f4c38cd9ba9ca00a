-- ===== src/Router/Traffic.antt =====
-- The requests of one address: how many of them the server lets in.
use payman.Router.Logs.{app-log}
use payman.Middleware.RateLimiter.{sliding_log, read_result, max_requests}
use payman.Middleware.RateLimiter.Window.{passed, Served, in_window, Served-in_window}
use payman.Models.{Uuid}
use payman.Middleware.Limits.{AppState, as_millis, is_allowed, Fate, run_script}
use payman.Router.{Environment, AppState, Uuid, Request, app}
use payman.Prelude.{
  refl, true, false, ℕ, String, List, [], ◌∷◌, ◌==◌, Bool, str_eq, ◌≡◌, ◌≤◌, Bool-cases, ◌+◌, inl,
  eq_refl, All, inr,
}

-- The text of the member that a request is to have.
abbrev pub member_of : Environment → AppState → String
member_of env s = env.text.member_text (as_millis s.world) (s.world.uuids s.world.drawn)

abbrev pub admitted : Bool → ℕ → List ℕ → List ℕ
admitted true now times = now ∷ times
admitted false now times = times

-- Any run of the server in which Redis answers, with the times at which a request of the address got
-- past the limiter, and the time of the last request of the address. The clocks of the service and of
-- Redis are within half a second of each other, that of the service does not go back, and a member is
-- not in use.
pub data Traffic (env : Environment) (ip : String) : AppState → List ℕ → ℕ → Type 0 where
  start :
      (s : AppState) (now : ℕ)
      → s.redis.logs ip ≡ record { entries = []; expires = 0 }
      → Traffic env ip s [] now
  elsewhere :
      {s : AppState} {times : List ℕ} {last : ℕ} (s' : AppState)
      → Traffic env ip s times last
      → s'.redis.logs ip ≡ s.redis.logs ip
      → Traffic env ip s' times last
  visit :
      {s : AppState} {times : List ℕ} {last : ℕ} (req : Request)
      → Traffic env ip s times last
      → req.ip ≡ ip
      → s.redis.fates s.redis.scripts ≡ Fate.answered
      → last ≤ as_millis s.world
      → as_millis s.world ≤ s.redis.now + 500
      → s.redis.now ≤ as_millis s.world + 500
      → All (λ e. str_eq e.member (member_of env s) ≡ false) (s.redis.logs ip).entries
      → Traffic env ip
          (app env req s).1
          (admitted (is_allowed env.text ip s).0 (as_millis s.world) times)
          (as_millis s.world)

module _ (env : Environment) (ip : String)
    (no_business : (id : Uuid) → str_eq ip (env.keys.uuid_to_string id) ≡ false) where
  admitted-passed :
      (answer now : ℕ) (times : List ℕ) → passed answer now times ≡ admitted (answer == 1) now times
  admitted-passed answer now times = elim (Bool-cases (answer == 1)) [
    | inl e ↦ rw e refl
    | inr e ↦ rw e refl
  ]

  answered-log :
      (s : AppState)
      → s.redis.fates s.redis.scripts ≡ Fate.answered
      → ((is_allowed env.text ip s).1.redis.logs ip
          ≡ (sliding_log (as_millis s.world) s.redis.now (member_of env s) (s.redis.logs ip)).1)
        × ((is_allowed env.text ip s).0 ≡ (
            (sliding_log (as_millis s.world) s.redis.now (member_of env s) (s.redis.logs ip)).0
            == 1))
  unfolding is_allowed run_script read_result
  answered-log s answers = rw (answers, eq_refl ip) (refl, refl)

  Traffic-Served :
      {s : AppState} {times : List ℕ} {last : ℕ}
      → Traffic env ip s times last
      → Served (s.redis.logs ip) times last
  Traffic-Served (Traffic.start s now e) = rw e (Served.none_yet now)
  Traffic-Served (Traffic.elsewhere s' before e) = rw e (Traffic-Served before)
  Traffic-Served {last = now}
        (Traffic.visit {s} {times} {last} req before at_ip answers later behind ahead fresh) =
      let (log, allowed) = answered-log s answers in
      let (answer, _) =
        sliding_log (as_millis s.world) s.redis.now (member_of env s) (s.redis.logs ip) in
      rw
        (
          app-log env ip no_business req s at_ip,
          log,
          allowed,
          ← admitted-passed answer (as_millis s.world) times,
        )
        (Served.request (as_millis s.world) s.redis.now (member_of env s) (Traffic-Served before)
          later behind ahead fresh)

  -- Whatever requests the server has from an address, on whatever routes and with whatever keys, and
  -- whatever else it does in between, at most a hundred of them get past the limiter of the address in
  -- any window of a minute that ends at or after the last of them. Redis answers, the clocks are
  -- within half a second of each other, that of the service does not go back, no member is in use
  -- twice, and the text of the address is not the identifier of a business.
  pub Traffic-in_window :
      {s : AppState} {times : List ℕ} {last : ℕ}
      → Traffic env ip s times last
      → (u : ℕ) → last ≤ u
      → in_window u times ≤ max_requests
  Traffic-in_window traffic u later = Served-in_window (Traffic-Served traffic) u later
