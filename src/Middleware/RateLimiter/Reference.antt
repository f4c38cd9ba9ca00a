-- ===== src/Middleware/RateLimiter/Reference.antt =====
-- The sliding log against a reference that keeps every request that passed.
use payman.Middleware.RateLimiter.Window.{Served, is_recent, in_window, kept-counts, Served-Holds}
use payman.Middleware.RateLimiter.{
  sliding_log, Log, max_requests, Entry, false, true, delete, is_old, ◌∷◌, alive, window_ms, length,
}
use payman.Prelude.{
  [], String, if◌then◌else◌, ◌+◌, ℕ, List, leb, ◌≡◌, select, true, ◌≤◌, false, ltb, delete, arith,
  Bool-cases, inl, length, inr, ap, ◌∙◌, refl,
}

-- The reference: a request at `now` passes while fewer than a hundred of the requests that passed are
-- in the minute that ends then.
abbrev pub within_limit : ℕ → List ℕ → ℕ
within_limit now times = if ltb (in_window now times) max_requests then 1 else 0

-- What is left after the old entries went is recent.
select-delete_old :
    (now : ℕ) (entries : List Entry)
    → select (λ (e : Entry). is_recent now e.score) (delete (is_old now) entries)
      ≡ delete (is_old now) entries
select-delete_old now [] = refl
select-delete_old now (e ∷ entries) = elim (Bool-cases (leb (e.score + window_ms) now)) [
  | inl old ↦ rw old (select-delete_old now entries)
  | inr new ↦
      let recent : is_recent now e.score ≡ true = ground arith in
      rw (new, recent) (ap (◌∷◌ e) (select-delete_old now entries))
]

full_window : (n : ℕ) → leb max_requests n ≡ true → ltb n max_requests ≡ false
full_window n h = ground arith

open_window : (n : ℕ) → leb max_requests n ≡ false → ltb n max_requests ≡ true
open_window n h = ground arith

-- The sliding log, which forgets the entries that are older than a minute and expires as a whole,
-- answers as a limiter that keeps the time of every request that passed: it lets a request pass if
-- fewer than a hundred of those before it are in the minute that ends with the request. The clocks
-- are within half a second of each other, that of the service does not go back, and no member was in
-- use twice.
pub sliding_log-eq :
    {log : Log} {times : List ℕ} {last : ℕ} (now redis_now : ℕ) (member : String)
    → Served log times last
    → last ≤ now
    → redis_now ≤ now + 500
    → (sliding_log now redis_now member log).0 ≡ within_limit now times
unfolding sliding_log
sliding_log-eq {log} {times} {last} now redis_now member served later ahead =
    let kept = delete (is_old now) (alive redis_now log) in
    let counts : in_window now times ≡ length kept =
      kept-counts log times last now redis_now (Served-Holds served) later ahead now (omega arith)
      ∙ ap length (select-delete_old now (alive redis_now log)) in
    elim (Bool-cases (leb max_requests (length kept))) [
      | inl full ↦ rw (counts, full, full_window (length kept) full) refl
      | inr room ↦ rw (counts, room, open_window (length kept) room) refl
    ]
