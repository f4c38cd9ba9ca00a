-- ===== src/Middleware/RateLimiter/Window.antt =====
-- The promise of the sliding log: no window of a minute has more than a hundred requests that passed.
use payman.Prelude.{
  String, str_eq, ℕ, ◌+◌, ◌≤◌, ◌==◌, ◌≡◌, refl, sym, ap, ◌∙◌, Bool, true, false, List, [], ◌∷◌,
  ◌++◌, select, delete, length, ltb, leb, if◌then◌else◌, All, All-imp, select-append, select_none,
  select-delete_disjoint, Bool-cases, inl, inr, arith, append-nil, All-delete, length-select_le,
  length-delete_le, delete_none, length-snoc,
}
use payman.Middleware.RateLimiter.{
  window_ms, max_requests, Entry, Log, alive, is_old, sliding_log, zadd,
}

-- A request at `t` is in the window that ends at `u`.
abbrev pub is_recent : ℕ → ℕ → Bool
is_recent u t = ltb u (t + window_ms)

-- How many of the times are in it.
abbrev pub in_window : ℕ → List ℕ → ℕ
in_window u times = length (select (is_recent u) times)

-- The times of the requests that passed, after a request at `now` with this answer.
abbrev pub passed : ℕ → ℕ → List ℕ → List ℕ
passed answer now times = if answer == 1 then now ∷ times else times

-- The requests of one key: the log, the times at which one passed, and the time of the last request.
-- The clocks of the service and of Redis are within half a second of each other, the clock of the
-- service does not go back, and a member is not in use.
pub data Served : Log → List ℕ → ℕ → Type 0 where
  none_yet : (now : ℕ) → Served (record { entries = []; expires = 0 }) [] now
  request :
      {log : Log} {times : List ℕ} {last : ℕ} (now redis_now : ℕ) (member : String)
      → Served log times last
      → last ≤ now
      → now ≤ redis_now + 500
      → redis_now ≤ now + 500
      → All (λ e. str_eq e.member member ≡ false) log.entries
      → Served
          (sliding_log now redis_now member log).1
          (passed (sliding_log now redis_now member log).0 now times)
          now

abbrev recent_entries : ℕ → List Entry → List Entry
recent_entries u = select (λ e. is_recent u e.score)

-- The log holds the requests that count: from now on as many of its entries as of the requests that
-- passed are in a window, and it does not expire while one of those still counts.
pub record Holds (log : Log) (times : List ℕ) (last : ℕ) : Type 0 where
  counts : (u : ℕ) → last ≤ u → in_window u times ≡ length (recent_entries u log.entries)
  lasting : All (λ t. (t ≤ last) × (t + 60_500 ≤ log.expires)) times
  bounded : length log.entries ≤ max_requests

-- A request that passes adds one to either count.
count_one :
    (u now : ℕ) (member : String) (times : List ℕ) (entries : List Entry)
    → in_window u times ≡ length (recent_entries u entries)
    → in_window u (now ∷ times)
      ≡ length (recent_entries u (entries ++ record { score = now; member = member } ∷ []))
count_one u now member times entries h =
    let split =
      select-append (λ (e : Entry). is_recent u e.score) entries
        (record { score = now; member = member } ∷ []) in
    elim (Bool-cases (is_recent u now)) [
      | inl e ↦
          rw (split, e)
            (omega (
              arith,
              h,
              length-snoc (recent_entries u entries) (record { score = now; member = member }),
            ))
      | inr e ↦ rw (split, e, append-nil) h
    ]

-- An entry that is removed is in no later window.
old_entry : (u now t : ℕ) → now ≤ u → leb (t + window_ms) now ≡ true → is_recent u t ≡ false
old_entry u now t h k = ground arith

old_time :
    (u now redis_now expires t : ℕ)
    → now ≤ u
    → redis_now ≤ now + 500
    → leb expires redis_now ≡ true
    → t + 60_500 ≤ expires
    → is_recent u t ≡ false
old_time u now redis_now expires t h k l m = ground arith

module _ (log : Log) (times : List ℕ) (last now redis_now : ℕ) (h : Holds log times last)
    (later : last ≤ now) (skew : redis_now ≤ now + 500) where
  -- What Redis still has counts the same.
  alive-counts :
      (u : ℕ) → now ≤ u → in_window u times ≡ length (recent_entries u (alive redis_now log))
  unfolding alive
  alive-counts u le = elim (Bool-cases (leb log.expires redis_now)) [
    | inl e ↦
        rw
          (
            e,
            select_none (is_recent u) times (
                All-imp _ _ times (λ t k. old_time u now redis_now log.expires t le skew e k.1)
                  h.lasting),
          )
          refl
    | inr e ↦ rw e (h.counts u (omega arith))
  ]

  alive-bounded : length (alive redis_now log) ≤ max_requests
  unfolding alive
  alive-bounded = elim (Bool-cases (leb log.expires redis_now)) [
    | inl e ↦ rw e (omega arith)
    | inr e ↦ rw e h.bounded
  ]

  abbrev pub kept_entries : List Entry
  kept_entries = delete (is_old now) (alive redis_now log)

  pub kept-counts : (u : ℕ) → now ≤ u → in_window u times ≡ length (recent_entries u kept_entries)
  kept-counts u le =
      alive-counts u le
      ∙ ap length (
          sym (
            select-delete_disjoint (λ e. is_recent u e.score) (is_old now) (alive redis_now log)
              (λ e k. old_entry u now e.score le k)))

  kept-bounded : length kept_entries ≤ max_requests
  kept-bounded = omega (arith, length-delete_le (is_old now) (alive redis_now log), alive-bounded)

  denied-Holds : Holds (record { entries = kept_entries; expires = log.expires }) times now
  denied-Holds = record {
    counts = kept-counts;
    lasting = All-imp _ _ times (λ t k. (omega arith, k.1)) h.lasting;
    bounded = kept-bounded;
  }

  allowed-Holds :
      (member : String)
      → now ≤ redis_now + 500
      → leb max_requests (length kept_entries) ≡ false
      → Holds
          (record {
            entries = kept_entries ++ record { score = now; member = member } ∷ [];
            expires = redis_now + (window_ms + 1_000);
          })
          (now ∷ times)
          now
  allowed-Holds member skew' room = record {
    counts = λ u le. count_one u now member times kept_entries (kept-counts u le);
    lasting = (
      (omega arith, omega arith),
      All-imp _ _ times (λ t k. (omega arith, omega arith)) h.lasting,
    );
    bounded = ground (arith, length-snoc kept_entries (record { score = now; member = member }));
  }

fresh-kept :
    (log : Log) (now redis_now : ℕ) (member : String)
    → All (λ (e : Entry). str_eq e.member member ≡ false) log.entries
    → All
        (λ (e : Entry). str_eq e.member member ≡ false)
        (delete (is_old now) (alive redis_now log))
unfolding alive
fresh-kept log now redis_now member fresh = elim (Bool-cases (leb log.expires redis_now)) [
  | inl e ↦ rw e tt
  | inr e ↦ rw e (All-delete _ (is_old now) log.entries fresh)
]

sliding_log-Holds :
    {log : Log} {times : List ℕ} {last : ℕ} (now redis_now : ℕ) (member : String)
    → Holds log times last
    → last ≤ now
    → now ≤ redis_now + 500
    → redis_now ≤ now + 500
    → All (λ (e : Entry). str_eq e.member member ≡ false) log.entries
    → Holds
        (sliding_log now redis_now member log).1
        (passed (sliding_log now redis_now member log).0 now times)
        now
unfolding sliding_log zadd
sliding_log-Holds {log} {times} {last} now redis_now member h later behind ahead fresh =
    elim (Bool-cases (leb max_requests (length (delete (is_old now) (alive redis_now log))))) [
      | inl full ↦ rw full (denied-Holds log times last now redis_now h later ahead)
      | inr room ↦
          rw (room, delete_none _ _ (fresh-kept log now redis_now member fresh))
            (allowed-Holds log times last now redis_now h later ahead member behind room)
    ]

pub Served-Holds :
    {log : Log} {times : List ℕ} {last : ℕ} → Served log times last → Holds log times last
Served-Holds (Served.none_yet now) = record {
  counts = λ u le. refl;
  lasting = tt;
  bounded = omega arith;
}
Served-Holds (Served.request now redis_now member before later behind ahead fresh) =
    sliding_log-Holds now redis_now member (Served-Holds before) later behind ahead fresh

-- Whatever requests a client sends, at most a hundred of those that passed are in any window of a
-- minute that ends at or after the last request: while Redis answers, the clocks are within half a
-- second of each other, that of the service does not go back, and no member is in use twice.
pub Served-in_window :
    {log : Log} {times : List ℕ} {last : ℕ}
    → Served log times last
    → (u : ℕ) → last ≤ u
    → in_window u times ≤ max_requests
Served-in_window {log} served u later =
    let holds = Served-Holds served in
    omega (
      arith,
      holds.counts u later,
      holds.bounded,
      length-select_le (λ (e : Entry). is_recent u e.score) log.entries,
    )
