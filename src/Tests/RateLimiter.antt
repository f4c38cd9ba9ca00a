-- ===== src/Tests/RateLimiter.antt =====
-- A client that sends two requests.
use payman.Middleware.RateLimiter.Reference.{within_limit, sliding_log-eq}
use payman.Prelude.{◌≤◌, ◌≡◌, refl, arith, [], ◌∷◌}
use payman.Middleware.RateLimiter.{Log, sliding_log, alive, zadd, max_requests}
use payman.Middleware.RateLimiter.Window.{Served, in_window, Served-in_window}

program : Unit {0}
unfolding sliding_log alive zadd
program = tt

abbrev empty : Log
empty = record { entries = []; expires = 0 }

abbrev one : Log
one = record { entries = record { score = 1_000; member = "1000-a" } ∷ []; expires = 62_200 }

first_request : sliding_log 1_000 1_200 "1000-a" empty ≡ (1, one)
unfolding program
first_request = refl

-- The first request no longer counts when the second comes.
abbrev two : Log
two = record { entries = record { score = 61_000; member = "61000-b" } ∷ []; expires = 122_000 }

second_request : sliding_log 61_000 61_000 "61000-b" one ≡ (1, two)
unfolding program
second_request = refl

two-Served : Served two (61_000 ∷ 1_000 ∷ []) 61_000
unfolding program
two-Served =
    Served.request 61_000 61_000 "61000-b"
      (Served.request 1_000 1_200 "1000-a" (Served.none_yet 0) (omega arith) (omega arith)
        (omega arith) tt)
      (omega arith) (omega arith) (omega arith) (refl, tt)

Served-in_window_example : in_window 61_500 (61_000 ∷ 1_000 ∷ []) ≤ max_requests
Served-in_window_example = Served-in_window two-Served 61_500 (omega arith)

-- A third request, half a second later.
sliding_log-eq_example :
    (sliding_log 61_500 61_400 "61500-c" two).0 ≡ within_limit 61_500 (61_000 ∷ 1_000 ∷ [])
sliding_log-eq_example =
    sliding_log-eq 61_500 61_400 "61500-c" two-Served (omega arith) (omega arith)
