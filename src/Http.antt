-- ===== src/Http.antt =====
-- The replies that `reqwest` hands to the code, under its timeout of five seconds.
use payman.Prelude.{ℕ, Bool, ◌&&◌, Option, ltb, leb}

-- `response` carries the status, and the body if it is JSON of the wanted type.
pub data HttpReply (A : Type 0) : Type 0 where
  elapsed refused : HttpReply A
  response : ℕ → Option A → HttpReply A

-- `StatusCode::is_success`
abbrev pub is_success : ℕ → Bool
is_success status = leb 200 status && ltb status 300
