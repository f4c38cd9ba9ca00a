-- ===== src/Errors.antt =====
-- src/errors.rs: the errors of the service, and the HTTP responses that they become.
use payman.Prelude.{ℕ, ◌≤◌, ◌≡◌, refl, String, arith, ◌⊎◌, inl, inr}

-- `sqlx::Error`: the cases that the model raises, and any other with its text. `constraint` carries the
-- constraint's name.
pub data SqlxError : Type 0 where
  row_not_found out_of_range io : SqlxError
  constraint other : String → SqlxError

-- `anyhow::Error`: an error of serde_json or reqwest, and any other with its text.
pub data Cause : Type 0 where
  serde_json reqwest : Cause
  message : String → Cause

pub data AppError : Type 0 where
  not_found unauthorized too_many_requests : AppError
  bad_request conflict invalid_state_transition : String → AppError
  database : SqlxError → AppError
  internal : Cause → AppError

pub data Result {ℓ} (A : Type ℓ) : Type ℓ where
  ok : A → Result A
  err : AppError → Result A

-- The status, and the two fields of the JSON body.
pub record ErrorResponse : Type 0 where
  pub status : ℕ
  pub code : String
  pub message : String

unfoldable pub into_response : AppError → ErrorResponse
into_response not_found = record { status = 404; code = "not_found"; message = "not found" }
into_response unauthorized = record {
  status = 401;
  code = "unauthorized";
  message = "unauthorized";
}
into_response (bad_request msg) = record { status = 400; code = "bad_request"; message = msg }
into_response (conflict msg) = record { status = 409; code = "conflict"; message = msg }
into_response too_many_requests = record {
  status = 429;
  code = "too_many_requests";
  message = "too many requests";
}
into_response (invalid_state_transition msg) = record {
  status = 422;
  code = "invalid_state_transition";
  message = msg;
}
into_response (database e) = record {
  status = 500;
  code = "database_error";
  message = "internal server error";
}
into_response (internal cause) = record {
  status = 500;
  code = "internal_error";
  message = "internal server error";
}

-- The whole response to an error of the server is one of two constants, whatever the error carries: the
-- name of a constraint, or any text of the database or of a library.
pub into_response-hides :
    (e : AppError)
    → 500 ≤ (into_response e).status
    → (into_response e
        ≡ record { status = 500; code = "database_error"; message = "internal server error" })
      ⊎ (into_response e
          ≡ record { status = 500; code = "internal_error"; message = "internal server error" })
unfolding into_response
into_response-hides not_found h = absurd (omega arith)
into_response-hides unauthorized h = absurd (omega arith)
into_response-hides (bad_request msg) h = absurd (omega arith)
into_response-hides (conflict msg) h = absurd (omega arith)
into_response-hides too_many_requests h = absurd (omega arith)
into_response-hides (invalid_state_transition msg) h = absurd (omega arith)
into_response-hides (database e) h = inl refl
into_response-hides (internal cause) h = inr refl
