-- ===== src/Libraries.antt =====
-- What the service takes from crates that are not part of the repository: the derived JSON of
-- `PaymentAttempt` (serde_json) and the text of a `Uuid`. They are parameters of the model.
use payman.Prelude.{String, ◌≡◌, Option, some}
use payman.Models.{Uuid, Json, PaymentAttempt}

pub record Libraries : Type 0 where
  pub to_value : PaymentAttempt → Option Json
  pub from_value : Json → Option PaymentAttempt
  pub uuid_to_string : Uuid → String

-- serde documents that what a derived `Serialize` writes, the derived `Deserialize` reads back.
pub record RoundTrips (lib : Libraries) : Type 0 where
  pub read_back :
      (a : PaymentAttempt) (j : Json) → lib.to_value a ≡ some j → lib.from_value j ≡ some a
