-- ===== src/Models/JsonValues.antt =====
-- JSON values, and the scalar types that the structs are made of.
use payman.Prelude.{ℕ, String, Bool}
use payman.Prelude.Int.{ℤ}

-- A `Uuid` is only drawn, compared and printed.
abbrev pub Uuid : Type 0
Uuid = ℕ

-- A `DateTime<Utc>`, in microseconds since 1970, the resolution of a Postgres TIMESTAMPTZ.
abbrev pub DateTime : Type 0
DateTime = ℕ

-- A `NaiveDate`, in days since 1970-01-01.
abbrev pub NaiveDate : Type 0
NaiveDate = ℤ

mutual
  pub data Json : Type 0 where
    null : Json
    bool : Bool → Json
    number : ℤ → Json
    string : String → Json
    array : Items → Json
    object : Fields → Json

  pub data Items : Type 0 where
    nil : Items
    cons : Json → Items → Items

  pub data Fields : Type 0 where
    end : Fields
    field : String → Json → Fields → Fields
