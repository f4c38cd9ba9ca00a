-- ===== src/Tests/Codec.antt =====
-- A way to write a `PaymentAttempt` as JSON and to read it back.
use payman.Prelude.{◌≡◌, refl, String, Option, none, some, true}
use payman.Prelude.Int.{pos}
use payman.Models.{
  Json, null, bool, number, string, array, nil, cons, PaymentStatus, PaymentAttempt,
}
use payman.Libraries.{Libraries, RoundTrips}

abbrev write_option : Option String → Json
write_option none = null
write_option (some s) = string s

abbrev read_option : Json → Option String
read_option (string s) = some s
read_option _ = none

abbrev write_status : PaymentStatus → Json
write_status PaymentStatus.pending = string "pending"
write_status PaymentStatus.succeeded = bool true
write_status PaymentStatus.failed = null

abbrev read_status : Json → PaymentStatus
read_status null = PaymentStatus.failed
read_status (bool b) = PaymentStatus.succeeded
read_status _ = PaymentStatus.pending

abbrev pub write : PaymentAttempt → Json
write a = array (
    cons (number (pos a.id)) (
      cons (number (pos a.invoice_id)) (
        cons (write_status a.status) (
          cons (string a.card_token) (
            cons (write_option a.psp_reference) (
              cons (write_option a.failure_code)
                (cons (number (pos a.created_at)) (cons (number (pos a.updated_at)) nil))))))))

abbrev read : Json → Option PaymentAttempt
read
      (array (
        cons (number (pos id)) (
          cons (number (pos invoice_id)) (
            cons status (
              cons (string card_token) (
                cons psp_reference (
                  cons failure_code
                    (cons (number (pos created_at)) (cons (number (pos updated_at)) nil))))))))) =
    some (record {
      id = id;
      invoice_id = invoice_id;
      status = read_status status;
      card_token = card_token;
      psp_reference = read_option psp_reference;
      failure_code = read_option failure_code;
      created_at = created_at;
      updated_at = updated_at;
    })
read _ = none

abbrev pub codec : Libraries
codec = record { to_value = λ a. some (write a); from_value = read; uuid_to_string = λ _. "an-id" }

read-write_option : (o : Option String) → read_option (write_option o) ≡ o
read-write_option none = refl
read-write_option (some s) = refl

read-write_status : (s : PaymentStatus) → read_status (write_status s) ≡ s
read-write_status PaymentStatus.pending = refl
read-write_status PaymentStatus.succeeded = refl
read-write_status PaymentStatus.failed = refl

read-write : (a : PaymentAttempt) → read (write a) ≡ some a
read-write a =
    rw
      (
        read-write_status a.status,
        read-write_option a.psp_reference,
        read-write_option a.failure_code,
      )
      refl

write_same : (a : PaymentAttempt) (j : Json) → some (write a) ≡ some j → write a ≡ j
write_same a j h = cc

pub codec-RoundTrips : RoundTrips codec
codec-RoundTrips = record { read_back = λ a j h. rw (← write_same a j h) (read-write a) }
