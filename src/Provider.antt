-- ===== src/Provider.antt =====
-- The mock provider, src/bin/psp.rs: what a card token is answered, and the outcomes that it keeps.
pub mod Outcomes
pub mod Reconciled
use payman.Prelude.{
  ℕ, ◌+◌, String, Option, none, some, List, [], ◌∷◌, ◌++◌, ◌==◌, str_eq, if◌then◌else◌,
}
use payman.Models.{Uuid}

pub record ChargeRequest : Type 0 where
  pub card_token : String
  pub attempt_id : Uuid

pub record ChargeOutcome : Type 0 where
  pub status : String
  pub psp_ref : Option String
  pub code : Option String

-- `OutcomeStore`, a map: the first entry of a key counts.
abbrev pub OutcomeStore : Type 0
OutcomeStore = List (Uuid × ChargeOutcome)

-- `HashMap::insert`, and `get`.
abbrev pub insert_outcome : Uuid → ChargeOutcome → OutcomeStore → OutcomeStore
insert_outcome id outcome store = (id, outcome) ∷ store

unfoldable pub find_outcome : Uuid → OutcomeStore → Option ChargeOutcome
find_outcome id [] = none
find_outcome id ((key, outcome) ∷ store) =
    let rest = find_outcome id store in if key == id then some outcome else rest

-- `spawned` are the attempts whose spawned task has not run, `texts n` the text of the n-th identifier
-- that `Uuid::new_v4` draws.
pub record Provider : Type 0 where
  pub store : OutcomeStore
  pub spawned : List Uuid
  pub texts : ℕ → String
  pub drawn : ℕ

-- `Result<Json<ChargeOutcome>, StatusCode>`
pub data Reply : Type 0 where
  json : ChargeOutcome → Reply
  status_code : ℕ → Reply

abbrev pub success : String → ChargeOutcome
success psp_ref = record { status = "succeeded"; psp_ref = some psp_ref; code = none }

abbrev pub failure : String → ChargeOutcome
failure code = record { status = "failed"; psp_ref = none; code = some code }

unfoldable pub draw_text : Provider → String × Provider
draw_text p = (p.texts p.drawn, record p { drawn = p.drawn + 1 })

unfoldable pub store_outcome : Uuid → ChargeOutcome → Provider → Provider
store_outcome id outcome p = record p { store = insert_outcome id outcome p.store }

-- The body of the spawned task.
unfoldable pub late_success : Uuid → Provider → Provider
unfolding draw_text store_outcome
late_success id p = let (psp_ref, p') = draw_text p in store_outcome id (success psp_ref) p'

-- What runs while a handler sleeps for some milliseconds: the tasks that are waiting, and then whatever
-- other requests there are.
pub record Meanwhile : Type 0 where
  pub others : ℕ → Provider → Provider

abbrev pub run_all : List Uuid → Provider → Provider
run_all [] p = p
run_all (id ∷ ids) p = run_all ids (late_success id p)

unfoldable pub sleep : Meanwhile → ℕ → Provider → Provider
unfolding late_success
sleep meanwhile millis p = meanwhile.others millis (run_all p.spawned (record p { spawned = [] }))

-- The reply, the milliseconds after which it is sent at the earliest, and the provider then.
abbrev pub Answer : Type 0
Answer = Reply × ℕ × Provider

-- The arms of the tokens with an outcome of their own.
unfoldable pub charge_success : Meanwhile → Uuid → Provider → Answer
unfolding sleep draw_text store_outcome
charge_success meanwhile id p =
    let (psp_ref, p') = draw_text (sleep meanwhile 100 p) in
    (Reply.json (success psp_ref), 100, store_outcome id (success psp_ref) p')

unfoldable pub charge_failure : Meanwhile → String → Uuid → Provider → Answer
unfolding sleep store_outcome
charge_failure meanwhile code id p =
    (Reply.json (failure code), 100, store_outcome id (failure code) (sleep meanwhile 100 p))

-- The outcome is stored by a task, and the reply comes after thirty seconds. Either draws its own
-- reference.
unfoldable pub charge_timeout : Meanwhile → Uuid → Provider → Answer
unfolding sleep draw_text
charge_timeout meanwhile id p =
    let (psp_ref, p') =
      draw_text (sleep meanwhile 30_000 (record p { spawned = p.spawned ++ id ∷ [] })) in
    (Reply.json (success psp_ref), 30_000, p')

unfoldable pub charge : Meanwhile → ChargeRequest → Provider → Answer
unfolding charge_success charge_failure charge_timeout
charge meanwhile req p =
    if str_eq req.card_token "tok_success"
    then charge_success meanwhile req.attempt_id p
    else if str_eq req.card_token "tok_insufficient_funds"
    then charge_failure meanwhile "insufficient_funds" req.attempt_id p
    else if str_eq req.card_token "tok_card_declined"
    then charge_failure meanwhile "card_declined" req.attempt_id p
    else if str_eq req.card_token "tok_timeout"
    then charge_timeout meanwhile req.attempt_id p
    else if str_eq req.card_token "tok_network_error"
    then (Reply.status_code 500, 0, p)
    else (Reply.status_code 400, 0, p)

abbrev or_missing : Option ChargeOutcome → Reply
or_missing none = Reply.status_code 404
or_missing (some outcome) = Reply.json outcome

unfoldable pub get_outcome : Uuid → Provider → Reply
unfolding find_outcome
get_outcome id p = or_missing (find_outcome id p.store)
