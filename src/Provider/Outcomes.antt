-- ===== src/Provider/Outcomes.antt =====
-- The outcome that the provider keeps, and what the service makes of the reply to a charge.
use payman.Services.Payments.Charge.{read_reply, read_charge}
use payman.Workers.Status.{PspOutcome}
use payman.Http.{HttpReply}
use payman.Models.{Uuid, PspResult, PspChargeResponse}
use payman.Prelude.{
  if◌then◌else◌, ◌==◌, ℕ, String, none, some, List, [], ◌∷◌, ◌++◌, ltb, refl, Bool-cases, ◌≡◌,
  str_eq, ap, inl, inr, ◌∙◌, true, arith,
}
use payman.Provider.{
  or_missing, success, failure, ChargeOutcome, Meanwhile, Reply, charge, Answer, Provider,
  find_outcome, charge_timeout, late_success, charge_failure, ChargeRequest, charge_success,
  get_outcome, OutcomeStore, draw_text, sleep, insert_outcome, store_outcome, run_all,
}

-- The two bodies of the service are read from one.
abbrev pub charge_body : ChargeOutcome → PspChargeResponse
charge_body o = record { status = o.status; psp_ref = o.psp_ref; code = o.code }

abbrev pub status_body : ChargeOutcome → PspOutcome
status_body o = record { status = o.status; psp_ref = o.psp_ref; code = o.code }

abbrev pub received : {A : Type 0} → (ChargeOutcome → A) → Reply → HttpReply A
received f (Reply.json outcome) = HttpReply.response 200 (some (f outcome))
received f (Reply.status_code status) = HttpReply.response status none

-- What the client has of an answer: nothing, if it takes longer than its timeout of five seconds.
abbrev pub received_in_time : Answer → HttpReply PspChargeResponse
received_in_time (reply, millis, p) =
    if ltb 5_000 millis then HttpReply.elapsed else received charge_body reply

-- The later reply to a request for the outcome of the attempt, with what the service made of the reply
-- to the charge.
abbrev pub Agrees : PspResult → Uuid → Provider → Provider → Type 0
Agrees (PspResult.succeeded psp_ref) id before after =
    get_outcome id after ≡ Reply.json (success psp_ref)
Agrees (PspResult.failed code) id before after = get_outcome id after ≡ Reply.json (failure code)
Agrees PspResult.timed_out id before after =
    (psp_ref : String) × (get_outcome id after ≡ Reply.json (success psp_ref))
Agrees PspResult.network_error id before after = get_outcome id after ≡ get_outcome id before

-- Other requests keep the outcome of the attempt.
pub record Spares (id : Uuid) (meanwhile : Meanwhile) : Type 0 where
  pub same :
      (millis : ℕ) (p : Provider)
      → find_outcome id (meanwhile.others millis p).store ≡ find_outcome id p.store

module _ (meanwhile : Meanwhile) (id : Uuid) (p : Provider) where
  found_stored :
      (outcome : ChargeOutcome) (store : OutcomeStore)
      → find_outcome id (insert_outcome id outcome store) ≡ some outcome
  unfolding find_outcome
  found_stored outcome store = let same : (id == id) ≡ true = ground arith in rw same refl

  charge_success-Agrees :
      let answer = charge_success meanwhile id p in
      Agrees (read_reply (received_in_time answer)) id p answer.2
  unfolding charge_success sleep draw_text store_outcome get_outcome read_reply read_charge
  charge_success-Agrees = ap or_missing (found_stored _ _)

  charge_failure-Agrees :
      (code : String)
      → let answer = charge_failure meanwhile code id p in
        Agrees (read_reply (received_in_time answer)) id p answer.2
  unfolding charge_failure sleep store_outcome get_outcome read_reply read_charge
  charge_failure-Agrees code = ap or_missing (found_stored _ _)

  -- The last task that was spawned has stored a success.
  run_all-last :
      (ids : List Uuid) (q : Provider)
      → (psp_ref : String) × (find_outcome id (run_all (ids ++ id ∷ []) q).store
          ≡ some (success psp_ref))
  unfolding late_success draw_text store_outcome
  run_all-last [] q = (_, found_stored _ _)
  run_all-last (i ∷ ids) q = run_all-last ids (late_success i q)

  charge_timeout-Agrees :
      Spares id meanwhile
      → let answer = charge_timeout meanwhile id p in
        Agrees (read_reply (received_in_time answer)) id p answer.2
  unfolding charge_timeout sleep draw_text get_outcome read_reply
  charge_timeout-Agrees spares =
      let (psp_ref, found) = run_all-last p.spawned (record p { spawned = [] }) in
      (psp_ref, ap or_missing (spares.same _ _ ∙ found))

-- The provider keeps what it answered: whatever the card token, once the service has read a success or
-- a failure from the reply to a charge, a request for the outcome of the attempt is answered the same;
-- once it has given up on the reply, such a request is answered a success; and on an error of the
-- provider, the outcome that is kept is as before. Requests that run meanwhile keep the outcome of the
-- attempt.
pub charge-Agrees :
    (meanwhile : Meanwhile) (req : ChargeRequest) (p : Provider)
    → Spares req.attempt_id meanwhile
    → let answer = charge meanwhile req p in
      Agrees (read_reply (received_in_time answer)) req.attempt_id p answer.2
unfolding charge read_reply
charge-Agrees meanwhile req p spares = elim (Bool-cases (str_eq req.card_token "tok_success")) [
  | inl e ↦ rw e (charge_success-Agrees meanwhile req.attempt_id p)
  | inr e₁ ↦ elim (Bool-cases (str_eq req.card_token "tok_insufficient_funds")) [
    | inl e ↦ rw (e₁, e) (charge_failure-Agrees meanwhile req.attempt_id p "insufficient_funds")
    | inr e₂ ↦ elim (Bool-cases (str_eq req.card_token "tok_card_declined")) [
      | inl e ↦ rw (e₁, e₂, e) (charge_failure-Agrees meanwhile req.attempt_id p "card_declined")
      | inr e₃ ↦ elim (Bool-cases (str_eq req.card_token "tok_timeout")) [
        | inl e ↦ rw (e₁, e₂, e₃, e) (charge_timeout-Agrees meanwhile req.attempt_id p spares)
        | inr e₄ ↦ elim (Bool-cases (str_eq req.card_token "tok_network_error")) [
          | inl e ↦ rw (e₁, e₂, e₃, e₄, e) refl
          | inr e ↦ rw (e₁, e₂, e₃, e₄, e) refl
        ]
      ]
    ]
  ]
]
