-- ===== src/Workers/Attempts.antt =====
-- The attempts to send a webhook that are recorded: src/workers/webhook.rs.
use payman.Prelude.{
  refl, ap, ◌∙◌, not_both, ◌≡◌, Bool, true, false, List, ◌==◌, All, All-update_imp, Bool-cases, inl,
  inr, arith, if◌then◌else◌, String,
}
use payman.Workers.Hooks.{HooksKeep}
use payman.Prelude.Int.{ℤ, pos, ◌+ℤ◌, ◌≤ℤ◌, ◌<ℤ◌, leb_ℤ, int_laws}
use payman.Models.{Uuid, DateTime, Json, DeliveryRow}
use payman.Errors.{Result, AppError, ok, err}
use payman.Store.{
  db_of, Db, exec, Ensures, Ensures-skip, Ensures-exec, utc_now-IsReading, Ensures-or_raise,
  Ensures-bind, Keeps-Ensures, Ensures-pure,
}
use payman.Workers.Webhooks.{
  Wire, Hooks, is_pending_delivery, set_delivered, set_missed, update_deliveries, record_delivery,
  post_hook, deliver, was_received,
}

-- At most five attempts of a delivery are recorded, and less than five if it is pending.
abbrev pub IsWithin : DeliveryRow → Type 0
IsWithin r =
    (r.attempt_count ≤ℤ pos 5) × (is_pending_delivery r.status ≡ true → r.attempt_count ≤ℤ pos 4)

abbrev pub IsOpen : Uuid → DeliveryRow → Type 0
IsOpen id r = IsWithin r × ((r.id == id) ≡ true → is_pending_delivery r.status ≡ true)

-- The delivery that is sent, after `n` attempts that were recorded.
abbrev pub IsDue : Uuid → ℤ → DeliveryRow → Type 0
IsDue id n r = IsOpen id r × ((r.id == id) ≡ true → r.attempt_count ≡ n)

-- The same after one more.
abbrev pub IsCounted : Uuid → ℤ → DeliveryRow → Type 0
IsCounted id n r = IsWithin r × ((r.id == id) ≡ true → r.attempt_count ≡ n +ℤ pos 1)

bounded_sum : (n : ℤ) → n ≤ℤ pos 4 → n +ℤ pos 1 ≤ℤ pos 5
bounded_sum n h = omega (int_laws, arith)

set_delivered-IsWithin :
    (now : DateTime) (r : DeliveryRow)
    → IsWithin r
    → is_pending_delivery r.status ≡ true
    → IsWithin (set_delivered now r)
unfolding set_delivered
set_delivered-IsWithin now r h open_row =
    (bounded_sum r.attempt_count (h.1 open_row), λ e. absurd (cc))

still_pending : (n : ℤ) → leb_ℤ (pos 4) n ≡ false → n +ℤ pos 1 ≤ℤ pos 4
still_pending n h = let k : n <ℤ pos 4 = ground arith in omega (int_laws, arith)

set_missed-IsWithin :
    (now : DateTime) (r : DeliveryRow)
    → IsWithin r
    → is_pending_delivery r.status ≡ true
    → IsWithin (set_missed now r)
unfolding set_missed
set_missed-IsWithin now r h open_row = elim (Bool-cases (leb_ℤ (pos 4) r.attempt_count)) [
  | inl e ↦ rw e (bounded_sum r.attempt_count (h.1 open_row), λ f. absurd (cc))
  | inr e ↦ rw e (bounded_sum r.attempt_count (h.1 open_row), λ _. still_pending r.attempt_count e)
]

pub written :
    (out_of_bounds : Bool) (e : AppError) (d d₁ : Db) (all : List DeliveryRow)
    {rows : List DeliveryRow} {d' : Db}
    → ◌≡◌ {A = Result (List DeliveryRow) × Db}
        (if out_of_bounds then (err e, d) else (ok all, d₁))
        (ok rows, d')
    → d₁ ≡ d'
written true e d d₁ all h = absurd (cc)
written false e d d₁ all h = db_of _ h

set_delivered-counts :
    (now : DateTime) (r : DeliveryRow)
    → (set_delivered now r).attempt_count ≡ r.attempt_count +ℤ pos 1
unfolding set_delivered
set_delivered-counts now r = refl

set_missed-counts :
    (now : DateTime) (r : DeliveryRow) → (set_missed now r).attempt_count ≡ r.attempt_count +ℤ pos 1
unfolding set_missed
set_missed-counts now r = refl

module _ (id : Uuid) (n : ℤ) where
  update_deliveries-Ensures :
      (f : DeliveryRow → DeliveryRow)
      → ((r : DeliveryRow) → IsWithin r → is_pending_delivery r.status ≡ true → IsWithin (f r))
      → ((r : DeliveryRow) → (f r).attempt_count ≡ r.attempt_count +ℤ pos 1)
      → Ensures
          (λ d. All (IsDue id n) d.webhook_deliveries)
          (exec (update_deliveries id f))
          (λ _ d. All (IsCounted id n) d.webhook_deliveries)
  unfolding update_deliveries
  update_deliveries-Ensures f k counts = Ensures-exec _ _ _ λ d rows d' h run.
      rw (← written _ _ _ _ _ run) (
        All-update_imp (IsDue id n) (IsCounted id n) (λ r. r.id == id) f d.webhook_deliveries
          (λ r e m. (k r m.0.0 (m.0.1 e), λ _. counts r ∙ ap (λ c. c +ℤ pos 1) (m.1 e)))
          (λ r e m. (m.0.0, λ t. absurd (not_both _ e t))) h)

  record_delivery-Ensures :
      (received : Bool)
      → Ensures
          (λ d. All (IsDue id n) d.webhook_deliveries)
          (record_delivery id received)
          (λ _ d. All (IsCounted id n) d.webhook_deliveries)
  unfolding record_delivery
  record_delivery-Ensures true = Ensures-skip _ _ _ _ utc_now-IsReading λ now.
      Ensures-bind _ _ (λ _ d. All (IsCounted id n) d.webhook_deliveries) _ _
        (update_deliveries-Ensures (set_delivered now) (set_delivered-IsWithin now)
          (set_delivered-counts now))
        λ _. Ensures-pure _ _ _ λ d h. h
  record_delivery-Ensures false = Ensures-skip _ _ _ _ utc_now-IsReading λ now.
      Ensures-bind _ _ (λ _ d. All (IsCounted id n) d.webhook_deliveries) _ _
        (update_deliveries-Ensures (set_missed now) (set_missed-IsWithin now)
          (set_missed-counts now))
        λ _. Ensures-pure _ _ _ λ d h. h

-- An attempt that is recorded counts, whether the endpoint took the delivery or not: the delivery, which
-- was pending after `n` recorded attempts, has `n + 1`, at most five, and at most four if it is still
-- pending, so that the fifth is its last; and the other deliveries stay within these bounds. A request
-- whose record fails is not counted. What runs meanwhile leaves the delivery pending after `n`.
pub deliver-Ensures :
    (wire : Wire) (hooks : Hooks) (id : Uuid) (n : ℤ) (url secret : String) (payload : Json)
    → HooksKeep hooks (λ d. All (IsDue id n) d.webhook_deliveries)
    → Ensures
        (λ d. All (IsDue id n) d.webhook_deliveries)
        (deliver wire hooks id url secret payload)
        (λ _ d. All (IsCounted id n) d.webhook_deliveries)
unfolding deliver post_hook
deliver-Ensures wire hooks id n url secret payload quiet =
    Ensures-skip _ _ _ _ utc_now-IsReading λ now.
      Ensures-or_raise _ _ (wire.json_to_string payload) _ _ λ text e.
        Ensures-bind _ _ (λ _ d. All (IsDue id n) d.webhook_deliveries) _ _
          (Keeps-Ensures _ _ (record { at = λ w h. quiet.at _ w h }))
          λ reply. record_delivery-Ensures id n (was_received reply)
