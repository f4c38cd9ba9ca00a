-- ===== src/Workers/Hooks.antt =====
-- The webhook workers change nothing but the deliveries.
use payman.Services.Elsewhere.{Elsewhere}
use payman.Prelude.Int.{eqb_ℤ, pos}
use payman.Workers.Safe.{logged-Safe}
use payman.Models.{Uuid, Json, DeliveryRow, WebhookEndpoint}
use payman.Services.Payments.Safe.{IsSafe}
use payman.Workers.Webhooks.{
  Hooks, HookRequest, insert_delivery, dispatch, add_deliveries, record_delivery, Wire,
  update_deliveries, deliver_each, process_pending_deliveries, deliver, post_hook,
}
use payman.Store.{Db, keeps_rules, World, Task, Keeps, >>=-Keeps, exec, exec-Keeps, insert_cases}
use payman.Prelude.{
  Bool-cases, inl, inr, exists, ◌==◌, ◌&&◌, refl, true, false, Bool, List, [], ◌∷◌, String,
}

-- Requests that run while an endpoint is waited for keep the predicate.
pub record HooksKeep (hooks : Hooks) (P : Db → Type 0) : Type 0 where
  pub at : (req : HookRequest) (w : World) → P w.db → P (hooks.send req w).1.db

module _ (P : Db → Type 0) (s : IsSafe P) where
  insert_delivery-Safe : (row : DeliveryRow) → Keeps P (exec (insert_delivery row))
  unfolding insert_delivery
  insert_delivery-Safe row = exec-Keeps _ _ (λ d h.
      insert_cases P row _ _ d h
        (λ _. s.elsewhere d _ (Elsewhere.other _ refl refl refl refl refl) h))

  update_deliveries-Safe :
      (id : Uuid) (f : DeliveryRow → DeliveryRow) → Keeps P (exec (update_deliveries id f))
  unfolding update_deliveries
  update_deliveries-Safe id f = exec-Keeps _ _ (λ d h.
      elim (Bool-cases (
        exists (λ r. r.id == id && eqb_ℤ r.attempt_count (pos 2_147_483_647))
          d.webhook_deliveries)) [
            | inl e ↦ rw e h
            | inr e ↦ rw e (s.elsewhere d _ (Elsewhere.other _ refl refl refl refl refl) h)
          ])

  ruleset hook_rules = (keeps_rules, insert_delivery-Safe, update_deliveries-Safe)

  add_deliveries-Safe :
      (event_type : String) (payload : Json) (endpoints : List WebhookEndpoint)
      → Keeps P (add_deliveries event_type payload endpoints)
  unfolding add_deliveries
  add_deliveries-Safe event_type payload [] = search hook_rules
  add_deliveries-Safe event_type payload (endpoint ∷ endpoints) =
      >>=-Keeps _ _ _ (search hook_rules) λ id. >>=-Keeps _ _ _ (search hook_rules) λ now.
        >>=-Keeps _ _ _ (search hook_rules) λ _. add_deliveries-Safe event_type payload endpoints

  pub dispatch-Safe : (wire : Wire) (task : Task) → Keeps P (dispatch wire task)
  unfolding dispatch
  dispatch-Safe wire task = search (hook_rules, add_deliveries-Safe) depth 9

  record_delivery-Safe : (id : Uuid) (b : Bool) → Keeps P (record_delivery id b)
  unfolding record_delivery
  record_delivery-Safe id true = search hook_rules depth 9
  record_delivery-Safe id false = search hook_rules depth 9

  module _ (wire : Wire) (hooks : Hooks) (quiet : HooksKeep hooks P) where
    post_hook-Safe : (req : HookRequest) → Keeps P (post_hook hooks req)
    unfolding post_hook
    post_hook-Safe req = record { at = λ w h. quiet.at req w h }

    deliver-Safe :
        (id : Uuid) (url secret : String) (payload : Json)
        → Keeps P (deliver wire hooks id url secret payload)
    unfolding deliver
    deliver-Safe id url secret payload =
        search (hook_rules, post_hook-Safe, record_delivery-Safe) depth 9

    deliver_each-Safe :
        (rows : List (DeliveryRow × WebhookEndpoint)) → Keeps P (deliver_each wire hooks rows)
    unfolding deliver_each
    deliver_each-Safe [] = search hook_rules
    deliver_each-Safe ((r, e) ∷ rows) =
        >>=-Keeps _ _ _ (logged-Safe P s _ (deliver-Safe r.id e.url e.secret r.payload))
          λ _. deliver_each-Safe rows

    pub process_pending_deliveries-Safe : Keeps P (process_pending_deliveries wire hooks)
    unfolding process_pending_deliveries
    process_pending_deliveries-Safe = search (hook_rules, deliver_each-Safe) depth 9
