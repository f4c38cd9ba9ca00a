-- ===== src/Store/Transactions.antt =====
-- Inversion of a transaction that succeeded, and of an action that only reads.
use payman.Prelude.{◌≡◌, sym, ap, ◌∙◌}
use payman.Errors.{ok}
use payman.Store.Session.{World, Action, control, transaction}
use payman.Store.Rules.{IsReading}
use payman.Store.Success.{>>=-eq-ok, query-eq-ok, pure-eq-ok, atomically-eq-ok}

control-same :
    (w : World) {u : Unit {0}} {w' : World}
    → control w ≡ (ok u, w')
    → (w'.now ≡ w.now) × (w'.db ≡ w.db)
control-same w h = let (_, later) = query-eq-ok _ w h in (later.same_now, later.same_db)

-- A transaction that succeeded: its body did, from the same tables at the same time.
pub transaction-eq-ok {ℓ} :
    {A : Type ℓ} (m : Action A) (w : World) {r : A} {w' : World}
    → transaction m w ≡ (ok r, w')
    → (w₁ : World) × (w₂ : World) × (m w₁ ≡ (ok r, w₂))
      × (w₁.now ≡ w.now)
      × (w₁.db ≡ w.db)
      × (w'.db ≡ w₂.db)
transaction-eq-ok m w h =
    let (_, w₁, e₁, h₁) = >>=-eq-ok _ _ w h in
    let (r', w₂, e₂, h₂) = >>=-eq-ok _ _ w₁ (atomically-eq-ok _ w₁ h₁) in
    let (_, w₃, e₃, h₃) = >>=-eq-ok _ _ w₂ h₂ in
    let (e, same) = pure-eq-ok r' w₃ h₃ in
    let (now, db) = control-same w e₁ in
    let (_, db') = control-same w₂ e₃ in
    (w₁, w₂, e₂ ∙ ap (λ x. (ok x, w₂)) (sym e), now, db, ap (λ (x : World). x.db) same ∙ db')

pub reading-same {ℓ} :
    {A : Type ℓ} (m : Action A) (w : World) {a : A} {w' : World}
    → IsReading m
    → m w ≡ (ok a, w')
    → w'.db ≡ w.db
reading-same m w k h = rw h at (k.at w)
