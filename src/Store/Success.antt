-- ===== src/Store/Success.antt =====
-- Inversion of runs that succeeded: each part succeeded, and where the tables changed.
use payman.Prelude.{
  ◌≡◌, refl, Bool, true, false, Option, none, some, ap, sym, if◌then◌else◌, arith, List, String,
  All, ◌∷◌, [],
}
use payman.Models.{DateTime}
use payman.Errors.{AppError, Result, ok, err, io, database}
use payman.Store.Session.{
  Db, World, Action, ◌>>=◌, follow, pure, raise, raise_if, or_raise, exec, query, utc_now,
  or_rollback, with_db, atomically, insert, returning, check_constraints,
}

-- The session moved on: the same clock and the same source of identifiers and faults.
pub record Later (w w' : World) : Type 0 where
  pub same_now : w'.now ≡ w.now
  pub same_db : w'.db ≡ w.db

module _ {ℓ κ} {A : Type ℓ} {B : Type κ} where
  follow-eq-ok :
      (f : A → Action B) (r : Result A × World) {b : B} {w' : World}
      → follow f r ≡ (ok b, w')
      → (a : A) × (w₁ : World) × (r ≡ (ok a, w₁)) × (f a w₁ ≡ (ok b, w'))
  follow-eq-ok f (ok a, w) h = (a, w, refl, h)
  follow-eq-ok f (err e, w) h = cc

  -- A sequence that succeeded: its first part did, and then the rest from where that ended.
  pub >>=-eq-ok :
      (m : Action A) (f : A → Action B) (w : World) {b : B} {w' : World}
      → (m >>= f) w ≡ (ok b, w')
      → (a : A) × (w₁ : World) × (m w ≡ (ok a, w₁)) × (f a w₁ ≡ (ok b, w'))
  unfolding ◌>>=◌
  >>=-eq-ok m f w h = follow-eq-ok f (m w) h

module _ {ℓ} {A : Type ℓ} where
  or_rollback-eq-ok :
      (d : Db) (r : Result A × World) {a : A} {w' : World}
      → or_rollback d r ≡ (ok a, w')
      → r ≡ (ok a, w')
  or_rollback-eq-ok d (ok a, w) h = h
  or_rollback-eq-ok d (err e, w) h = cc

  pub atomically-eq-ok :
      (m : Action A) (w : World) {a : A} {w' : World}
      → atomically m w ≡ (ok a, w')
      → m w ≡ (ok a, w')
  unfolding ◌>>=◌
  atomically-eq-ok m w h = or_rollback-eq-ok w.db (m w) h

  step-eq-ok :
      (fault : Bool) (r : Result A × Db) (w : World) {a : A} {w' : World}
      → (if fault then (err (database io), w) else with_db w r) ≡ (ok a, w')
      → (r ≡ (ok a, w'.db)) × (w'.now ≡ w.now)
  step-eq-ok true r w h = cc
  step-eq-ok false r w h = (ap (λ x. (x.0, x.1.db)) h, sym (ap (λ x. x.1.now) h))

  -- A statement that succeeded changed the tables alone.
  pub exec-eq-ok :
      (f : Db → Result A × Db) (w : World) {a : A} {w' : World}
      → exec f w ≡ (ok a, w')
      → (f w.db ≡ (ok a, w'.db)) × (w'.now ≡ w.now)
  unfolding ◌>>=◌
  exec-eq-ok f w h = step-eq-ok (w.faults w.statements) (f w.db) _ h

  pub query-eq-ok :
      (f : Db → A) (w : World) {a : A} {w' : World}
      → query f w ≡ (ok a, w')
      → (a ≡ f w.db) × Later w w'
  unfolding ◌>>=◌
  query-eq-ok f w h =
      let (e, n) = step-eq-ok (w.faults w.statements) (ok (f w.db), w.db) _ h in
      (ground arith, record { same_now = n; same_db = ap (λ x. x.1) (sym e) })

  pub pure-eq-ok :
      (b : A) (w : World) {a : A} {w' : World} → pure b w ≡ (ok a, w') → (a ≡ b) × (w' ≡ w)
  unfolding ◌>>=◌
  pure-eq-ok b w h = ground arith

  pub or_raise-eq-ok :
      (o : Option A) (e : AppError) (w : World) {a : A} {w' : World}
      → or_raise o e w ≡ (ok a, w')
      → (o ≡ some a) × (w' ≡ w)
  unfolding ◌>>=◌
  or_raise-eq-ok none e w h = cc
  or_raise-eq-ok (some b) e w h = ground arith

  pub raise-ne-ok : (e : AppError) (w : World) {a : A} {w' : World} → raise e w ≡ (ok a, w') → ⊥
  unfolding ◌>>=◌
  raise-ne-ok e w h = cc

pub utc_now-eq-ok :
    (w : World) {t : DateTime} {w' : World} → utc_now w ≡ (ok t, w') → (t ≡ w.now) × (w' ≡ w)
unfolding ◌>>=◌
utc_now-eq-ok w h = ground arith

pub raise_if-eq-ok :
    (b : Bool) (e : AppError) (w : World) {a : Unit {0}} {w' : World}
    → raise_if b e w ≡ (ok a, w')
    → (b ≡ false) × (w' ≡ w)
unfolding ◌>>=◌
raise_if-eq-ok true e w h = cc
raise_if-eq-ok false e w h = ground arith

constraints-eq-ok :
    (cs : List (Bool × String)) (old new : Db) {u : Unit {0}} {d : Db}
    → check_constraints cs old new ≡ (ok u, d)
    → All (λ c. c.0 ≡ true) cs × (d ≡ new)
constraints-eq-ok [] old new h = (tt, ground arith)
constraints-eq-ok ((true, name) ∷ cs) old new h =
    let (holds, same) = constraints-eq-ok cs old new h in ((refl, holds), same)
constraints-eq-ok ((false, name) ∷ cs) old new h = cc

returning-eq-ok {ℓ} :
    {A : Type ℓ} (row : A) (d : Db) (r : Result (Unit {0}) × Db) {rows : List A} {d' : Db}
    → returning row d r ≡ (ok rows, d')
    → (r ≡ (ok tt, d')) × (rows ≡ row ∷ [])
returning-eq-ok row d (ok tt, d₁) h = ground arith
returning-eq-ok row d (err e, d₁) h = cc

-- An insert that succeeded: the row met every constraint, and it alone was added.
pub insert-eq-ok {ℓ} :
    {A : Type ℓ} (row : A) (cs : List (Bool × String)) (add : Db → Db) (d : Db) {rows : List A}
    {d' : Db}
    → insert row cs add d ≡ (ok rows, d')
    → All (λ c. c.0 ≡ true) cs × (rows ≡ row ∷ []) × (d' ≡ add d)
unfolding insert
insert-eq-ok row cs add d h =
    let (checked, rows) = returning-eq-ok row d (check_constraints cs d (add d)) h in
    let (holds, same) = constraints-eq-ok cs d (add d) checked in (holds, rows, same)

-- The tables that a statement left.
pub db_of {ℓ} : {A : Type ℓ} (r : Result A × Db) {a : A} {d : Db} → r ≡ (ok a, d) → r.1 ≡ d
db_of r h = ap (λ x. x.1) h

returning_cases {ℓ κ} :
    {A : Type ℓ} (P : Db → Type κ) (row : A) (d : Db) (r : Result (Unit {0}) × Db)
    → P d
    → ((u : Unit {0}) (d' : Db) → r ≡ (ok u, d') → P d')
    → P (returning row d r).1
returning_cases P row d (ok u, d') h k = k u d' refl
returning_cases P row d (err e, d') h k = h

-- An insert leaves the tables alone, or the row met every constraint and was added.
pub insert_cases {ℓ κ} :
    {A : Type ℓ} (P : Db → Type κ) (row : A) (cs : List (Bool × String)) (add : Db → Db) (d : Db)
    → P d
    → (All (λ c. c.0 ≡ true) cs → P (add d))
    → P (insert row cs add d).1
unfolding insert
insert_cases P row cs add d h k =
    returning_cases P row d (check_constraints cs d (add d)) h
      λ u d' e. let (holds, same) = constraints-eq-ok cs d (add d) e in rw same (k holds)
