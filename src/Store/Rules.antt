-- ===== src/Store/Rules.antt =====
-- Rules for actions, one for each way to build one: an action that only reads, an action that
-- changes nothing when it fails, and an action that keeps a predicate on the tables.
use payman.Prelude.{◌≡◌, refl, ◌∙◌, Bool, true, false, Option, none, some, Bool-cases, inl, inr}
use payman.Errors.{AppError, Result, ok, err}
use payman.Store.Session.{
  Db, World, Action, ◌>>=◌, follow, pure, raise, raise_if, or_raise, utc_now, new_v4, query,
  or_rollback, atomically, transaction, Task, spawn, exec,
}

-- The tables are the same after it, however it ends.
pub record IsReading {ℓ} {A : Type ℓ} (m : Action A) : Type 0 where
  pub at : (w : World) → (m w).1.db ≡ w.db

-- How a run ended: on an error, the tables are `d`.
abbrev pub ErrKeeps {ℓ} : {A : Type ℓ} → Db → Result A × World → Type 0
ErrKeeps d (ok a, w) = Unit
ErrKeeps d (err e, w) = w.db ≡ d

-- An error leaves the tables as they were.
pub record IsAtomic {ℓ} {A : Type ℓ} (m : Action A) : Type 0 where
  pub at : (w : World) → ErrKeeps w.db (m w)

pub record Keeps {ℓ κ} {A : Type ℓ} (P : Db → Type κ) (m : Action A) : Type κ where
  pub at : (w : World) → P w.db → P (m w).1.db

abbrev pub IsOk {ℓ} : {A : Type ℓ} → Result A × World → Type 0
IsOk (ok a, w) = Unit
IsOk (err e, w) = ⊥

-- It never fails.
pub record IsTotal {ℓ} {A : Type ℓ} (m : Action A) : Type 0 where
  pub at : (w : World) → IsOk (m w)

module _ {ℓ κ} {A : Type ℓ} {B : Type κ} (f : A → Action B) where
  follow-IsReading :
      (r : Result A × World) (d : Db)
      → ((a : A) → IsReading (f a))
      → r.1.db ≡ d
      → (follow f r).1.db ≡ d
  follow-IsReading (ok a, w) d k h = (k a).at w ∙ h
  follow-IsReading (err e, w) d k h = h

  follow-IsAtomic :
      (r : Result A × World) (d : Db)
      → ((a : A) → IsAtomic (f a))
      → r.1.db ≡ d
      → ErrKeeps d (follow f r)
  follow-IsAtomic (ok a, w) d k h = rw (← h) ((k a).at w)
  follow-IsAtomic (err e, w) d k h = h

  ErrKeeps-of_ok : (r : Result B × World) (d : Db) → IsOk r → ErrKeeps d r
  ErrKeeps-of_ok (ok b, w) d h = tt
  ErrKeeps-of_ok (err e, w) d h = absurd h

  follow-IsAtomic_last :
      (r : Result A × World) (d : Db)
      → ((a : A) → IsTotal (f a))
      → ErrKeeps d r
      → ErrKeeps d (follow f r)
  follow-IsAtomic_last (ok a, w) d k h = ErrKeeps-of_ok (f a w) d ((k a).at w)
  follow-IsAtomic_last (err e, w) d k h = h

  follow-Keeps {μ} :
      (P : Db → Type μ) (r : Result A × World)
      → ((a : A) → Keeps P (f a))
      → P r.1.db
      → P (follow f r).1.db
  follow-Keeps P (ok a, w) k h = (k a).at w h
  follow-Keeps P (err e, w) k h = h

module _ {ℓ κ} {A : Type ℓ} {B : Type κ} where
  pub >>=-IsReading :
      (m : Action A) (f : A → Action B)
      → IsReading m
      → ((a : A) → IsReading (f a))
      → IsReading (m >>= f)
  unfolding ◌>>=◌
  >>=-IsReading m f h k = record { at = λ w. follow-IsReading f (m w) w.db k (h.at w) }

  pub >>=-IsAtomic :
      (m : Action A) (f : A → Action B)
      → IsReading m
      → ((a : A) → IsAtomic (f a))
      → IsAtomic (m >>= f)
  unfolding ◌>>=◌
  >>=-IsAtomic m f h k = record { at = λ w. follow-IsAtomic f (m w) w.db k (h.at w) }

  -- After an atomic action, what never fails may write as well.
  pub >>=-IsAtomic_last :
      (m : Action A) (f : A → Action B)
      → IsAtomic m
      → ((a : A) → IsTotal (f a))
      → IsAtomic (m >>= f)
  unfolding ◌>>=◌
  >>=-IsAtomic_last m f h k = record { at = λ w. follow-IsAtomic_last f (m w) w.db k (h.at w) }

  pub >>=-Keeps {μ} :
      (P : Db → Type μ) (m : Action A) (f : A → Action B)
      → Keeps P m
      → ((a : A) → Keeps P (f a))
      → Keeps P (m >>= f)
  unfolding ◌>>=◌
  >>=-Keeps P m f h k = record { at = λ w p. follow-Keeps f P (m w) k (h.at w p) }

module _ {ℓ} {A : Type ℓ} where
  ErrKeeps-of_eq : (r : Result A × World) (d : Db) → r.1.db ≡ d → ErrKeeps d r
  ErrKeeps-of_eq (ok a, w) d h = tt
  ErrKeeps-of_eq (err e, w) d h = h

  pub IsReading-IsAtomic : (m : Action A) → IsReading m → IsAtomic m
  IsReading-IsAtomic m h = record { at = λ w. ErrKeeps-of_eq (m w) w.db (h.at w) }

  pub IsReading-Keeps {κ} : (P : Db → Type κ) (m : Action A) → IsReading m → Keeps P m
  IsReading-Keeps P m h = record { at = λ w p. rw (h.at w) p }

  pub pure-IsReading : (a : A) → IsReading (pure a)
  unfolding ◌>>=◌
  pure-IsReading a = record { at = λ w. refl }

  pub raise-IsReading : (e : AppError) → IsReading {A = A} (raise e)
  unfolding ◌>>=◌
  raise-IsReading e = record { at = λ w. refl }

  pub or_raise-IsReading : (o : Option A) (e : AppError) → IsReading (or_raise o e)
  unfolding ◌>>=◌
  or_raise-IsReading none e = record { at = λ w. refl }
  or_raise-IsReading (some a) e = record { at = λ w. refl }

  pub query-IsReading : (f : Db → A) → IsReading (query f)
  unfolding ◌>>=◌
  query-IsReading f = record {
    at = λ w. elim (Bool-cases (w.faults w.statements)) [ inl e ↦ rw e | inr e ↦ rw e ];
  }

  or_rollback-ErrKeeps : (d : Db) (r : Result A × World) → ErrKeeps d (or_rollback d r)
  or_rollback-ErrKeeps d (ok a, w) = tt
  or_rollback-ErrKeeps d (err e, w) = refl

  pub atomically-IsAtomic : (m : Action A) → IsAtomic (atomically m)
  unfolding ◌>>=◌
  atomically-IsAtomic m = record { at = λ w. or_rollback-ErrKeeps w.db (m w) }

  or_rollback-Keeps {κ} :
      (P : Db → Type κ) (d : Db) (r : Result A × World) → P d → P r.1.db → P (or_rollback d r).1.db
  or_rollback-Keeps P d (ok a, w) h k = k
  or_rollback-Keeps P d (err e, w) h k = h

  pub atomically-Keeps {κ} : (P : Db → Type κ) (m : Action A) → Keeps P m → Keeps P (atomically m)
  unfolding ◌>>=◌
  atomically-Keeps P m h = record { at = λ w p. or_rollback-Keeps P w.db (m w) p (h.at w p) }

pub exec-Keeps {ℓ κ} :
    {A : Type ℓ} (P : Db → Type κ) (f : Db → Result A × Db)
    → ((d : Db) → P d → P (f d).1)
    → Keeps P (exec f)
unfolding ◌>>=◌
exec-Keeps P f k = record {
  at =
      λ w p. elim (Bool-cases (w.faults w.statements)) [ inl e ↦ rw e p | inr e ↦ rw e (k w.db p) ];
}

pub raise_if-IsReading : (b : Bool) (e : AppError) → IsReading (raise_if b e)
unfolding ◌>>=◌
raise_if-IsReading true e = record { at = λ w. refl }
raise_if-IsReading false e = record { at = λ w. refl }

pub utc_now-IsReading : IsReading utc_now
unfolding ◌>>=◌
utc_now-IsReading = record { at = λ w. refl }

pub new_v4-IsReading : IsReading new_v4
unfolding ◌>>=◌
new_v4-IsReading = record { at = λ w. refl }

pub spawn-IsReading : (t : Task) → IsReading (spawn t)
unfolding ◌>>=◌
spawn-IsReading t = record { at = λ w. refl }

module _ {ℓ κ} {A : Type ℓ} {B : Type κ} where
  follow-IsTotal :
      (f : A → Action B) (r : Result A × World)
      → ((a : A) → IsTotal (f a))
      → IsOk r
      → IsOk (follow f r)
  follow-IsTotal f (ok a, w) k h = (k a).at w
  follow-IsTotal f (err e, w) k h = absurd h

  pub >>=-IsTotal :
      (m : Action A) (f : A → Action B) → IsTotal m → ((a : A) → IsTotal (f a)) → IsTotal (m >>= f)
  unfolding ◌>>=◌
  >>=-IsTotal m f h k = record { at = λ w. follow-IsTotal f (m w) k (h.at w) }

pub pure-IsTotal {ℓ} : {A : Type ℓ} (a : A) → IsTotal (pure a)
unfolding ◌>>=◌
pure-IsTotal a = record { at = λ w. tt }

pub spawn-IsTotal : (t : Task) → IsTotal (spawn t)
unfolding ◌>>=◌
spawn-IsTotal t = record { at = λ w. tt }

pub ruleset total_rules = (>>=-IsTotal, pure-IsTotal, spawn-IsTotal)

pub ruleset reading_rules = (
  >>=-IsReading, pure-IsReading, raise-IsReading, or_raise-IsReading, query-IsReading,
  raise_if-IsReading, utc_now-IsReading, new_v4-IsReading, spawn-IsReading,
)

pub ruleset keeps_rules = (>>=-Keeps, IsReading-Keeps, reading_rules)

pub ruleset atomic_rules = (>>=-IsAtomic, IsReading-IsAtomic, reading_rules)

pub transaction-IsAtomic {ℓ} : {A : Type ℓ} (m : Action A) → IsAtomic (transaction m)
transaction-IsAtomic m = search (>>=-IsAtomic, atomically-IsAtomic, reading_rules)

pub transaction-Keeps {ℓ κ} :
    {A : Type ℓ} (P : Db → Type κ) (m : Action A) → Keeps P m → Keeps P (transaction m)
transaction-Keeps P m h =
    search (>>=-Keeps, atomically-Keeps, IsReading-Keeps, reading_rules) depth 9
