-- ===== src/Store/Ensuring.antt =====
-- What a run that succeeds ensures, one rule for each way to build an action.
use payman.Prelude.{◌≡◌, subst, refl, Bool, false, Option, some, List, head?}
use payman.Errors.{AppError, Result, ok, err, database, row_not_found}
use payman.Store.Session.{
  Db, World, Action, ◌>>=◌, pure, raise_if, or_raise, or_rollback, exec, control, atomically,
  transaction, fetch_one,
}
use payman.Store.Rules.{IsReading, Keeps, >>=-Keeps, IsReading-Keeps, query-IsReading}
use payman.Store.Success.{
  >>=-eq-ok, exec-eq-ok, pure-eq-ok, or_raise-eq-ok, raise_if-eq-ok, atomically-eq-ok,
}

-- From tables with `P`, a run of `m` that returns `a` ends in tables with `Q a`.
pub record Ensures {ℓ κ μ} {A : Type ℓ} (P : Db → Type κ) (m : Action A) (Q : A → Db → Type μ)
    : Type (ℓ ⊔ κ ⊔ μ) where
  pub at : (w : World) (a : A) (w' : World) → P w.db → m w ≡ (ok a, w') → Q a w'.db

module _ {ℓ κ μ} {A : Type ℓ} (P : Db → Type κ) (Q : A → Db → Type μ) where
  pub Ensures-pure : (a : A) → ((d : Db) → P d → Q a d) → Ensures P (pure a) Q
  Ensures-pure a k = record {
    at = λ w b w' p e. let (x, y) = pure-eq-ok a w e in rw (x, y) (k w.db p);
  }

  pub Ensures-exec :
      (f : Db → Result A × Db)
      → ((d : Db) (a : A) (d' : Db) → P d → f d ≡ (ok a, d') → Q a d')
      → Ensures P (exec f) Q
  Ensures-exec f k = record { at = λ w a w' p e. k w.db a w'.db p (exec-eq-ok f w e).0 }

  pub Ensures-reading :
      (m : Action A) → IsReading m → ((a : A) (d : Db) → P d → Q a d) → Ensures P m Q
  Ensures-reading m h k = record {
    at = λ w a w' p e. let same : w'.db ≡ w.db = rw e at (h.at w) in rw same (k a w.db p);
  }

module _ {ℓ κ μ ν ρ} {A : Type ℓ} {B : Type κ} (P : Db → Type μ) (R : B → Db → Type ρ) where
  pub Ensures-bind :
      (Q : A → Db → Type ν) (m : Action A) (f : A → Action B)
      → Ensures P m Q
      → ((a : A) → Ensures (Q a) (f a) R)
      → Ensures P (m >>= f) R
  Ensures-bind Q m f h k = record {
    at = λ w b w' p e.
        let (a, w₁, first, rest) = >>=-eq-ok m f w e in (k a).at w₁ b w' (h.at w a w₁ p first) rest;
  }

module _ {ℓ κ μ ρ} {A : Type ℓ} {B : Type κ} (P : Db → Type μ) (R : B → Db → Type ρ) where
  -- What only reads is passed over.
  pub Ensures-skip :
      (m : Action A) (f : A → Action B)
      → IsReading m
      → ((a : A) → Ensures P (f a) R)
      → Ensures P (m >>= f) R
  Ensures-skip m f h k = record {
    at = λ w b w' p e.
        let (a, w₁, first, rest) = >>=-eq-ok m f w e in
        let same : w₁.db ≡ w.db = rw first at (h.at w) in (k a).at w₁ b w' (rw same p) rest;
  }

  pub Ensures-or_raise :
      (o : Option A) (e : AppError) (f : A → Action B)
      → ((a : A) → o ≡ some a → Ensures P (f a) R)
      → Ensures P (or_raise o e >>= f) R
  Ensures-or_raise o e f k = record {
    at = λ w c w' p h.
        let (a, w₁, first, rest) = >>=-eq-ok (or_raise o e) f w h in
        let (found, same) = or_raise-eq-ok o e w first in (k a found).at w₁ c w' (rw same p) rest;
  }

module _ {κ μ ρ} {B : Type κ} (P : Db → Type μ) (R : B → Db → Type ρ) where
  -- After a test, the rest may use that it passed.
  pub Ensures-raise_if :
      (b : Bool) (e : AppError) (f : Unit {0} → Action B)
      → (b ≡ false → (u : Unit {0}) → Ensures P (f u) R)
      → Ensures P (raise_if b e >>= f) R
  Ensures-raise_if b e f k = record {
    at = λ w c w' p h.
        let (u, w₁, first, rest) = >>=-eq-ok (raise_if b e) f w h in
        let (passed, same) = raise_if-eq-ok b e w first in (k passed u).at w₁ c w' (rw same p) rest;
  }

module _ {ℓ κ μ} {A : Type ℓ} (P : Db → Type κ) (Q : A → Db → Type μ) where
  pub Ensures-fetch_one :
      (m : Action (List A))
      → Ensures P m (λ rows d. (a : A) → head? rows ≡ some a → Q a d)
      → Ensures P (fetch_one m) Q
  Ensures-fetch_one m h =
      Ensures-bind P Q _ m (λ rows. or_raise (head? rows) (database row_not_found)) h
        λ rows. record {
          at = λ w a w' p e.
              let (found, same) = or_raise-eq-ok (head? rows) (database row_not_found) w e in
              rw same (p a found);
        }

module _ {ℓ κ} {A : Type ℓ} (P : Db → Type κ) where
  or_rollback_ok :
      (d : Db) (r : Result A × World)
      → P d
      → ((a : A) (w : World) → r ≡ (ok a, w) → P w.db)
      → P (or_rollback d r).1.db
  or_rollback_ok d (ok a, w) p k = k a w refl
  or_rollback_ok d (err e, w) p k = p

  atomically-Keeps_ok : (m : Action A) → Ensures P m (λ _. P) → Keeps P (atomically m)
  unfolding ◌>>=◌
  atomically-Keeps_ok m h = record {
    at = λ w p. or_rollback_ok w.db (m w) p (λ a w' e. h.at w a w' p e);
  }

  -- A transaction keeps what its body keeps where it succeeds.
  pub transaction-Keeps_ok : (m : Action A) → Ensures P m (λ _. P) → Keeps P (transaction m)
  transaction-Keeps_ok m h =
      >>=-Keeps P control _ (IsReading-Keeps P control (query-IsReading _)) (λ _.
        atomically-Keeps_ok _ (
          Ensures-bind P (λ _. P) (λ _. P) m _ h
            (λ a.
              Ensures-skip P (λ _. P) control _ (query-IsReading _)
                (λ _. Ensures-pure P (λ _. P) a (λ d p. p)))))

  pub Keeps-Ensures : (m : Action A) → Keeps P m → Ensures P m (λ _. P)
  Keeps-Ensures m h = record {
    at = λ w a w' p e. subst (λ (x : Result A × World). P x.1.db) e (h.at w p);
  }

module _ {ℓ κ μ} {A : Type ℓ} (P : Db → Type κ) (Q : A → Db → Type μ) where
  pub Ensures-or_raise_last :
      (o : Option A) (e : AppError)
      → ((a : A) (d : Db) → o ≡ some a → P d → Q a d)
      → Ensures P (or_raise o e) Q
  Ensures-or_raise_last o e k = record {
    at = λ w a w' p h. let (found, same) = or_raise-eq-ok o e w h in rw same (k a w.db found p);
  }

  -- A transaction ends where its body ends.
  pub Ensures-transaction : (m : Action A) → Ensures P m Q → Ensures P (transaction m) Q
  Ensures-transaction m h = Ensures-skip P Q control _ (query-IsReading _) λ _. record {
    at = λ w a w' p e.
        (Ensures-bind P Q Q m _ h (λ b.
            Ensures-skip (Q b) Q control _ (query-IsReading _)
              (λ _. Ensures-pure (Q b) Q b (λ d q. q)))).at
          w a w' p (atomically-eq-ok _ w e);
  }

  pub Ensures-pre {ν} :
      (P' : Db → Type ν) (m : Action A) → ((d : Db) → P d → P' d) → Ensures P' m Q → Ensures P m Q
  Ensures-pre P' m k h = record { at = λ w a w' p e. h.at w a w' (k w.db p) e }

pub Ensures-raise_if_last {κ μ} :
    (P : Db → Type κ) (Q : Unit {0} → Db → Type μ) (b : Bool) (e : AppError)
    → ((u : Unit {0}) (d : Db) → b ≡ false → P d → Q u d)
    → Ensures P (raise_if b e) Q
Ensures-raise_if_last P Q b e k = record {
  at = λ w u w' p h. let (passed, same) = raise_if-eq-ok b e w h in rw same (k u w.db passed p);
}
