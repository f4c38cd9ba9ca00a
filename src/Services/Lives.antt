-- ===== src/Services/Lives.antt =====
-- The services on invoices follow the abstract life of an invoice (Invoices/Lifecycle).
use payman.Services.Invoices.Lifecycle.{Actor, Lives, view-append, view, Moves, view-update, Life}
use payman.Services.Invoices.Outcomes.{
  void_invoice-eq-ok, finalize_invoice-eq-ok, FromDraft, at_version, moved,
}
use payman.Services.Invoices.Atomic.{void_invoice-IsAtomic, finalize_invoice-IsAtomic}
use payman.Prelude.Int.{ℤ}
use payman.Services.Invoices.Transitions.{finalize_invoice, void_invoice}
use payman.Services.Versions.{Distinct, has_id, clash}
use payman.Services.Invoices.Stable.{IsKept}
use payman.Errors.{Result, ok, err}
use payman.Models.{
  Uuid, Invoice, InvoiceState, VoidInvoiceRequest, FinalizeInvoiceRequest, DateTime, draft,
}
use payman.Store.{Db, Action, World, IsAtomic, ErrKeeps}
use payman.Prelude.{
  All, select, exists, head?, Bool-cases, inl, inr, ap, sym, subst, ◌∙◌, arith, ◌≡◌, refl, Bool,
  true, false, some, List, [], ◌∷◌, ◌==◌, some_inj, ==_iff, All-imp, All-not_exists, head-exists,
  ◌++◌,
}

All_every {ℓ κ} : {A : Type ℓ} (P : A → Type κ) (xs : List A) → ((x : A) → P x) → All P xs
All_every P [] h = tt
All_every P (x ∷ xs) h = (h x, All_every P xs h)

pub Lives-IsKept : (a : Actor) (before : List Invoice) → IsKept a (Lives a before)
Lives-IsKept a before = record {
  inserts = λ row rows by e fresh lives id.
      subst (λ x. Life x (view id before) (view id (rows ++ row ∷ []))) (sym by)
        (view-append (view id before) id row rows e fresh
          (subst (λ x. Life x (view id before) (view id rows)) by (lives id)));
  updates = λ p f rows advances moves lives id.
      view-update a (view id before) id p f rows (λ r. (advances r).0) (All_every _ rows moves)
        (lives id);
}

differ : (a b id : Uuid) → (a == id) ≡ true → (b == id) ≡ true → (a == b) ≡ false → ⊥
differ a b id h k l = ground arith

clash_at :
    (a id : Uuid) (rows : List Invoice)
    → (a == id) ≡ true
    → exists (has_id a) rows ≡ false
    → exists (has_id id) rows ≡ true
    → ⊥
clash_at a id rows h fresh stored = clash id a rows ((==_iff a id).0 h) fresh stored

-- No two rows have one identifier: where the first row that is found is a draft, each is.
drafts :
    (id : Uuid) (p : Invoice → Bool) (rows : List Invoice) {found : Invoice}
    → ((r : Invoice) → p r ≡ true → (r.id == id) ≡ true)
    → Distinct rows
    → head? (select p rows) ≡ some found
    → found.state ≡ draft
    → All (λ r. (r.id == id) ≡ true → r.state ≡ draft) rows
drafts id p [] h distinct first is_draft = tt
drafts id p (r ∷ rows) h distinct first is_draft = elim (Bool-cases (p r)) [
  | inl e ↦
      let same : r ≡ _ = some_inj.0 (rw e at first) in
      (
        λ _. ap (λ (x : Invoice). x.state) same ∙ is_draft,
        All-imp _ _ rows (λ x other at_id. absurd (differ x.id r.id id at_id (h r e) other))
            (All-not_exists (has_id r.id) rows distinct.0),
      )
  | inr e ↦
      let later : head? (select p rows) ≡ some _ = rw e at first in
      (
        λ at_id.
            absurd
              (clash_at r.id id rows at_id distinct.0 (head-exists p (has_id id) rows h later)),
        drafts id p rows h distinct.1 later is_draft,
      )
]

-- Either way that an atomic request ends.
result_cases :
    {A : Type 0} (P : Db → Type 0) (d : Db) (r : Result A × World)
    → ErrKeeps d r
    → ((a : A) (w' : World) → r ≡ (ok a, w') → P w'.db)
    → P d
    → P r.1.db
result_cases P d (ok a, w) k h p = h a w refl
result_cases P d (err e, w) k h p = subst P (sym k) p

atomic_cases :
    {A : Type 0} (P : Db → Type 0) (m : Action A) (w : World)
    → IsAtomic m
    → ((a : A) (w' : World) → m w ≡ (ok a, w') → P w'.db)
    → P w.db
    → P (m w).1.db
atomic_cases P m w k h p = result_cases P w.db (m w) (k.at w) h p

module _ (before : List Invoice) where
  -- The update of a service that found a draft.
  FromDraft-Lives :
      (a : Actor) (p : Invoice → Bool) (target : InvoiceState) (now : DateTime)
      (id business_id : Uuid) (v : ℤ) (r : Invoice) (d d' : Db)
      → ((x : Invoice) → p x ≡ true → (x.id == id) ≡ true)
      → Moves a draft target
      → FromDraft p target now id business_id v r d d'
      → Distinct d.invoices
      → Lives a before d.invoices
      → Lives a before d'.invoices
  FromDraft-Lives a p target now id business_id v r d d' at_id moves from distinct lives other =
      let all_drafts = drafts id p d.invoices at_id distinct from.first from.was_draft in
      let written = ap (λ (x : Db). view other x.invoices) from.moved.written in
      subst (Life a (view other before)) (sym written) (
        view-update a (view other before) other (at_version id business_id v) (moved target now)
          d.invoices (λ x. refl)
          (All-imp _ _ d.invoices
            (λ x is_draft e.
              subst (λ s. Moves a s target) (sym (is_draft (ground (arith, e)))) moves)
            all_drafts)
          (lives other))

  pub finalize_invoice-Lives :
      (id business_id : Uuid) (req : FinalizeInvoiceRequest) (w : World)
      → Distinct w.db.invoices
      → Lives Actor.finalizer before w.db.invoices
      → Lives Actor.finalizer before (finalize_invoice id business_id req w).1.db.invoices
  finalize_invoice-Lives id business_id req w distinct lives =
      atomic_cases (λ d. Lives Actor.finalizer before d.invoices) _ w
        (finalize_invoice-IsAtomic id business_id req)
        (λ r w' run.
          FromDraft-Lives _ _ _ _ _ _ _ r _ _ (λ x e. ground (arith, e)) Moves.finalize
            (finalize_invoice-eq-ok id business_id req w run) distinct lives)
        lives

  pub void_invoice-Lives :
      (id business_id : Uuid) (req : VoidInvoiceRequest) (w : World)
      → Distinct w.db.invoices
      → Lives Actor.voider before w.db.invoices
      → Lives Actor.voider before (void_invoice id business_id req w).1.db.invoices
  void_invoice-Lives id business_id req w distinct lives =
      atomic_cases (λ d. Lives Actor.voider before d.invoices) _ w
        (void_invoice-IsAtomic id business_id req)
        (λ r w' run.
          FromDraft-Lives _ _ _ _ _ _ _ r _ _ (λ x e. ground (arith, e)) Moves.void
            (void_invoice-eq-ok id business_id req w run) distinct lives)
        lives
