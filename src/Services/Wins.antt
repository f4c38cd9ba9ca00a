-- ===== src/Services/Wins.antt =====
-- Which operations use up the version of an invoice: to edit, finalize or void it, and to begin a
-- payment of it. Each succeeds only where the version is current, and leaves it past.
use payman.Libraries.{Libraries}
use payman.Prelude.{
  ◌≡◌, refl, ap, ◌∙◌, Bool, ◌&&◌, ◌⊎◌, inl, inr, List, [], ◌∷◌, ◌==◌, map, select, length, head?,
  none, arith, update, String,
}
use payman.Prelude.Int.{ℤ, eqb_ℤ, eqb_ℤ→eq}
use payman.Models.{
  Uuid, draft, opened, InvoiceState, eq_state, Invoice, EditInvoiceRequest, FinalizeInvoiceRequest,
  VoidInvoiceRequest, PayInvoiceRequest,
}
use payman.Store.{
  transaction, Db, exec, Ensures, Ensures-exec, Ensures-bind, Ensures-skip, Ensures-raise_if,
  Ensures-pure, Ensures-pre, Ensures-reading, Ensures-transaction, Ensures-or_raise_last,
  Keeps-Ensures, transaction-Keeps, raise_if-IsReading, or_raise-IsReading, reading_rules, utc_now,
  utc_now-IsReading, Ensures-raise_if_last,
}
use payman.Services.Invoices.Statements.{bump_invoices, bump}
use payman.Services.Invoices.Updates.{bump-eq-ok}
use payman.Services.Invoices.Stable.{OnInvoices, IsStable-IsKept, OnInvoices-Allows}
use payman.Services.Invoices.Keeps.{validate_line_items-IsReading}
use payman.Services.Invoices.Advance.{edit_locked-Kept}
use payman.Services.Invoices.Transitions.{
  set_state, finalize_draft, finalize_invoice, void_at_version, void_invoice,
}
use payman.Services.Invoices.Edit.{lock_draft, edit_invoice}
use payman.Services.Payments.Begin.{claim_invoice, begin_payment}
use payman.Services.Payments.Safe.{OnInvoices-IsSafe, write_attempt-Safe}
use payman.Services.Versions.{Distinct, IsPast, IsPast-IsStable, IsAt, select-past, update-IsPast}

module _ (id : Uuid) (v : ℤ) (p : Invoice → Bool) (f : Invoice → Invoice) where
  rows_or_IsPast :
      (rows selected : List Invoice) (d : Db)
      → select p d.invoices ≡ selected
      → rows ≡ map (bump f) selected
      → IsAt id v p
      → ((r : Invoice) → (f r).id ≡ r.id)
      → Distinct d.invoices
      → (rows ≡ []) ⊎ IsPast id v (update p (bump f) d.invoices)
  rows_or_IsPast rows [] d e h at s k = inl h
  rows_or_IsPast rows (r ∷ more) d e h at s k = inr (update-IsPast id v p f d.invoices at s k e)

  -- It finds no row, or leaves the version past.
  pub bump-Wins :
      IsAt id v p
      → ((r : Invoice) → (f r).id ≡ r.id)
      → Ensures
          (OnInvoices Distinct)
          (exec (bump_invoices p f))
          (λ rows d. (rows ≡ []) ⊎ IsPast id v d.invoices)
  bump-Wins at s = Ensures-exec _ _ _ λ d rows d' k e.
      let (found, same) = bump-eq-ok p f d e in
      rw same (rows_or_IsPast rows (select p d.invoices) d refl found at s k)

  -- Past the version it finds no row.
  pub bump-IsPast :
      IsAt id v p
      → Ensures (OnInvoices (IsPast id v)) (exec (bump_invoices p f)) (λ rows d. rows ≡ [])
  bump-IsPast at = Ensures-exec _ _ _ λ d rows d' k e.
      (bump-eq-ok p f d e).0 ∙ ap (map (bump f)) (select-past id v p d.invoices at k)

-- The conditions of the four updates name the invoice and the version.
draft-IsAt :
    (id : Uuid) (v : ℤ)
    → IsAt id v (λ r. r.id == id && eqb_ℤ r.versioning v && eq_state r.state draft)
draft-IsAt id v r h = (ground arith, eqb_ℤ→eq r.versioning v (ground arith))

open-IsAt :
    (id : Uuid) (v : ℤ)
    → IsAt id v (λ r. r.id == id && eq_state r.state opened && eqb_ℤ r.versioning v)
open-IsAt id v r h = (ground arith, eqb_ℤ→eq r.versioning v (ground arith))

mine-IsAt :
    (id business_id : Uuid) (v : ℤ)
    → IsAt id v (λ r. r.id == id && r.business_id == business_id && eqb_ℤ r.versioning v)
mine-IsAt id business_id v r h = (ground arith, eqb_ℤ→eq r.versioning v (ground arith))

module _ (target : InvoiceState) (id business_id : Uuid) (v : ℤ) where
  set_state-Wins :
      Ensures
        (OnInvoices Distinct)
        (set_state target id business_id v)
        (λ _. OnInvoices (IsPast id v))
  unfolding set_state
  set_state-Wins = Ensures-skip _ _ utc_now _ utc_now-IsReading λ now.
      Ensures-bind _ _ (λ o d. (o ≡ none) ⊎ IsPast id v d.invoices) _ _
        (Ensures-bind _ _ _ _ _ (bump-Wins id v _ _ (mine-IsAt id business_id v) (λ r. refl))
          λ rows.
            Ensures-pure _ _ _ λ d q. elim q [ inl e ↦ inl (ap head? e) | inr past ↦ inr past ])
        λ o.
          Ensures-or_raise_last _ _ o _
            λ r d found q. elim q [ inl e ↦ absurd (cc) | inr past ↦ past ]

  set_state-IsPast :
      Ensures (OnInvoices (IsPast id v)) (set_state target id business_id v) (λ _ _. ⊥)
  unfolding set_state
  set_state-IsPast = Ensures-skip _ _ utc_now _ utc_now-IsReading λ now.
      Ensures-bind _ _ (λ o d. o ≡ none) _ _
        (Ensures-bind _ _ _ _ _ (bump-IsPast id v _ _ (mine-IsAt id business_id v))
          λ rows. Ensures-pure _ _ _ λ d e. ap head? e)
        λ o. Ensures-or_raise_last _ _ o _ λ r d found e. cc

module _ (id business_id : Uuid) where
  pub finalize-Wins :
      (req : FinalizeInvoiceRequest)
      → Ensures
          (OnInvoices Distinct)
          (finalize_invoice id business_id req)
          (λ _. OnInvoices (IsPast id req.versioning))
  unfolding finalize_invoice finalize_draft
  finalize-Wins req =
      Ensures-bind _ _ (λ _. OnInvoices (IsPast id req.versioning)) _ _
        (Ensures-transaction _ _ _ (
          Ensures-skip _ _ _ _ (search reading_rules) λ invoice.
            Ensures-skip _ _ _ _ (raise_if-IsReading _ _)
              λ _. set_state-Wins _ id business_id req.versioning))
        λ r. Ensures-reading _ _ _ (search reading_rules) (λ _ d h. h)

  pub finalize-IsPast :
      (req : FinalizeInvoiceRequest)
      → Ensures
          (OnInvoices (IsPast id req.versioning))
          (finalize_invoice id business_id req)
          (λ _ _. ⊥)
  unfolding finalize_invoice finalize_draft
  finalize-IsPast req =
      Ensures-bind _ _ (λ _ _. ⊥) _ _
        (Ensures-transaction _ _ _ (
          Ensures-skip _ _ _ _ (search reading_rules) λ invoice.
            Ensures-skip _ _ _ _ (raise_if-IsReading _ _)
              λ _. set_state-IsPast _ id business_id req.versioning))
        λ r. Ensures-reading _ _ _ (search reading_rules) (λ _ d h. h)

  pub void-Wins :
      (req : VoidInvoiceRequest)
      → Ensures
          (OnInvoices Distinct)
          (void_invoice id business_id req)
          (λ _. OnInvoices (IsPast id req.versioning))
  unfolding void_invoice void_at_version
  void-Wins req = Ensures-transaction _ _ _ (
      Ensures-skip _ _ _ _ (search reading_rules) λ found.
        Ensures-skip _ _ _ _ (or_raise-IsReading _ _) λ invoice.
          Ensures-skip _ _ _ _ (raise_if-IsReading _ _)
            λ _. set_state-Wins _ id business_id req.versioning)

  pub void-IsPast :
      (req : VoidInvoiceRequest)
      → Ensures (OnInvoices (IsPast id req.versioning)) (void_invoice id business_id req) (λ _ _. ⊥)
  unfolding void_invoice void_at_version
  void-IsPast req = Ensures-transaction _ _ _ (
      Ensures-skip _ _ _ _ (search reading_rules) λ found.
        Ensures-skip _ _ _ _ (or_raise-IsReading _ _) λ invoice.
          Ensures-skip _ _ _ _ (raise_if-IsReading _ _)
            λ _. set_state-IsPast _ id business_id req.versioning)

  pub edit-Wins :
      (req : EditInvoiceRequest)
      → Ensures
          (OnInvoices Distinct)
          (edit_invoice id business_id req)
          (λ _. OnInvoices (IsPast id req.versioning))
  unfolding edit_invoice lock_draft
  edit-Wins req = Ensures-skip _ _ _ _ (validate_line_items-IsReading req.line_items) λ _.
      Ensures-bind _ _ (λ n d. (n ≡ 0) ⊎ IsPast id req.versioning d.invoices) _ _
        (Ensures-skip _ _ utc_now _ utc_now-IsReading λ now.
          Ensures-bind _ _ _ _ _
            (bump-Wins id req.versioning _ _ (draft-IsAt id req.versioning) (λ r. refl))
            λ rows.
              Ensures-pure _ _ _ λ d q. elim q [ inl e ↦ inl (ap length e) | inr past ↦ inr past ])
        λ n. Ensures-raise_if _ _ (n == 0) _ _ λ passed _.
          Ensures-pre _ _ (OnInvoices (IsPast id req.versioning)) _
            (λ d q. elim q [ inl e ↦ absurd (ground arith) | inr past ↦ past ])
            (Keeps-Ensures _ _ (
              transaction-Keeps _ _ (
                edit_locked-Kept _
                  (OnInvoices-Allows _ (IsStable-IsKept _ _ (IsPast-IsStable id req.versioning))) id
                  business_id req)))

  pub edit-IsPast :
      (req : EditInvoiceRequest)
      → Ensures (OnInvoices (IsPast id req.versioning)) (edit_invoice id business_id req) (λ _ _. ⊥)
  unfolding edit_invoice lock_draft
  edit-IsPast req = Ensures-skip _ _ _ _ (validate_line_items-IsReading req.line_items) λ _.
      Ensures-bind _ _ (λ n d. n ≡ 0) _ _
        (Ensures-skip _ _ utc_now _ utc_now-IsReading λ now.
          Ensures-bind _ _ _ _ _ (bump-IsPast id req.versioning _ _ (draft-IsAt id req.versioning))
            λ rows. Ensures-pure _ _ _ λ d e. ap length e)
        λ n. Ensures-raise_if _ _ (n == 0) _ _ λ passed _.
          Ensures-pre _ _ (λ _. ⊥) _ (λ d e. absurd (ground arith))
            (record { at = λ w a w' p e. p })

module _ (id : Uuid) (v : ℤ) where
  claim-Wins : Ensures (OnInvoices Distinct) (claim_invoice id v) (λ _. OnInvoices (IsPast id v))
  unfolding claim_invoice
  claim-Wins = Ensures-skip _ _ utc_now _ utc_now-IsReading λ now.
      Ensures-bind _ _ (λ n d. (n ≡ 0) ⊎ IsPast id v d.invoices) _ _
        (Ensures-bind _ _ _ _ _ (bump-Wins id v _ _ (open-IsAt id v) (λ r. refl)) λ rows.
          Ensures-pure _ _ _ λ d q. elim q [ inl e ↦ inl (ap length e) | inr past ↦ inr past ])
        λ n.
          Ensures-raise_if_last _ _ (n == 0) _
            λ _ d passed q. elim q [ inl e ↦ absurd (ground arith) | inr past ↦ past ]

  claim-IsPast : Ensures (OnInvoices (IsPast id v)) (claim_invoice id v) (λ _ _. ⊥)
  unfolding claim_invoice
  claim-IsPast = Ensures-skip _ _ utc_now _ utc_now-IsReading λ now.
      Ensures-bind _ _ (λ n d. n ≡ 0) _ _
        (Ensures-bind _ _ _ _ _ (bump-IsPast id v _ _ (open-IsAt id v))
          λ rows. Ensures-pure _ _ _ λ d e. ap length e)
        λ n. Ensures-raise_if_last _ _ (n == 0) _ λ _ d passed e. absurd (ground arith)

module _ (lib : Libraries) (id business_id : Uuid) (key : String) (req : PayInvoiceRequest) where
  pub begin-Wins :
      Ensures
        (OnInvoices Distinct)
        (transaction (begin_payment lib id business_id key req))
        (λ _. OnInvoices (IsPast id req.versioning))
  unfolding begin_payment
  begin-Wins = Ensures-transaction _ _ _ (
      Ensures-bind _ _ _ _ _ (claim-Wins id req.versioning) λ _. Keeps-Ensures _ _ (
        write_attempt-Safe _
          (OnInvoices-IsSafe _ (IsStable-IsKept _ _ (IsPast-IsStable id req.versioning))) lib id
          business_id key req))

  pub begin-IsPast :
      Ensures
        (OnInvoices (IsPast id req.versioning))
        (transaction (begin_payment lib id business_id key req))
        (λ _ _. ⊥)
  unfolding begin_payment
  begin-IsPast =
      Ensures-transaction _ _ _ (
        Ensures-bind _ _ _ _ _ (claim-IsPast id req.versioning)
          λ _. record { at = λ w a w' p e. p })
