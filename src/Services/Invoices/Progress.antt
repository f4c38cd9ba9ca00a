-- ===== src/Services/Invoices/Progress.antt =====
-- While the database answers, `finalize_invoice` and `void_invoice` of src/services/invoices.rs do what
-- they are asked.
use payman.Errors.{ok}
use payman.Services.Invoices.Statements.{bump_invoices, update_invoices}
use payman.Services.Invoices.Transitions.{
  finalize_draft, void_at_version, set_state, void_invoice, finalize_invoice,
}
use payman.Store.{World, unfailing, ◌>>=◌}
use payman.Services.Invoices.Outcomes.{at_version, moved}
use payman.Prelude.Int.{ℤ, eqb_ℤ, pos, eqb_ℤ→eq}
use payman.Models.{Invoice, Uuid, InvoiceState, draft, can_transition_to, opened}
use payman.Prelude.{
  ◌&&◌, arith, sym, subst, not_both, Bool-cases, inl, inr, select, head?, exists, some_inj,
  none-ne-some, refl, true, false, Bool, List, [], ◌∷◌, some, ◌≡◌, ◌==◌, ℕ, ◌+◌, update, ◌++◌,
  head-map,
}

-- The row that passes a test is found by a test that it passes too.
head-select_other :
    (p q : Invoice → Bool) (rows : List Invoice) {r : Invoice}
    → head? (select p rows) ≡ some r
    → q r ≡ true
    → (r' : Invoice) × (head? (select q rows) ≡ some r') × (q r' ≡ true)
head-select_other p q [] first h = absurd (none-ne-some _ first)
head-select_other p q (x ∷ rows) first h = elim (Bool-cases (q x)) [
  | inl e ↦ (x, rw e refl, e)
  | inr e ↦ elim (Bool-cases (p x)) [
    | inl k ↦
        let same : x ≡ _ = some_inj.0 (rw k at first) in
        absurd (not_both (q x) e (subst (λ y. q y ≡ true) (sym same) h))
    | inr k ↦
        let (r', found, passes) = head-select_other p q rows (rw k at first) h in
        (r', rw e found, passes)
  ]
]

-- No row that the update finds is at the last version.
room :
    (id business_id : Uuid) (v : ℤ) (rows : List Invoice)
    → eqb_ℤ v (pos 2_147_483_647) ≡ false
    → exists (λ r. at_version id business_id v r && eqb_ℤ r.versioning (pos 2_147_483_647)) rows
      ≡ false
room id business_id v [] h = refl
room id business_id v (r ∷ rows) h =
    let rest = room id business_id v rows h in
    elim (Bool-cases (eqb_ℤ r.versioning v)) [
      | inl e ↦
          let same = eqb_ℤ→eq r.versioning v e in
          let full : eqb_ℤ r.versioning (pos 2_147_483_647) ≡ false = rw same h in
          ground (arith, rest)
      | inr e ↦ ground (arith, rest)
    ]

-- The world after the invoice was moved.
abbrev pub moved_world : InvoiceState → Uuid → Uuid → ℤ → World → World
moved_world target id business_id v w = record (unfailing w) {
  db = record w.db {
    invoices = update (at_version id business_id v) (moved target w.now) w.db.invoices;
  };
  statements = w.statements + 4;
}

four_more : (n : ℕ) → n + 1 + 1 + 1 + 1 ≡ n + 4
four_more n = omega arith

module _ (id business_id : Uuid) (v : ℤ) (w : World) {r : Invoice} (is_draft : r.state ≡ draft)
    (at : at_version id business_id v r ≡ true)
    (not_last : eqb_ℤ v (pos 2_147_483_647) ≡ false) where
  -- While no statement fails, a draft of the business is opened by a request to finalize it at its
  -- version, if that is not the last one: the request returns the opened invoice, with the next version,
  -- and the webhooks of the event are to be dispatched. The first row of the invoice is the draft.
  pub finalize_invoice-succeeds :
      head? (select (λ x. x.id == id && x.business_id == business_id) w.db.invoices) ≡ some r
      → (found : Invoice) × (finalize_invoice id business_id
            (record { versioning = v })
            (unfailing w)
          ≡ (
            ok (moved opened w.now found),
            record (moved_world opened id business_id v w) {
              tasks =
                  w.tasks
                  ++ record {
                    business_id = business_id;
                    invoice_id = id;
                    event_type = "invoice.finalized";
                  }
                    ∷ [];
            },
          ))
        × (at_version id business_id v found ≡ true)
  unfolding finalize_invoice finalize_draft set_state bump_invoices update_invoices
      can_transition_to ◌>>=◌
  finalize_invoice-succeeds first =
      let (found, read, passes) =
        head-select_other _ (at_version id business_id v) w.db.invoices first at in
      (
        found,
        rw
            (
              first,
              is_draft,
              room id business_id v w.db.invoices not_last,
              head-map (moved opened w.now) _ read,
              four_more w.statements,
            )
            refl,
        passes,
      )

  -- While no statement fails, a draft of the business is voided by a request at its version, if that is
  -- not the last one: the request returns the void invoice, with the next version. The first row of the
  -- invoice at that version is the draft.
  pub void_invoice-succeeds :
      head? (select (at_version id business_id v) w.db.invoices) ≡ some r
      → void_invoice id business_id (record { versioning = v }) (unfailing w)
        ≡ (ok (moved InvoiceState.void w.now r), moved_world InvoiceState.void id business_id v w)
  unfolding void_invoice void_at_version set_state bump_invoices update_invoices can_transition_to
      ◌>>=◌
  void_invoice-succeeds first =
      rw
        (
          first,
          is_draft,
          room id business_id v w.db.invoices not_last,
          head-map (moved InvoiceState.void w.now) _ first,
          four_more w.statements,
        )
        refl
