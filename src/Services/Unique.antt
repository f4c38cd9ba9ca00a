-- ===== src/Services/Unique.antt =====
-- The unique indexes that the services rely on, kept by every service: one business for a hash of a
-- key, one customer of a business for an email, one stored response for a key of a payment.
use payman.Prelude.{
  ◌≡◌, refl, subst, String, Bool, true, ◌&&◌, str_eq, eq_iff, eq_refl, Unique, Unique-append,
  Unique-update, Bool-cases, inl, inr, exists, arith, update,
}
use payman.Prelude.Int.{pos, eqb_ℤ}
use payman.Models.{ApiKeyRow, Customer, IdempotencyRow, Invoice, Uuid, LineItem}
use payman.Store.{Db, Keeps, exec, exec-Keeps, insert_cases}
use payman.Services.Businesses.{has_hash}
use payman.Services.Customers.{has_email}
use payman.Services.Elsewhere.{Elsewhere, SparesKey}
use payman.Services.Payments.Statements.{key_matches}
use payman.Services.Payments.Safe.{IsSafe}
use payman.Services.Invoices.Statements.{
  insert_invoice, insert_line_item, update_invoices, bump_invoices, delete_line_items,
}
use payman.Services.Invoices.Stable.{Allows, Bumps}

abbrev pub same_hash : ApiKeyRow → ApiKeyRow → Bool
same_hash k = has_hash k.key_hash

abbrev pub same_email : Customer → Customer → Bool
same_email c = has_email c.business_id c.email

abbrev pub same_key : IdempotencyRow → IdempotencyRow → Bool
same_key r = key_matches r.key r.business_id r.invoice_id

pub record IsUnique (d : Db) : Type 0 where
  pub hashes : Unique same_hash d.api_keys
  pub emails : Unique same_email d.customers
  pub keys : Unique same_key d.idempotency_keys

str_eq_sym : (a b : String) → str_eq a b ≡ true → str_eq b a ≡ true
str_eq_sym a b h = subst (λ x. str_eq x a ≡ true) ((eq_iff a b).0 h) (eq_refl a)

same_email_sym : (a b : Customer) → same_email a b ≡ true → same_email b a ≡ true
same_email_sym a b h = ground (arith, h, str_eq_sym b.email a.email)

same_key_sym : (a b : IdempotencyRow) → same_key a b ≡ true → same_key b a ≡ true
same_key_sym a b h = ground (arith, h, str_eq_sym b.key a.key)

Unique-set_keys :
    (p : IdempotencyRow → Bool) (f : IdempotencyRow → IdempotencyRow) (d : Db)
    → SparesKey f
    → Unique same_key d.idempotency_keys
    → Unique same_key (update p f d.idempotency_keys)
Unique-set_keys p f d k =
    Unique-update same_key p f d.idempotency_keys (λ a b. rw ((k a).0, (k a).1, (k a).2) refl)
      (λ a b. rw ((k b).0, (k b).1, (k b).2) refl)

Elsewhere-IsUnique : {d d' : Db} → Elsewhere d d' → IsUnique d → IsUnique d'
Elsewhere-IsUnique (Elsewhere.other d' _ _ e e' e'') h = record {
  hashes = rw e h.hashes;
  emails = rw e' h.emails;
  keys = rw e'' h.keys;
}
Elsewhere-IsUnique {d} (Elsewhere.add_api_key row fresh) h = record {
  hashes =
      Unique-append same_hash (λ a b. str_eq_sym b.key_hash a.key_hash) d.api_keys row fresh
        h.hashes;
  emails = h.emails;
  keys = h.keys;
}
Elsewhere-IsUnique {d} (Elsewhere.add_customer row fresh) h = record {
  hashes = h.hashes;
  emails = Unique-append same_email same_email_sym d.customers row fresh h.emails;
  keys = h.keys;
}
Elsewhere-IsUnique {d} (Elsewhere.add_key row fresh) h = record {
  hashes = h.hashes;
  emails = h.emails;
  keys = Unique-append same_key same_key_sym d.idempotency_keys row fresh h.keys;
}
Elsewhere-IsUnique {d} (Elsewhere.set_keys p f k) h = record {
  hashes = h.hashes;
  emails = h.emails;
  keys = Unique-set_keys p f d k h.keys;
}

-- The tables after a statement on invoices or line items.
spared :
    (d d' : Db)
    → d'.api_keys ≡ d.api_keys
    → d'.customers ≡ d.customers
    → d'.idempotency_keys ≡ d.idempotency_keys
    → IsUnique d
    → IsUnique d'
spared d d' e e' e'' h = record {
  hashes = rw e h.hashes;
  emails = rw e' h.emails;
  keys = rw e'' h.keys;
}

exec_update-IsUnique :
    (p : Invoice → Bool) (f : Invoice → Invoice) → Keeps IsUnique (exec (update_invoices p f))
unfolding update_invoices
exec_update-IsUnique p f = exec-Keeps _ _ (λ d h. spared d _ refl refl refl h)

exec_bump-IsUnique :
    (p : Invoice → Bool) (f : Invoice → Invoice) → Keeps IsUnique (exec (bump_invoices p f))
unfolding bump_invoices update_invoices
exec_bump-IsUnique p f = exec-Keeps _ _ λ d h.
    elim (Bool-cases (exists (λ r. p r && eqb_ℤ r.versioning (pos 2_147_483_647)) d.invoices)) [
      | inl e ↦ rw e h
      | inr e ↦ rw e (spared d _ refl refl refl h)
    ]

pub IsUnique-Bumps : Bumps IsUnique
IsUnique-Bumps p f _ = exec_bump-IsUnique p f

drafts-IsUnique : (row : Invoice) → Keeps IsUnique (exec (insert_invoice row))
unfolding insert_invoice
drafts-IsUnique row =
    exec-Keeps _ _ λ d h. insert_cases IsUnique row _ _ d h (λ _. spared d _ refl refl refl h)

lines-IsUnique : (row : LineItem) → Keeps IsUnique (exec (insert_line_item row))
unfolding insert_line_item
lines-IsUnique row =
    exec-Keeps _ _ λ d h. insert_cases IsUnique row _ _ d h (λ _. spared d _ refl refl refl h)

clears-IsUnique :
    (seen : LineItem → Bool) (id : Uuid) → Keeps IsUnique (exec (delete_line_items seen id))
unfolding delete_line_items
clears-IsUnique seen id = exec-Keeps _ _ (λ d h. spared d _ refl refl refl h)

pub IsUnique-Allows : Allows IsUnique
IsUnique-Allows = record {
  updates = λ p f _ _. exec_update-IsUnique p f;
  bumps = λ p f _ _. exec_bump-IsUnique p f;
  drafts = λ row _. drafts-IsUnique row;
  lines = lines-IsUnique;
  clears = clears-IsUnique;
}

pub IsUnique-IsSafe : IsSafe IsUnique
IsUnique-IsSafe = record {
  updates = λ p f _ _. exec_update-IsUnique p f;
  bumps = λ p f _ _. exec_bump-IsUnique p f;
  elsewhere = λ d d' e h. Elsewhere-IsUnique e h;
}
