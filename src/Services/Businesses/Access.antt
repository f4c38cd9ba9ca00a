-- ===== src/Services/Businesses/Access.antt =====
-- The key that `create_business` returns lets the business in: src/services/businesses.rs,
-- src/utils/api_key.rs and src/middleware/auth.rs.
use payman.Prelude.{
  ◌≡◌, refl, ap, ◌∙◌, String, Bool, true, false, some, ◌+◌, List, [], ◌∷◌, ◌++◌, ◌==◌, str_eq,
  eq_refl, str_append, is_empty_str, byte_len, byte_len-append, without_dashes, strip_prefix-append,
  select, exists, head?, select-append, select_none, All, All-not_exists, All-imp, Bool-cases, inl,
  inr, arith,
}
use payman.Models.{Uuid, Business, ApiKeyRow}
use payman.Errors.{ok}
use payman.Store.{
  Db, World, ◌>>=◌, insert-eq-ok, >>=-eq-ok, pure-eq-ok, exec-eq-ok, reading-same, new_v4-IsReading,
  transaction-eq-ok,
}
use payman.Services.Businesses.{
  Keys, GeneratedApiKey, CreateBusinessResult, insert_business, insert_api_key, has_key,
  find_business_by_key, extract_api_key, api_key_of, generate_api_key, insert_with_key,
  create_business, authenticate,
}

not_empty : (s : String) → byte_len s ≡ 40 → is_empty_str s ≡ false
unfolding byte_len
not_empty String.[] h = absurd (omega arith)
not_empty (String.◌∷◌ c s) h = refl

-- The key of a header is read back.
extract_api_key-bearer :
    (s : String) (w : World)
    → byte_len s ≡ 32
    → extract_api_key (some (some (str_append "Bearer " (str_append "sk_live_" s)))) w
      ≡ (ok (str_append "sk_live_" s), w)
unfolding extract_api_key byte_len ◌>>=◌
extract_api_key-bearer s w h =
    let long : byte_len (str_append "sk_live_" s) ≡ 40 = byte_len-append "sk_live_" s ∙ rw h refl in
    let full = not_empty (str_append "sk_live_" s) long in
    rw
      (
        strip_prefix-append "Bearer " (str_append "sk_live_" s),
        strip_prefix-append "sk_live_" s,
        long,
        full,
      )
      refl

exists-append_none {ℓ} :
    {A : Type ℓ} (p : A → Bool) (xs : List A) (x : A)
    → All (λ y. p y ≡ false) xs
    → exists p (xs ++ x ∷ []) ≡ p x
exists-append_none p [] x h = elim (Bool-cases (p x)) [ inl e ↦ rw e refl | inr e ↦ rw e refl ]
exists-append_none p (y ∷ ys) x h = rw h.0 (exists-append_none p ys x h.1)

flip_test : (a b : Uuid) → (a == b) ≡ false → (b == a) ≡ false
flip_test a b h = ground arith

-- A new business with a new key is the only one that the key belongs to.
found_by_key :
    (b : Business) (k : ApiKeyRow) (businesses : List Business) (keys : List ApiKeyRow)
    → exists (λ x. x.id == b.id) businesses ≡ false
    → exists (λ x. str_eq x.key_hash k.key_hash) keys ≡ false
    → k.business_id ≡ b.id
    → k.revoked ≡ false
    → select (has_key k.key_hash (keys ++ k ∷ [])) (businesses ++ b ∷ []) ≡ b ∷ []
found_by_key b k businesses keys fresh unused mine valid =
    let others : (x : Business) → has_key k.key_hash (keys ++ k ∷ []) x ≡ (k.business_id == x.id) =
      λ x.
        exists-append_none _ keys k
          (All-imp _ _ keys (λ y h. rw h (ground arith)) (All-not_exists _ keys unused))
        ∙ rw (eq_refl k.key_hash, valid) (ground arith) in
    let p = has_key k.key_hash (keys ++ k ∷ []) in
    let passes : p b ≡ true = others b ∙ rw mine (ground arith) in
    let before : select p businesses ≡ [] = select_none p businesses (
      All-imp _ _ businesses (λ x h. others x ∙ rw mine (flip_test x.id b.id h))
        (All-not_exists _ businesses fresh)) in
    select-append p businesses (b ∷ []) ∙ rw (before, passes) refl

-- The tables after a business was created with a key of this hash.
pub record HasBusiness (key_hash name : String) (business_id : Uuid) (d : Db) : Type 0 where
  pub business : Business
  pub is_it : business.id ≡ business_id
  pub named : business.name ≡ name
  pub found : head? (select (has_key key_hash d.api_keys) d.businesses) ≡ some business

HasBusiness-moved :
    (h h' name : String) (business_id : Uuid) (d d' : Db)
    → h ≡ h'
    → d' ≡ d
    → HasBusiness h name business_id d
    → HasBusiness h' name business_id d'
HasBusiness-moved h h' name business_id d d' e same x = record {
  business = x.business;
  is_it = x.is_it;
  named = x.named;
  found = rw (← e, same) x.found;
}

inserted-found :
    (b : Business) (k : ApiKeyRow) (d d₁ d₂ d₃ : Db) {rows : List Business}
    {key_rows : List ApiKeyRow}
    → insert_business b d ≡ (ok rows, d₁)
    → d₂ ≡ d₁
    → insert_api_key k d₂ ≡ (ok key_rows, d₃)
    → k.business_id ≡ b.id
    → k.revoked ≡ false
    → head? (select (has_key k.key_hash d₃.api_keys) d₃.businesses) ≡ some b
unfolding insert_business insert_api_key
inserted-found b k d d₁ d₂ d₃ first between second mine valid =
    let (checked, _, with_business) = insert-eq-ok b _ _ d first in
    let (allowed, _, with_key) = insert-eq-ok k _ _ d₂ second in
    let fresh : exists (λ x. x.id == b.id) d.businesses ≡ false = ground (arith, checked.0) in
    let unused : exists (λ x. str_eq x.key_hash k.key_hash) d₂.api_keys ≡ false =
      ground (arith, allowed.1.0) in
    let unused' : exists (λ x. str_eq x.key_hash k.key_hash) d.api_keys ≡ false =
      rw (between, with_business) at unused in
    rw (with_key, between, with_business)
      (ap head? (found_by_key b k d.businesses d.api_keys fresh unused' mine valid))

insert_with_key-eq-ok :
    (keys : Keys) (name : String) (business_id : Uuid) (api_key : GeneratedApiKey) (w : World)
    {u : Unit {0}} {w' : World}
    → insert_with_key keys name business_id api_key w ≡ (ok u, w')
    → HasBusiness api_key.hash name business_id w'.db
unfolding insert_with_key
insert_with_key-eq-ok keys name business_id api_key w run =
    let (now, w₁, e₁, run₁) = >>=-eq-ok _ _ w run in
    let (_, w₂, e₂, run₂) = >>=-eq-ok _ _ w₁ run₁ in
    let (key_id, w₃, e₃, run₃) = >>=-eq-ok _ _ w₂ run₂ in
    let (_, w₄, e₄, run₄) = >>=-eq-ok _ _ w₃ run₃ in
    let (_, same) = pure-eq-ok _ w₄ run₄ in
    let drawn = reading-same _ w₂ new_v4-IsReading e₃ in
    record {
      business = record { id = business_id; name = name; created_at = now };
      is_it = refl;
      named = refl;
      found = rw same (
          inserted-found _ _ w₁.db w₂.db w₃.db w₄.db (exec-eq-ok _ w₁ e₂).0 drawn
            (exec-eq-ok _ w₃ e₄).0 refl refl);
    }

find_business_by_key-first :
    (key_hash : String) (w : World) {b : Business}
    → w.faults w.statements ≡ false
    → head? (select (has_key key_hash w.db.api_keys) w.db.businesses) ≡ some b
    → find_business_by_key key_hash w ≡ (ok b, record w { statements = w.statements + 1 })
unfolding find_business_by_key ◌>>=◌
find_business_by_key-first key_hash w live found = rw (live, found) refl

authenticate-key :
    (keys : Keys) (id : Uuid) (w : World) {b : Business}
    → byte_len (without_dashes (keys.uuid_to_string id)) ≡ 32
    → w.faults w.statements ≡ false
    → head? (select (has_key (api_key_of keys id).hash w.db.api_keys) w.db.businesses) ≡ some b
    → authenticate keys (some (some (str_append "Bearer " (api_key_of keys id).raw))) w
      ≡ (ok b, record w { statements = w.statements + 1 })
unfolding authenticate api_key_of ◌>>=◌
authenticate-key keys id w long live found =
    rw (extract_api_key-bearer (without_dashes (keys.uuid_to_string id)) w long)
      (find_business_by_key-first _ w live found)

generate_api_key-eq-ok :
    (keys : Keys) (w : World) {k : GeneratedApiKey} {w' : World}
    → generate_api_key keys w ≡ (ok k, w')
    → (id : Uuid) × (k ≡ api_key_of keys id)
unfolding generate_api_key
generate_api_key-eq-ok keys w run =
    let (id, w₁, _, run₁) = >>=-eq-ok _ _ w run in (id, (pure-eq-ok _ w₁ run₁).0)

HasBusiness-authenticate :
    (keys : Keys) (name : String) (id business_id : Uuid) (later : World)
    → byte_len (without_dashes (keys.uuid_to_string id)) ≡ 32
    → HasBusiness (api_key_of keys id).hash name business_id later.db
    → later.faults later.statements ≡ false
    → (b : Business) × (b.id ≡ business_id)
      × (b.name ≡ name)
      × (authenticate keys (some (some (str_append "Bearer " (api_key_of keys id).raw))) later
          ≡ (ok b, record later { statements = later.statements + 1 }))
HasBusiness-authenticate keys name id business_id later long has live =
    (has.business, has.is_it, has.named, authenticate-key keys id later long live has.found)

-- The key that a request to create a business returns lets the business in: a later request that
-- carries it, and finds the tables as they were left, is taken for that business, with its name. The
-- identifiers print as 32 bytes without their dashes, and the statement does not fail.
pub create_business-authenticate :
    (keys : Keys) (name : String) (w : World) {r : CreateBusinessResult} {w' : World}
    → ((id : Uuid) → byte_len (without_dashes (keys.uuid_to_string id)) ≡ 32)
    → create_business keys name w ≡ (ok r, w')
    → (later : World) → later.db ≡ w'.db
    → later.faults later.statements ≡ false
    → (b : Business) × (b.id ≡ r.business_id)
      × (b.name ≡ name)
      × (authenticate keys (some (some (str_append "Bearer " r.api_key))) later
          ≡ (ok b, record later { statements = later.statements + 1 }))
unfolding create_business
create_business-authenticate keys name w {r} long run later same live =
    let (key, w₁, e₁, run₁) = >>=-eq-ok _ _ w run in
    let (business_id, w₂, _, run₂) = >>=-eq-ok _ _ w₁ run₁ in
    let (_, w₃, e₃, run₃) = >>=-eq-ok _ _ w₂ run₂ in
    let (returned, last) = pure-eq-ok _ w₃ run₃ in
    let (id, made) = generate_api_key-eq-ok keys w e₁ in
    let (a, b, body, _, _, db') = transaction-eq-ok _ w₂ e₃ in
    let has = insert_with_key-eq-ok keys name business_id key a body in
    let left : later.db ≡ b.db = same ∙ ap (λ (x : World). x.db) last ∙ db' in
    let known =
      HasBusiness-moved _ (api_key_of keys id).hash name business_id b.db later.db
        (ap (λ (x : GeneratedApiKey). x.hash) made) left has in
    let raw : r.api_key ≡ (api_key_of keys id).raw =
      ap (λ (x : CreateBusinessResult). x.api_key) returned
      ∙ ap (λ (x : GeneratedApiKey). x.raw) made in
    let it : r.business_id ≡ business_id =
      ap (λ (x : CreateBusinessResult). x.business_id) returned in
    rw (raw, it) (HasBusiness-authenticate keys name id business_id later (long id) known live)
