-- ===== src/Services/Invoices/Totals.antt =====
-- The total of an invoice, `items.iter().map(…).sum()` in src/services/invoices.rs, on i64.
use payman.Prelude.{
  ℕ, ◌+◌, ◌*◌, ◌^◌, ◌<◌, ◌≡◌, ap, ap₂, ◌∙◌, List, [], ◌∷◌, All, arith, ◌%◌, map, trim,
}
use payman.Prelude.Int.{
  ℤ, pos, pos_part, add_i64, mul_i64, ◌≤ℤ◌, add_i64_pos, mul_i64_pos, pos_of_positive, to_u64,
  to_u64_lt, to_u64-mul_i64_pos, to_u64-add_i64,
}
use payman.Models.{CreateLineItemRequest}

-- `item.quantity as i64 * item.unit_amount_cents`
unfoldable pub line_total : CreateLineItemRequest → ℤ
line_total item = mul_i64 item.quantity item.unit_amount_cents

sum_from : ℤ → List CreateLineItemRequest → ℤ
sum_from acc [] = acc
sum_from acc (item ∷ items) = sum_from (add_i64 acc (line_total item)) items

unfoldable pub total_cents : List CreateLineItemRequest → ℤ
unfolding sum_from line_total
total_cents items = sum_from (pos 0) items

-- Both fields of the item are positive: what the services check.
abbrev pub IsPositive : CreateLineItemRequest → Type 0
IsPositive item = (pos 1 ≤ℤ item.quantity) × (pos 1 ≤ℤ item.unit_amount_cents)

-- The total over the natural numbers.
abbrev pub exact_total : List CreateLineItemRequest → ℕ
exact_total [] = 0
exact_total (item ∷ items) =
    pos_part item.quantity * pos_part item.unit_amount_cents + exact_total items

line_total_exact :
    (item : CreateLineItemRequest)
    → IsPositive item
    → pos_part item.quantity * pos_part item.unit_amount_cents < 2 ^ 63
    → line_total item ≡ pos (pos_part item.quantity * pos_part item.unit_amount_cents)
unfolding line_total
line_total_exact item h lt =
    ap₂ mul_i64 (pos_of_positive item.quantity h.0) (pos_of_positive item.unit_amount_cents h.1)
    ∙ mul_i64_pos _ _ lt

sum_from_exact :
    (acc : ℕ) (items : List CreateLineItemRequest)
    → All IsPositive items
    → acc + exact_total items < 2 ^ 63
    → sum_from (pos acc) items ≡ pos (acc + exact_total items)
unfolding sum_from
sum_from_exact acc [] h lt = ap pos (omega arith)
sum_from_exact acc (item ∷ items) h lt =
    let n = pos_part item.quantity * pos_part item.unit_amount_cents in
    rw (line_total_exact item h.0 (omega arith), add_i64_pos acc n (omega arith))
      (sum_from_exact (acc + n) items h.1 (omega arith) ∙ ap pos (omega arith))

-- While the exact total of positive items is below 2^63, the total that is charged is exact.
pub total_cents_exact :
    (items : List CreateLineItemRequest)
    → All IsPositive items
    → exact_total items < 2 ^ 63
    → total_cents items ≡ pos (exact_total items)
unfolding total_cents
total_cents_exact items h lt = sum_from_exact 0 items h (omega arith) ∙ ap pos (omega arith)

to_u64-line_total :
    (item : CreateLineItemRequest)
    → IsPositive item
    → to_u64 (line_total item) ≡ (pos_part item.quantity * pos_part item.unit_amount_cents) % 2 ^ 64
unfolding line_total
to_u64-line_total item h =
    ap to_u64
      (ap₂ mul_i64 (pos_of_positive item.quantity h.0) (pos_of_positive item.unit_amount_cents h.1))
    ∙ to_u64-mul_i64_pos _ _

to_u64-sum_from :
    (acc : ℤ) (items : List CreateLineItemRequest)
    → All IsPositive items
    → to_u64 (sum_from acc items) ≡ (to_u64 acc + exact_total items) % 2 ^ 64
unfolding sum_from
to_u64-sum_from acc [] h = omega (arith, to_u64_lt acc)
to_u64-sum_from acc (item ∷ items) h = omega (
  arith,
  to_u64-sum_from (add_i64 acc (line_total item)) items h.1,
  to_u64-add_i64 acc (line_total item),
  to_u64-line_total item h.0,
)

-- Whatever its size, the total agrees with the exact one modulo 2^64.
pub total_cents_wraps :
    (items : List CreateLineItemRequest)
    → All IsPositive items
    → to_u64 (total_cents items) ≡ exact_total items % 2 ^ 64
unfolding total_cents
total_cents_wraps items h = omega (arith, to_u64-sum_from (pos 0) items h)

-- A requested item as it is stored.
abbrev pub trimmed : CreateLineItemRequest → CreateLineItemRequest
trimmed item = record item { description = trim item.description }

sum_from-trimmed :
    (acc : ℤ) (items : List CreateLineItemRequest)
    → sum_from acc (map trimmed items) ≡ sum_from acc items
unfolding sum_from line_total
sum_from-trimmed acc [] = λ i. acc
sum_from-trimmed acc (item ∷ items) = sum_from-trimmed (add_i64 acc (line_total item)) items

-- Trimming the descriptions does not change the total.
pub total_cents-trimmed :
    (items : List CreateLineItemRequest) → total_cents (map trimmed items) ≡ total_cents items
unfolding total_cents
total_cents-trimmed items = sum_from-trimmed (pos 0) items
