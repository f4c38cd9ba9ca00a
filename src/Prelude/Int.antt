-- ===== src/Prelude/Int.antt =====
-- Signed integers over the native numbers, with the wrap-around of `i64` and the tests that the
-- code makes on them. Sums and orders go through the two parts of an integer.
use payman.Prelude.{
  ℕ, suc, ◌+◌, ◌-◌, ◌*◌, ◌%◌, ◌^◌, ◌≤◌, ◌<◌, ◌≡◌, refl, Bool, true, arith, ltb, leb, ◌==◌,
  if◌then◌else◌,
}

-- `negsuc n` is -(n + 1).
pub data ℤ : Type 0 where
  pos : ℕ → ℤ
  negsuc : ℕ → ℤ

abbrev pub pos_part : ℤ → ℕ
pos_part (pos n) = n
pos_part (negsuc n) = 0

abbrev pub neg_part : ℤ → ℕ
neg_part (pos n) = 0
neg_part (negsuc n) = suc n

-- a - b, as an integer.
abbrev pub sub_ℕ : ℕ → ℕ → ℤ
sub_ℕ a b = if leb b a then pos (a - b) else negsuc (b - a - 1)

infixl 65 ◌+ℤ◌
infixl 70 ◌*ℤ◌
infix 50 ◌≤ℤ◌ ◌<ℤ◌
unfoldable pub ◌+ℤ◌ : ℤ → ℤ → ℤ
a +ℤ b = sub_ℕ (pos_part a + pos_part b) (neg_part a + neg_part b)

unfoldable pub ◌*ℤ◌ : ℤ → ℤ → ℤ
a *ℤ b =
    sub_ℕ (pos_part a * pos_part b + neg_part a * neg_part b)
      (pos_part a * neg_part b + neg_part a * pos_part b)

abbrev pub ◌≤ℤ◌ : ℤ → ℤ → Type 0
a ≤ℤ b = pos_part a + neg_part b ≤ pos_part b + neg_part a

abbrev pub ◌<ℤ◌ : ℤ → ℤ → Type 0
a <ℤ b = pos_part a + neg_part b < pos_part b + neg_part a

abbrev pub ltb_ℤ : ℤ → ℤ → Bool
ltb_ℤ a b = ltb (pos_part a + neg_part b) (pos_part b + neg_part a)

abbrev pub leb_ℤ : ℤ → ℤ → Bool
leb_ℤ a b = leb (pos_part a + neg_part b) (pos_part b + neg_part a)

abbrev pub eqb_ℤ : ℤ → ℤ → Bool
eqb_ℤ a b = (pos_part a + neg_part b) == (pos_part b + neg_part a)

-- The signed value of a bit pattern of 64 bits.
abbrev pub of_u64 : ℕ → ℤ
of_u64 n = if ltb n (2 ^ 63) then pos n else negsuc (2 ^ 64 - n - 1)

-- The bit pattern of an integer modulo 2^64.
abbrev pub to_u64 : ℤ → ℕ
to_u64 (pos n) = n % 2 ^ 64
to_u64 (negsuc n) = 2 ^ 64 - 1 - n % 2 ^ 64

-- `a + b` and `a * b` on i64, which wrap around in a release build.
unfoldable pub add_i64 : ℤ → ℤ → ℤ
unfolding ◌+ℤ◌
add_i64 a b = of_u64 (to_u64 (a +ℤ b))

unfoldable pub mul_i64 : ℤ → ℤ → ℤ
unfolding ◌*ℤ◌
mul_i64 a b = of_u64 (to_u64 (a *ℤ b))

pub +ℤ_parts :
    (a b : ℤ)
    → pos_part (a +ℤ b) + neg_part a + neg_part b ≡ neg_part (a +ℤ b) + pos_part a + pos_part b
unfolding ◌+ℤ◌
+ℤ_parts a b = ground arith

pub eq_of_parts : (a b : ℤ) → pos_part a + neg_part b ≡ pos_part b + neg_part a → a ≡ b
eq_of_parts a b h = ground arith

pub eqb_ℤ→eq : (a b : ℤ) → eqb_ℤ a b ≡ true → a ≡ b
eqb_ℤ→eq a b h = ground arith

pub ruleset int_laws = (arith, +ℤ_parts, eq_of_parts)

-- Where the exact result fits, the machine operation is exact.
pub add_i64_pos : (a b : ℕ) → a + b < 2 ^ 63 → add_i64 (pos a) (pos b) ≡ pos (a + b)
unfolding add_i64
add_i64_pos a b h = ground arith

pub mul_i64_pos : (a b : ℕ) → a * b < 2 ^ 63 → mul_i64 (pos a) (pos b) ≡ pos (a * b)
unfolding mul_i64
mul_i64_pos a b h = ground arith

pub pos_of_positive : (a : ℤ) → pos 1 ≤ℤ a → a ≡ pos (pos_part a)
pos_of_positive (pos n) h = refl
pos_of_positive (negsuc n) h = absurd (omega arith)

-- The bit pattern of a number that is read back is the number.
pub to_u64-of_u64 : (n : ℕ) → n < 2 ^ 64 → to_u64 (of_u64 n) ≡ n
to_u64-of_u64 n h = ground arith

pub to_u64-add_i64 : (a b : ℤ) → to_u64 (add_i64 a b) ≡ (to_u64 a + to_u64 b) % 2 ^ 64
unfolding add_i64
to_u64-add_i64 (pos a) (pos b) = ground arith
to_u64-add_i64 (pos a) (negsuc b) = ground arith
to_u64-add_i64 (negsuc a) (pos b) = ground arith
to_u64-add_i64 (negsuc a) (negsuc b) = ground arith

pub to_u64-mul_i64_pos : (a b : ℕ) → to_u64 (mul_i64 (pos a) (pos b)) ≡ (a * b) % 2 ^ 64
unfolding mul_i64
to_u64-mul_i64_pos a b = ground arith

pub to_u64_lt : (a : ℤ) → to_u64 a < 2 ^ 64
to_u64_lt (pos n) = omega arith
to_u64_lt (negsuc n) = omega arith
