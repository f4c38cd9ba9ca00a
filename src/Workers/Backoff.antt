-- ===== src/Workers/Backoff.antt =====
-- The backoff of src/workers/payment_status_worker.rs: `2_i64.pow(retry_count as u32).min(16)`, as it
-- is stored in a 32-bit integer.
use payman.Prelude.{
  ℕ, ◌^◌, ◌%◌, ◌-◌, ◌<◌, ◌≤◌, ◌≡◌, refl, arith, ltb, leb, if◌then◌else◌, min, Bool-cases, inl, inr,
  false,
}
use native.Mathlib.Nat.{pow-le-pow_right}
use payman.Prelude.Int.{ℤ, pos, negsuc, of_u64, to_u64, leb_ℤ}

-- `2_i64.pow(n)`, which wraps around in a release build: from 64 on nothing is left.
abbrev pub pow_of_two : ℕ → ℤ
pow_of_two n = if leb 64 n then pos 0 else of_u64 (2 ^ n)

abbrev min_ℤ : ℤ → ℤ → ℤ
min_ℤ a b = if leb_ℤ a b then a else b

-- `as u32`
abbrev as_u32 : ℤ → ℕ
as_u32 a = to_u64 a % 2 ^ 32

-- `as i32`
abbrev as_i32 : ℤ → ℤ
as_i32 a = let n = to_u64 a % 2 ^ 32 in if ltb n (2 ^ 31) then pos n else negsuc (2 ^ 32 - n - 1)

unfoldable pub backoff_mins : ℤ → ℤ
backoff_mins retry_count = as_i32 (min_ℤ (pow_of_two (as_u32 retry_count)) (pos 16))

as_u32-pos : (n : ℕ) → n < 2 ^ 31 → as_u32 (pos n) ≡ n
as_u32-pos n h = omega arith

stored_power : (v : ℕ) → v ≤ 2 ^ 62 → as_i32 (min_ℤ (of_u64 v) (pos 16)) ≡ pos (min v 16)
stored_power v h = ground arith

minutes :
    (n : ℕ) → as_i32 (min_ℤ (pow_of_two n) (pos 16)) ≡ pos (if ltb n 63 then min (2 ^ n) 16 else 0)
minutes n = elim (Bool-cases (ltb n 63)) [
  | inl e ↦
      let small : n ≤ 62 = ground arith in
      let early : leb 64 n ≡ false = ground arith in
      rw (e, early) (stored_power (2 ^ n) (pow-le-pow_right (omega arith) small))
  | inr e ↦ elim (Bool-cases (leb 64 n)) [
    | inl late ↦ rw (e, late) refl
    | inr early ↦ let last : n ≡ 63 = ground arith in rw last refl
  ]
]

-- The backoff doubles from one minute up to sixteen and stays there, until the 63rd retry: from then
-- on the power has overflowed, and the backoff is no time at all.
pub backoff_mins-eq :
    (n : ℕ) → n < 2 ^ 31 → backoff_mins (pos n) ≡ pos (if ltb n 63 then min (2 ^ n) 16 else 0)
unfolding backoff_mins
backoff_mins-eq n h = rw (as_u32-pos n h) (minutes n)
