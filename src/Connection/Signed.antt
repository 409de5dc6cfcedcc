-- ===== src/Connection/Signed.antt =====
-- An i64 field: an integer, and the two's complement bits that `to_be_bytes` writes.
use sov_vault.Base.{ℕ, ◌-◌, ◌^◌, ◌<◌, ◌≡◌, Bool, true, false, arith, ltb, if◌then◌else◌}

-- `negsuc n` is -(n + 1).
pub data ℤ : Type 0 where
  pos : ℕ → ℤ
  negsuc : ℕ → ℤ

abbrev pub FitsI64 : ℤ → Type 0
FitsI64 (pos n) = n < 2 ^ 63
FitsI64 (negsuc n) = n < 2 ^ 63

unfoldable pub to_i64_bits : ℤ → ℕ
to_i64_bits (pos n) = n
to_i64_bits (negsuc n) = 2 ^ 64 - 1 - n

unfoldable pub of_i64_bits : ℕ → ℤ
of_i64_bits b = if ltb b (2 ^ 63) then pos b else negsuc (2 ^ 64 - 1 - b)

abbrev pub is_negative : ℤ → Bool
is_negative (pos n) = false
is_negative (negsuc n) = true

pub to_i64_bits-lt : (z : ℤ) → FitsI64 z → to_i64_bits z < 2 ^ 64
unfolding to_i64_bits
to_i64_bits-lt (pos n) h = omega arith
to_i64_bits-lt (negsuc n) h = omega arith

pub of-to_i64_bits : (z : ℤ) → FitsI64 z → of_i64_bits (to_i64_bits z) ≡ z
unfolding of_i64_bits to_i64_bits
of-to_i64_bits (pos n) h = ground arith
of-to_i64_bits (negsuc n) h = ground arith
