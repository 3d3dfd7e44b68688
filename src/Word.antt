-- ===== src/Word.antt =====
-- The `u32` operations that the crates use, on natural numbers below 2 ^ 32: shifts, complement,
-- `wrapping` addition and subtraction of one, `leading_zeros`; and the bits of a word.
pub mod Step
pub mod Bits
use slash.Base.{ℕ, zero, suc, ◌+◌, ◌-◌, ◌*◌, ◌/◌, ◌%◌, ◌^◌, ltb, if◌then◌else◌}

infixl 75 ◌<<<◌ ◌>>>◌
abbrev pub ◌<<<◌ : ℕ → ℕ → ℕ
x <<< k = x * 2 ^ k % 2 ^ 32

abbrev pub ◌>>>◌ : ℕ → ℕ → ℕ
x >>> k = x / 2 ^ k

-- `!0u32`.
abbrev pub all_ones : ℕ
all_ones = 2 ^ 32 - 1

abbrev pub wrapping_inc : ℕ → ℕ
wrapping_inc n = (n + 1) % 2 ^ 32

abbrev pub wrapping_dec : ℕ → ℕ
wrapping_dec n = (n + 2 ^ 32 - 1) % 2 ^ 32

-- Bit `j` of a word, counted from the least significant.
abbrev pub bit : ℕ → ℕ → ℕ
bit w j = w / 2 ^ j % 2

-- The leading zeros among the low `k` bits.
unfoldable pub zeros_above : ℕ → ℕ → ℕ
zeros_above zero x = 0
zeros_above (suc k) x = if ltb x (2 ^ k) then suc (zeros_above k x) else 0

unfoldable pub leading_zeros : ℕ → ℕ
leading_zeros x = zeros_above 32 x
