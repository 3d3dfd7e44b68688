-- ===== src/Word/Step.antt =====
-- `&`, `|` and `^` by their lowest digit. The native operations mean `bitwise`, a recursion on
-- digits with fuel; here the fuel is dropped.
use Prim.Native.Nat.{differ, digits, bitwise, bit_and-bitwise, bit_or-bitwise, bit_xor-bitwise}
use slash.Base.{
  ℕ, zero, suc, ◌+◌, ◌*◌, ◌/◌, ◌%◌, ◌≤◌, ◌<◌, min, max, bit_and, bit_or, bit_xor, ◌≡◌, ◌-◌, ◌∙◌,
  refl, arith,
}

module _ (z : ℕ → ℕ) (f : ℕ → ℕ → ℕ) where
  -- One unit of fuel more changes nothing, and so no number of them does.
  spare : (n x y : ℕ) → x ≤ n → digits z f (suc n) x y ≡ digits z f n x y
  spare (suc n) (suc x) y h = rw (spare n (suc x / 2) (y / 2) (omega arith))
  spare (suc n) zero y h = refl
  spare zero (suc x) y h = absurd (omega arith)
  spare zero zero y h = refl

  enough : (k x y n : ℕ) → x + k ≡ n → digits z f n x y ≡ digits z f x x y
  enough zero x y n e = let same : n ≡ x = omega arith in rw same refl
  enough (suc k) x y zero e = absurd (omega arith)
  enough (suc k) x y (suc n) e = spare n x y (omega arith) ∙ enough k x y n (omega arith)

  lowest :
      (x y : ℕ)
      → f (suc x % 2) (y % 2) + 2 * bitwise z f (suc x / 2) (y / 2) ≡ bitwise z f (suc x) y
  lowest x y = omega (arith, enough (x - suc x / 2) (suc x / 2) (y / 2) x (omega arith))

pub differ_zero : (b : ℕ) → b < 2 → differ 0 b ≡ b
differ_zero zero h = refl
differ_zero (suc zero) h = refl
differ_zero (suc (suc b)) h = absurd (omega arith)

pub bit_and_step : (x y : ℕ) → bit_and x y ≡ min (x % 2) (y % 2) + 2 * bit_and (x / 2) (y / 2)
bit_and_step zero y = simp bit_and-bitwise (omega arith)
bit_and_step (suc x) y = simp bit_and-bitwise (omega (arith, lowest (λ y. 0) min x y))

pub zero-bit_and : (b : ℕ) → bit_and 0 b ≡ 0
zero-bit_and b = bit_and-bitwise 0 b

pub bit_or_step : (x y : ℕ) → bit_or x y ≡ max (x % 2) (y % 2) + 2 * bit_or (x / 2) (y / 2)
bit_or_step zero y = simp bit_or-bitwise (omega arith)
bit_or_step (suc x) y = simp bit_or-bitwise (omega (arith, lowest (λ y. y) max x y))

pub bit_xor_step : (x y : ℕ) → bit_xor x y ≡ differ (x % 2) (y % 2) + 2 * bit_xor (x / 2) (y / 2)
bit_xor_step zero y = simp bit_xor-bitwise (ground (arith, differ_zero (y % 2)))
bit_xor_step (suc x) y = simp bit_xor-bitwise (omega (arith, lowest (λ y. y) differ x y))
