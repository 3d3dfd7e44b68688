-- ===== src/Word/Bits.antt =====
-- The bits of words: of `&`, `|`, `^`, of a mask, and what `leading_zeros` says of them.
use Prim.Native.Nat.{differ}
use native.Mathlib.Nat.{div-div-eq-div-mul, pow-succ'}
use native.Mathlib.Decide.{dec_lt}
use slash.Base.{
  ℕ, zero, suc, ◌+◌, ◌-◌, ◌*◌, ◌/◌, ◌%◌, ◌^◌, ◌≤◌, ◌<◌, min, max, bit_and, bit_or, bit_xor, ◌≡◌,
  ◌≢◌, inl, inr, refl, arith, ltb, ap, sym, ◌∙◌, Bool-cases, ltb→lt, not_ltb→le,
}
use slash.Word.{bit, zeros_above, leading_zeros}
use slash.Word.Step.{bit_and_step, zero-bit_and, bit_or_step, bit_xor_step}

-- Bit `j + 1` of a number is bit `j` of its half.
pub bit-suc : (w j : ℕ) → bit w (suc j) ≡ bit (w / 2) j
bit-suc w j = rw (pow-succ' 2 j, ← div-div-eq-div-mul w 2 (2 ^ j)) refl

pub bit-zero : (w : ℕ) → bit w 0 ≡ w % 2
bit-zero w = omega arith

pub bit-lt : (w j : ℕ) → bit w j < 2
bit-lt w j = omega arith

pub differ_bits : (x y : ℕ) → x < 2 → y < 2 → differ x y ≡ (x + y) % 2
differ_bits zero y hx hy = omega arith
differ_bits (suc zero) zero hx hy = omega arith
differ_bits (suc zero) (suc zero) hx hy = refl
differ_bits (suc zero) (suc (suc y)) hx hy = absurd (omega arith)
differ_bits (suc (suc x)) y hx hy = absurd (omega arith)

bit_xor_step_sum : (a b : ℕ) → bit_xor a b ≡ bit_xor (a / 2) (b / 2) * 2 + (a % 2 + b % 2) % 2
bit_xor_step_sum a b =
    omega (arith, bit_xor_step a b, differ_bits (a % 2) (b % 2) (omega arith) (omega arith))

-- The bits of `a & b`.
pub bit_and-bit : (j a b : ℕ) → bit (bit_and a b) j ≡ min (bit a j) (bit b j)
bit_and-bit zero a b = omega (arith, bit_and_step a b)
bit_and-bit (suc j) a b =
    let half : bit_and a b / 2 ≡ bit_and (a / 2) (b / 2) = omega (arith, bit_and_step a b) in
    rw (bit-suc (bit_and a b) j, bit-suc a j, bit-suc b j, half) (bit_and-bit j (a / 2) (b / 2))

-- The bits of `a | b`.
pub bit_or-bit : (j a b : ℕ) → bit (bit_or a b) j ≡ max (bit a j) (bit b j)
bit_or-bit zero a b = omega (arith, bit_or_step a b)
bit_or-bit (suc j) a b =
    let half : bit_or a b / 2 ≡ bit_or (a / 2) (b / 2) = omega (arith, bit_or_step a b) in
    rw (bit-suc (bit_or a b) j, bit-suc a j, bit-suc b j, half) (bit_or-bit j (a / 2) (b / 2))

-- The bits of `a ^ b`.
pub bit_xor-bit : (j a b : ℕ) → bit (bit_xor a b) j ≡ (bit a j + bit b j) % 2
bit_xor-bit zero a b = omega (arith, bit_xor_step_sum a b)
bit_xor-bit (suc j) a b =
    let half : bit_xor a b / 2 ≡ bit_xor (a / 2) (b / 2) = omega (arith, bit_xor_step_sum a b) in
    rw (bit-suc (bit_xor a b) j, bit-suc a j, bit-suc b j, half) (bit_xor-bit j (a / 2) (b / 2))

bit_and-zero : (n a : ℕ) → a ≤ n → bit_and a 0 ≡ 0
bit_and-zero n zero h = refl
bit_and-zero zero (suc a) h = absurd (omega arith)
bit_and-zero (suc n) (suc a) h =
    omega (arith, bit_and_step (suc a) 0, bit_and-zero n (suc a / 2) (omega arith))

-- `x & 1`.
pub bit_and-one : (a : ℕ) → bit_and a 1 ≡ a % 2
bit_and-one a = omega (arith, bit_and_step a 1, bit_and-zero a (a / 2) (omega arith))

bit_and-le_fuel : (n a b : ℕ) → a ≤ n → bit_and a b ≤ a
bit_and-le_fuel n zero b h = omega (arith, zero-bit_and b)
bit_and-le_fuel zero (suc a) b h = absurd (omega arith)
bit_and-le_fuel (suc n) (suc a) b h =
    omega (arith, bit_and_step (suc a) b, bit_and-le_fuel n (suc a / 2) (b / 2) (omega arith))

pub bit_and-le : (a b : ℕ) → bit_and a b ≤ a
bit_and-le a b = bit_and-le_fuel a a b (omega arith)

-- A number below 2 ^ k is known by its low `k` bits.
pub bits_ext : (k a b : ℕ) → a < 2 ^ k → b < 2 ^ k → ((j : ℕ) → j < k → bit a j ≡ bit b j) → a ≡ b
bits_ext zero a b ha hb h = omega arith
bits_ext (suc k) a b ha hb h =
    let ih : a / 2 ≡ b / 2 =
      bits_ext k (a / 2) (b / 2) (omega (arith, pow-succ' 2 k)) (omega (arith, pow-succ' 2 k))
        (λ j hj. rw (← bit-suc a j, ← bit-suc b j) (h (suc j) (omega arith))) in
    omega (arith, h 0 (omega arith))

pub bit-of_zero : (j : ℕ) → bit 0 j ≡ 0
bit-of_zero zero = refl
bit-of_zero (suc j) = rw (bit-suc 0 j) (bit-of_zero j)

-- The bits of a number below 2 ^ k from the k-th on are 0.
pub bit_of_small : (k w j : ℕ) → w < 2 ^ k → k ≤ j → bit w j ≡ 0
bit_of_small zero w j h le = let e : w ≡ 0 = omega arith in rw e (bit-of_zero j)
bit_of_small (suc k) w zero h le = absurd (omega arith)
bit_of_small (suc k) w (suc j) h le =
    rw (bit-suc w j) (bit_of_small k (w / 2) j (omega (arith, pow-succ' 2 k)) (omega arith))

bit_top : (k w : ℕ) → w < 2 ^ suc k → 2 ^ k ≤ w → bit w k ≡ 1
bit_top zero w h le = omega arith
bit_top (suc k) w h le =
    rw (bit-suc w k)
      (bit_top k (w / 2) (omega (arith, pow-succ' 2 (suc k))) (omega (arith, pow-succ' 2 k)))

-- All bits above the `leading_zeros` are 0, and the next one is 1.
pub zeros_above_lem :
    (k x : ℕ)
    → x < 2 ^ k
    → (zeros_above k x ≤ k)
      × ((j : ℕ) → k ≤ j + zeros_above k x → bit x j ≡ 0)
      × ((j : ℕ) → j + 1 + zeros_above k x ≡ k → bit x j ≡ 1)
unfolding zeros_above
zeros_above_lem zero x h =
    (omega arith, λ j p. bit_of_small 0 x j h (omega arith), λ j p. absurd (omega arith))
zeros_above_lem (suc k) x h = elim (Bool-cases (ltb x (2 ^ k))) [
  | inl small ↦
      let rec = zeros_above_lem k x (ltb→lt _ _ small) in
      rw small (omega arith, λ j p. rec.1 j (omega arith), λ j p. rec.2 j (omega arith))
  | inr big ↦ rw big (
    omega arith,
    λ j p. bit_of_small (suc k) x j h (omega arith),
    λ j p. let e : j ≡ k = omega arith in rw e (bit_top k x h (not_ltb→le _ _ big)),
  )
]

pub bit_xor-lt : (k a b : ℕ) → a < 2 ^ k → b < 2 ^ k → bit_xor a b < 2 ^ k
bit_xor-lt zero a b ha hb =
    let ea : a ≡ 0 = omega arith in let eb : b ≡ 0 = omega arith in rw (ea, eb) (omega arith)
bit_xor-lt (suc k) a b ha hb = omega (
  arith,
  bit_xor_step_sum a b,
  pow-succ' 2 k,
  bit_xor-lt k (a / 2) (b / 2) (omega (arith, pow-succ' 2 k)) (omega (arith, pow-succ' 2 k)),
)

-- `a ^ b` is 0 for equal words only.
pub eq_of_xor-zero : (a b : ℕ) → a < 2 ^ 32 → b < 2 ^ 32 → bit_xor a b ≡ 0 → a ≡ b
eq_of_xor-zero a b ha hb e = bits_ext 32 a b ha hb λ j hj.
    let z : bit (bit_xor a b) j ≡ 0 = rw e (bit-of_zero j) in
    omega (arith, bit_xor-bit j a b, bit-lt a j, bit-lt b j)

-- What `(a ^ b).leading_zeros()` tells of two words: they agree above, and differ at that place.
pub leading_zeros-xor :
    (a b : ℕ)
    → a < 2 ^ 32
    → b < 2 ^ 32
    → bit_xor a b ≢ 0
    → let l = leading_zeros (bit_xor a b) in
      (l < 32)
      × ((i : ℕ) → i < l → bit a (31 - i) ≡ bit b (31 - i))
      × (bit a (31 - l) ≢ bit b (31 - l))
unfolding leading_zeros
leading_zeros-xor a b ha hb ne =
    let x = bit_xor a b in
    let z = zeros_above_lem 32 x (bit_xor-lt 32 a b ha hb) in
    let below : zeros_above 32 x < 32 = elim (dec_lt (zeros_above 32 x) 32) [
      | yes h ↦ h
      | no h ↦ absurd (
          ne (
            bits_ext 32 x 0 (bit_xor-lt 32 a b ha hb) (omega arith)
              λ j hj. z.1 j (omega arith) ∙ sym (bit-of_zero j)))
    ] in
    (
      below,
      λ i hi. omega (
        arith,
        bit_xor-bit (31 - i) a b,
        z.1 (31 - i) (omega arith),
        bit-lt a (31 - i),
        bit-lt b (31 - i),
      ),
      λ e. omega (
        arith,
        e,
        bit_xor-bit (31 - zeros_above 32 x) a b,
        z.2 (31 - zeros_above 32 x) (omega arith),
      ),
    )

bit_or-zero : (n a : ℕ) → a ≤ n → bit_or a 0 ≡ a
bit_or-zero n zero h = refl
bit_or-zero zero (suc a) h = absurd (omega arith)
bit_or-zero (suc n) (suc a) h =
    omega (arith, bit_or_step (suc a) 0, bit_or-zero n (suc a / 2) (omega arith))

-- `(q << k) | r` is a sum where `r` has at most `k` bits.
pub bit_or_fields : (k q r : ℕ) → r < 2 ^ k → bit_or (q * 2 ^ k) r ≡ q * 2 ^ k + r
bit_or_fields zero q r h =
    let e : r ≡ 0 = omega arith in
    rw e (bit_or-zero (q * 2 ^ 0) (q * 2 ^ 0) (omega arith) ∙ omega arith)
bit_or_fields (suc k) q r h =
    let double : q * 2 ^ suc k ≡ 2 * (q * 2 ^ k) =
      omega (arith, ap (λ (t : ℕ). q * t) (pow-succ' 2 k)) in
    let half : q * 2 ^ suc k / 2 ≡ q * 2 ^ k = omega arith in
    let rec : bit_or (q * 2 ^ suc k / 2) (r / 2) ≡ q * 2 ^ k + r / 2 =
      rw half (bit_or_fields k q (r / 2) (omega (arith, pow-succ' 2 k))) in
    omega (arith, bit_or_step (q * 2 ^ suc k) r)
