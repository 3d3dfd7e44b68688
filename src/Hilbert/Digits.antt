-- ===== src/Hilbert/Digits.antt =====
-- What the bit operations of crates/core/src/hilbert.rs do to the 64 bits of an axis and to the 128
-- bits of an index, 0 the least significant.
use native.Mathlib.Nat.{pow-succ'}
use slash.Base.{
  ℕ, zero, suc, ◌+◌, ◌-◌, ◌*◌, ◌/◌, ◌%◌, ◌^◌, ◌≤◌, ◌<◌, ◌≡◌, bit_or, bit_xor, true, refl, arith,
  Bool, ltb, ◌==◌, if◌then◌else◌, inl, inr, Bool-cases, ltb→lt, not_ltb→le, ==→eq, sym, ◌∙◌,
}
use slash.Base.Outcome.{done}
use slash.Word.{bit, ◌<<<◌, all_ones}
use slash.Word.Step.{bit_or_step}
use slash.Word.Bits.{bit_or-bit, bit_xor-bit, bit_and-one, bit_xor-lt, bits_ext, bit-lt}
use slash.Address.Words.{passes, passes_at}
use slash.Hilbert.{Axis, axis, axis_bit, set_axis_bit, complement_low_axis_bits, low_bit_mask, flip}

-- A test of two numbers below bounds, from the table of its values.
table_at :
    (test : ℕ → ℕ → Bool) (m n i j : ℕ)
    → i < m
    → j < n
    → passes (λ s. passes (test s) n) m ≡ true
    → test i j ≡ true
table_at test m n i j hi hj all =
    passes_at (test i) n j hj (passes_at (λ s. passes (test s) n) m i hi all)

abbrev one_row : ℕ → ℕ → Bool
one_row k j = bit (1 <<< k) j == (if j == k then 1 else 0)

one_table : passes (λ k. passes (one_row k) 32) 32 ≡ true
one_table = refl

one_bit : (k j : ℕ) → k < 32 → j < 32 → bit (1 <<< k) j ≡ (if j == k then 1 else 0)
one_bit k j hk hj = ==→eq _ _ (table_at one_row 32 32 k j hk hj one_table)

abbrev mask_row : ℕ → ℕ → Bool
mask_row n j = bit (low_bit_mask n) j == (if ltb j n then 1 else 0)

mask_table : passes (λ n. passes (mask_row n) 32) 65 ≡ true
unfolding low_bit_mask
mask_table = refl

mask_bit : (n j : ℕ) → n < 65 → j < 32 → bit (low_bit_mask n) j ≡ (if ltb j n then 1 else 0)
mask_bit n j hn hj = ==→eq _ _ (table_at mask_row 65 32 n j hn hj mask_table)

abbrev mask_small : ℕ → Bool
mask_small n = ltb (low_bit_mask n) (2 ^ 32)

mask_small_table : passes mask_small 65 ≡ true
unfolding low_bit_mask
mask_small_table = refl

mask-lt : (n : ℕ) → n < 65 → low_bit_mask n < 2 ^ 32
mask-lt n hn = ltb→lt _ _ (passes_at mask_small 65 n hn mask_small_table)

full_mask : low_bit_mask 64 ≡ all_ones
unfolding low_bit_mask
full_mask = refl

pub bit_or-lt : (k a b : ℕ) → a < 2 ^ k → b < 2 ^ k → bit_or a b < 2 ^ k
bit_or-lt zero a b ha hb =
    let ea : a ≡ 0 = omega arith in let eb : b ≡ 0 = omega arith in rw (ea, eb) (omega arith)
bit_or-lt (suc k) a b ha hb = omega (
  arith,
  bit_or_step a b,
  pow-succ' 2 k,
  bit_or-lt k (a / 2) (b / 2) (omega (arith, pow-succ' 2 k)) (omega (arith, pow-succ' 2 k)),
)

one-lt : (k : ℕ) → 1 <<< k < 2 ^ 32
one-lt k = omega arith

-- A word with one bit set.
pub set_bit-lt : (w k : ℕ) → w < 2 ^ 32 → bit_or w (1 <<< k) < 2 ^ 32
set_bit-lt w k hw = bit_or-lt 32 w (1 <<< k) hw (one-lt k)

pub set_bit-bit :
    (w k j : ℕ) → k < 32 → j < 32 → bit (bit_or w (1 <<< k)) j ≡ (if j == k then 1 else bit w j)
set_bit-bit w k j hk hj =
    rw (bit_or-bit j w (1 <<< k), one_bit k j hk hj) (ground (arith, bit-lt w j))

-- A word with its low bits complemented.
mask_xor-bit :
    (w n j : ℕ)
    → n < 65
    → j < 32
    → bit (bit_xor w (low_bit_mask n)) j ≡ (if ltb j n then 1 - bit w j else bit w j)
mask_xor-bit w n j hn hj =
    rw (bit_xor-bit j w (low_bit_mask n), mask_bit n j hn hj) (ground (arith, bit-lt w j))

mask_xor-lt : (w n : ℕ) → n < 65 → w < 2 ^ 32 → bit_xor w (low_bit_mask n) < 2 ^ 32
mask_xor-lt w n hn hw = bit_xor-lt 32 w (low_bit_mask n) hw (mask-lt n hn)

abbrev pub IsAxis : Axis → Type 0
IsAxis a = (a.a0 < 2 ^ 32) × (a.a1 < 2 ^ 32)

unfoldable pub axis_digit : Axis → ℕ → ℕ
axis_digit a j = if ltb j 32 then bit a.a1 j else bit a.a0 (j - 32)

pub axis_digit-lt : (a : Axis) (j : ℕ) → axis_digit a j < 2
unfolding axis_digit
axis_digit-lt a j = ground (arith, bit-lt a.a1 j, bit-lt a.a0 (j - 32))

pub low_digit : (a : Axis) (j : ℕ) → j < 32 → axis_digit a j ≡ bit a.a1 j
unfolding axis_digit
low_digit a j h = ground arith

pub high_digit : (a : Axis) (j r : ℕ) → j ≡ 32 + r → axis_digit a j ≡ bit a.a0 r
unfolding axis_digit
high_digit a j r e = let s : j - 32 ≡ r = omega arith in rw s (ground arith)

axis_bit_lem_at :
    (a : Axis) (b q r : ℕ)
    → b ≡ 32 * q + r
    → r < 32
    → b / 32 ≡ q
    → b % 32 ≡ r
    → b < 64
    → axis_bit a b ≡ done (axis_digit a b)
unfolding axis_bit
axis_bit_lem_at a b zero r e hr eq er h =
    rw (eq, er, low_digit a b (omega arith), bit_and-one) (let s : b ≡ r = omega arith in rw s refl)
axis_bit_lem_at a b (suc zero) r e hr eq er h =
    rw (eq, er, high_digit a b r (omega arith), bit_and-one) refl
axis_bit_lem_at a b (suc (suc q)) r e hr eq er h = absurd (omega arith)

-- `axis_bit` reads the digit.
pub axis_bit_lem : (a : Axis) (b : ℕ) → b < 64 → axis_bit a b ≡ done (axis_digit a b)
axis_bit_lem a b h = axis_bit_lem_at a b (b / 32) (b % 32) (omega arith) (omega arith) refl refl h

-- One axis is another with the digit `b` set.
pub record HasDigit (b : ℕ) (a a' : Axis) : Type 0 where
  pub fits : IsAxis a'
  pub digits : (j : ℕ) → j < 64 → axis_digit a' j ≡ (if j == b then 1 else axis_digit a j)

set_low : (a : Axis) (r : ℕ) → IsAxis a → r < 32 → HasDigit r a (axis a.a0 (bit_or a.a1 (1 <<< r)))
unfolding axis_digit
set_low a r h hr = record {
  fits = (h.0, set_bit-lt a.a1 r h.1);
  digits = λ j hj. elim (Bool-cases (ltb j 32)) [
    | inl low ↦ rw (low, set_bit-bit a.a1 r j hr (ltb→lt _ _ low)) refl
    | inr high ↦ let o : 32 ≤ j = not_ltb→le _ _ high in rw high (ground arith)
  ];
}

set_high :
    (a : Axis) (b r : ℕ)
    → IsAxis a
    → r < 32
    → b ≡ 32 + r
    → HasDigit b a (axis (bit_or a.a0 (1 <<< r)) a.a1)
unfolding axis_digit
set_high a b r h hr e = record {
  fits = (set_bit-lt a.a0 r h.0, h.1);
  digits = λ j hj. elim (Bool-cases (ltb j 32)) [
    | inl low ↦ rw low (ground arith)
    | inr high ↦
        let o : 32 ≤ j = not_ltb→le _ _ high in
        rw (high, set_bit-bit a.a0 r (j - 32) hr (omega arith)) (ground arith)
  ];
}

set_axis_bit_at :
    (a : Axis) (b q r : ℕ)
    → IsAxis a
    → b ≡ 32 * q + r
    → r < 32
    → b / 32 ≡ q
    → b % 32 ≡ r
    → b < 64
    → (a' : Axis) × (set_axis_bit a b ≡ done a') × HasDigit b a a'
unfolding set_axis_bit
set_axis_bit_at a b zero r ha e hr eq er h = (
  axis a.a0 (bit_or a.a1 (1 <<< r)),
  rw (eq, er) refl,
  (let s : b ≡ r = omega arith in rw s (set_low a r ha hr)),
)
set_axis_bit_at a b (suc zero) r ha e hr eq er h =
    (axis (bit_or a.a0 (1 <<< r)) a.a1, rw (eq, er) refl, set_high a b r ha hr (omega arith))
set_axis_bit_at a b (suc (suc q)) r ha e hr eq er h = absurd (omega arith)

-- `set_axis_bit` sets the digit, and no other.
pub set_axis_bit_lem :
    (a : Axis) (b : ℕ)
    → IsAxis a
    → b < 64
    → (a' : Axis) × (set_axis_bit a b ≡ done a') × HasDigit b a a'
set_axis_bit_lem a b ha h =
    set_axis_bit_at a b (b / 32) (b % 32) ha (omega arith) (omega arith) refl refl h

pub complement-IsAxis :
    (a : Axis) (k : ℕ) → k < 65 → IsAxis a → IsAxis (complement_low_axis_bits a k)
unfolding complement_low_axis_bits
complement-IsAxis a k hk h =
    (mask_xor-lt a.a0 (k - 32) (omega arith) h.0, mask_xor-lt a.a1 k hk h.1)

-- `complement_low_axis_bits` turns the digits below `k` over.
pub complement-digit :
    (a : Axis) (k j : ℕ)
    → k < 65
    → j < 64
    → axis_digit (complement_low_axis_bits a k) j
      ≡ (if ltb j k then 1 - axis_digit a j else axis_digit a j)
unfolding axis_digit complement_low_axis_bits
complement-digit a k j hk hj = elim (Bool-cases (ltb j 32)) [
  | inl low ↦ rw (low, mask_xor-bit a.a1 k j hk (ltb→lt _ _ low)) refl
  | inr high ↦
      let o : 32 ≤ j = not_ltb→le _ _ high in
      rw (high, mask_xor-bit a.a0 (k - 32) (j - 32) (omega arith) (omega arith)) (ground arith)
]

flip_complement : (a : Axis) → flip a ≡ complement_low_axis_bits a 64
unfolding complement_low_axis_bits low_bit_mask
flip_complement a = refl

pub flip-IsAxis : (a : Axis) → IsAxis a → IsAxis (flip a)
unfolding complement_low_axis_bits low_bit_mask
flip-IsAxis a h = complement-IsAxis a 64 (omega arith) h

pub flip-digit : (a : Axis) (j : ℕ) → j < 64 → axis_digit (flip a) j ≡ 1 - axis_digit a j
flip-digit a j hj = rw (flip_complement a, complement-digit a 64 j (omega arith) hj) (ground arith)

-- An axis is known by its digits.
pub axis_ext :
    (a b : Axis)
    → IsAxis a
    → IsAxis b
    → ((j : ℕ) → j < 64 → axis_digit a j ≡ axis_digit b j)
    → a ≡ b
axis_ext a b ha hb same = λ i. axis (high i) (low i)
  where
    low : a.a1 ≡ b.a1
    low =
        bits_ext 32 a.a1 b.a1 ha.1 hb.1
          λ j h. sym (low_digit a j h) ∙ same j (omega arith) ∙ low_digit b j h

    high : a.a0 ≡ b.a0
    high = bits_ext 32 a.a0 b.a0 ha.0 hb.0 λ j h.
        sym (high_digit a (32 + j) j refl)
        ∙ same (32 + j) (omega arith)
        ∙ high_digit b (32 + j) j refl
