-- ===== src/Address/Words.antt =====
-- The loops of `common_prefix_len` and `masked` over a list of words, bit by bit.
use slash.Base.{
  ℕ, zero, suc, ◌+◌, ◌-◌, ◌*◌, ◌^◌, ◌≤◌, ◌<◌, min, bit_xor, ◌≡◌, ◌≢◌, inl, inr, refl, Bool, true,
  ◌&&◌, List, [], ◌∷◌, arith, ltb, leb, ◌==◌, if◌then◌else◌, Bool-cases, ltb→lt, not_ltb→le, lt→ltb,
  le→not_ltb, ==→eq, length, All,
}
use slash.Word.{bit, ◌<<<◌, all_ones, leading_zeros}
use slash.Word.Bits.{
  leading_zeros-xor, eq_of_xor-zero, bit_and-bit, bit-of_zero, bit-lt, bit_and-le,
}
use slash.Address.{common_loop, masked_word}

-- Bit `i` of a list of words, 0 the most significant of the first.
abbrev pub list_bit : List ℕ → ℕ → ℕ
list_bit [] i = 0
list_bit (w ∷ ws) i = if ltb i 32 then bit w (31 - i) else list_bit ws (i - 32)

pub list_bit-head : (w : ℕ) (ws : List ℕ) (i : ℕ) → i < 32 → list_bit (w ∷ ws) i ≡ bit w (31 - i)
list_bit-head w ws i h = ground arith

pub list_bit-tail :
    (w : ℕ) (ws : List ℕ) (i k : ℕ) → i ≡ 32 + k → list_bit (w ∷ ws) i ≡ list_bit ws k
list_bit-tail w ws i k e =
    let k' : i - 32 ≡ k = omega arith in rw (le→not_ltb i 32 (omega arith), k') refl

abbrev pub AreWords : List ℕ → Type 0
AreWords = All (λ w. w < 2 ^ 32)

-- `c` bits are common, at most `limit`, and no more are.
pub record IsCommon (xs ys : List ℕ) (limit c : ℕ) : Type 0 where
  pub bounded : c ≤ limit
  pub agree : (i : ℕ) → i < c → list_bit xs i ≡ list_bit ys i
  pub differ : c < limit → c < 32 * length xs → list_bit xs c ≢ list_bit ys c

module _ (x y : ℕ) (xs ys : List ℕ) (limit : ℕ) where
  IsCommon-same :
      (c : ℕ)
      → x ≡ y
      → IsCommon xs ys (limit - min 32 limit) c
      → IsCommon (x ∷ xs) (y ∷ ys) limit (min 32 limit + c)
  IsCommon-same c e rest = record {
    bounded = omega (arith, rest.bounded);
    agree = λ i hi. ground (arith, rest.agree (i - 32), rest.bounded);
    differ = λ h1 h2.
        let k : min 32 limit + c ≡ 32 + c = omega arith in
        let k' : 32 + c - 32 ≡ c = omega arith in
        rw (k, le→not_ltb (32 + c) 32 (omega arith), k') (rest.differ (omega arith) (omega arith));
  }

  IsCommon-differ :
      x < 2 ^ 32
      → y < 2 ^ 32
      → bit_xor x y ≢ 0
      → IsCommon (x ∷ xs) (y ∷ ys) limit (min (leading_zeros (bit_xor x y)) limit)
  IsCommon-differ hx hy ne =
      let z = leading_zeros-xor x y hx hy ne in
      record {
        bounded = omega arith;
        agree = λ i hi. ground (arith, z.1 i, z.0);
        differ = λ h1 h2.
            let l = leading_zeros (bit_xor x y) in
            let k : min l limit ≡ l = omega arith in rw (k, lt→ltb l 32 z.0) z.2;
      }

-- The loop returns what it was given and the common bits of the words that are left.
pub common_loop-IsCommon :
    (mx common : ℕ) (xs ys : List ℕ)
    → AreWords xs
    → AreWords ys
    → length xs ≡ length ys
    → common ≤ mx
    → (c : ℕ) × (common_loop mx xs ys common ≡ common + c) × IsCommon xs ys (mx - common) c
unfolding common_loop
common_loop-IsCommon mx common [] ys hx hy hl le = (
  0,
  omega arith,
  record {
    bounded = omega arith;
    agree = λ i h. absurd (omega arith);
    differ = λ p q. absurd (omega arith);
  },
)
common_loop-IsCommon mx common (x ∷ xs) [] hx hy hl le = absurd (omega arith)
common_loop-IsCommon mx common (x ∷ xs) (y ∷ ys) hx hy hl le = elim (Bool-cases (leb mx common)) [
  | inl full ↦ (
    0,
    rw full (omega arith),
    record {
      bounded = omega arith;
      agree = λ i h. absurd (omega arith);
      differ = λ p q. ground arith;
    },
  )
  | inr more ↦ elim (Bool-cases (bit_xor x y == 0)) [
    | inl same ↦
        let rec =
          common_loop-IsCommon mx (common + min 32 (mx - common)) xs ys hx.1 hy.1 (omega arith)
            (omega arith) in
        let e : mx - (common + min 32 (mx - common)) ≡ mx - common - min 32 (mx - common) =
          omega arith in
        (
          min 32 (mx - common) + rec.0,
          rw (more, same) (omega (arith, rec.1)),
          IsCommon-same x y xs ys (mx - common) rec.0
              (eq_of_xor-zero x y hx.0 hy.0 (==→eq _ _ same)) (rw e at rec.2),
        )
    | inr other ↦ (
      min (leading_zeros (bit_xor x y)) (mx - common),
      rw (more, other) refl,
      IsCommon-differ x y xs ys (mx - common) hx.0 hy.0 (ground arith),
    )
  ]
]

-- Bit `j` of `!0 << shift`, over every shift of a word.
abbrev mask_row : ℕ → ℕ → Bool
mask_row s j = bit (all_ones <<< s) j == (if ltb j s then 0 else 1)

-- Whether a test passes at every number up to, but without, the bound.
abbrev pub passes : (ℕ → Bool) → ℕ → Bool
passes test zero = true
passes test (suc m) = passes test m && test m

pub passes_at : (test : ℕ → Bool) (m i : ℕ) → i < m → passes test m ≡ true → test i ≡ true
passes_at test (suc m) i small all = ground (arith, passes_at test m i)
passes_at test zero i small all = absurd (omega arith)

mask_table : passes (λ s. passes (mask_row s) 32) 32 ≡ true
mask_table = refl

mask_bit : (s j : ℕ) → s < 32 → j < 32 → bit (all_ones <<< s) j ≡ (if ltb j s then 0 else 1)
mask_bit s j hs hj =
    ==→eq _ _
      (passes_at (mask_row s) 32 j hj (passes_at (λ s. passes (mask_row s) 32) 32 s hs mask_table))

pub masked_word-bit :
    (len start w i : ℕ)
    → w < 2 ^ 32
    → i < 32
    → bit (masked_word len start w) (31 - i) ≡ (if ltb (start + i) len then bit w (31 - i) else 0)
unfolding masked_word
masked_word-bit len start w i hw hi = elim (Bool-cases (leb len start)) [
  | inl out ↦
      let o : len ≤ start = ground arith in
      rw (out, le→not_ltb (start + i) len (omega arith)) (bit-of_zero (31 - i))
  | inr some_in ↦ elim (Bool-cases (ltb len (start + 32))) [
    | inl cut ↦
        let lo : start < len = ground arith in
        let hi' : len < start + 32 = ltb→lt _ _ cut in
        let s = 32 - (len - start) in
        rw
          (
            some_in,
            cut,
            bit_and-bit (31 - i) w (all_ones <<< s),
            mask_bit s (31 - i) (omega arith) (omega arith),
          )
          (ground (arith, bit-lt w (31 - i)))
    | inr whole ↦
        let hi' : start + 32 ≤ len = not_ltb→le _ _ whole in
        rw (some_in, whole, lt→ltb (start + i) len (omega arith)) refl
  ]
]

pub masked_word-lt : (len start w : ℕ) → w < 2 ^ 32 → masked_word len start w < 2 ^ 32
unfolding masked_word
masked_word-lt len start w hw = ground (arith, bit_and-le w (all_ones <<< (32 - (len - start))))
