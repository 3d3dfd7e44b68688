-- ===== src/Address/Agree.antt =====
-- What the operations of `Address` mean for the 128 bits of an address, 0 the most significant.
use slash.Base.{
  ℕ, zero, suc, ◌+◌, ◌-◌, ◌*◌, ◌/◌, ◌%◌, ◌^◌, ◌≤◌, ◌<◌, min, bit_and, ◌≡◌, ◌≢◌, ◌⊎◌, inl, inr, refl,
  none, List, [], ◌∷◌, arith, ltb, ◌==◌, if◌then◌else◌, sym, ◌∙◌, Bool-cases, ==→eq,
}
use native.Mathlib.Decide.{dec_lt}
use slash.Base.Outcome.{done, panic, ◌>>=◌, expect}
use slash.Word.{bit, ◌>>>◌}
use slash.Word.Bits.{bits_ext, bit_and-one, bit-lt}
use slash.Address.{
  Address, address, words, word?, bit_at, common_prefix_len, masked, from_u32, from_u128,
}
use slash.Address.Words.{
  list_bit, list_bit-head, list_bit-tail, common_loop-IsCommon, masked_word-bit, masked_word-lt,
}

unfoldable pub address_bit : Address → ℕ → ℕ
address_bit a i = list_bit (words a) i

-- The words fit a `u32`.
abbrev pub IsAddress : Address → Type 0
IsAddress a = (a.w0 < 2 ^ 32) × (a.w1 < 2 ^ 32) × (a.w2 < 2 ^ 32) × (a.w3 < 2 ^ 32)

pub from_u32-IsAddress : (bits : ℕ) → bits < 2 ^ 32 → IsAddress (from_u32 bits)
unfolding from_u32
from_u32-IsAddress bits h = (h, omega arith, omega arith, omega arith)

pub from_u128-IsAddress : (n : ℕ) → IsAddress (from_u128 n)
unfolding from_u128
from_u128-IsAddress n = (omega arith, omega arith, omega arith, omega arith)

-- The first `n` bits are the same.
abbrev pub Agree : ℕ → Address → Address → Type 0
Agree n a b = (i : ℕ) → i < n → address_bit a i ≡ address_bit b i

pub address_bit-lt : (a : Address) (i : ℕ) → address_bit a i < 2
unfolding address_bit
address_bit-lt a i = ground (
  arith,
  bit-lt a.w0 (31 - i),
  bit-lt a.w1 (31 - (i - 32)),
  bit-lt a.w2 (31 - (i - 32 - 32)),
  bit-lt a.w3 (31 - (i - 32 - 32 - 32)),
)

abbrev tail_3 : Address → List ℕ
tail_3 a = a.w3 ∷ []

abbrev tail_2 : Address → List ℕ
tail_2 a = a.w2 ∷ tail_3 a

abbrev tail_1 : Address → List ℕ
tail_1 a = a.w1 ∷ tail_2 a

module _ (a : Address) (i r : ℕ) (h : r < 32) where
  pub word_0 : i ≡ r → address_bit a i ≡ bit a.w0 (31 - r)
  unfolding address_bit
  word_0 e = rw e (list_bit-head a.w0 (tail_1 a) r h)

  pub word_1 : i ≡ 32 + r → address_bit a i ≡ bit a.w1 (31 - r)
  unfolding address_bit
  word_1 e = list_bit-tail a.w0 (tail_1 a) i r e ∙ list_bit-head a.w1 (tail_2 a) r h

  pub word_2 : i ≡ 64 + r → address_bit a i ≡ bit a.w2 (31 - r)
  unfolding address_bit
  word_2 e =
      list_bit-tail a.w0 (tail_1 a) i (32 + r) (omega arith)
      ∙ list_bit-tail a.w1 (tail_2 a) (32 + r) r refl
      ∙ list_bit-head a.w2 (tail_3 a) r h

  pub word_3 : i ≡ 96 + r → address_bit a i ≡ bit a.w3 (31 - r)
  unfolding address_bit
  word_3 e =
      list_bit-tail a.w0 (tail_1 a) i (64 + r) (omega arith)
      ∙ list_bit-tail a.w1 (tail_2 a) (64 + r) (32 + r) (omega arith)
      ∙ list_bit-tail a.w2 (tail_3 a) (32 + r) r refl
      ∙ list_bit-head a.w3 [] r h

bit_at_word :
    (a : Address) (i q r : ℕ)
    → i < 128
    → i ≡ q * 32 + r
    → r < 32
    → (expect (word? a q) >>= λ w. done (bit_and (w >>> (31 - r)) 1)) ≡ done (address_bit a i)
bit_at_word a i zero r hi e hr = rw (bit_and-one, word_0 a i r hr (omega arith)) refl
bit_at_word a i (suc zero) r hi e hr = rw (bit_and-one, word_1 a i r hr (omega arith)) refl
bit_at_word a i (suc (suc zero)) r hi e hr = rw (bit_and-one, word_2 a i r hr (omega arith)) refl
bit_at_word a i (suc (suc (suc zero))) r hi e hr =
    rw (bit_and-one, word_3 a i r hr (omega arith)) refl
bit_at_word a i (suc (suc (suc (suc q)))) r hi e hr = absurd (omega arith)

-- `bit_at` returns the bit inside the address and panics outside.
pub bit_at_lem : (a : Address) (pos : ℕ) → pos < 128 → bit_at a pos ≡ done (address_bit a pos)
unfolding bit_at
bit_at_lem a pos h = bit_at_word a pos (pos / 32) (pos % 32) h (omega arith) (omega arith)

bit_at_outside : (a : Address) (q : ℕ) → 4 ≤ q → word? a q ≡ none
bit_at_outside a zero h = absurd (omega arith)
bit_at_outside a (suc zero) h = absurd (omega arith)
bit_at_outside a (suc (suc zero)) h = absurd (omega arith)
bit_at_outside a (suc (suc (suc zero))) h = absurd (omega arith)
bit_at_outside a (suc (suc (suc (suc q)))) h = refl

-- Bit_at panics at every position from 128 on.
pub bit_at-panic : (a : Address) (pos : ℕ) → 128 ≤ pos → bit_at a pos ≡ panic
unfolding bit_at
bit_at-panic a pos h = rw (bit_at_outside a (pos / 32) (omega arith)) refl

-- The common length: bounded by both lengths, all bits below it agree and the next ones, if both
-- have one, differ.
pub record IsCommonLen (a b : Address) (limit c : ℕ) : Type 0 where
  pub bounded : c ≤ limit
  pub agree : Agree c a b
  pub differ : c < limit → address_bit a c ≢ address_bit b c

pub common_prefix_len-IsCommonLen :
    (a b : Address) (n m : ℕ)
    → IsAddress a
    → IsAddress b
    → min n m ≤ 128
    → IsCommonLen a b (min n m) (common_prefix_len a n b m)
unfolding common_prefix_len address_bit
common_prefix_len-IsCommonLen a b n m ha hb h =
    let rec =
      common_loop-IsCommon (min n m) 0 (words a) (words b) (omega arith) (omega arith) refl
        (omega arith) in
    elim (Bool-cases (min n m == 0)) [
      | inl e ↦
          let z : min n m ≡ 0 = ==→eq _ _ e in
          rw e (record {
            bounded = omega arith;
            agree = λ i hi. absurd (omega arith);
            differ = λ p. absurd (omega arith);
          })
      | inr e ↦
          let z : 0 + rec.0 ≡ rec.0 = omega arith in
          rw (e, rec.1, z)
            (record {
              bounded = omega (arith, rec.2.bounded);
              agree = rec.2.agree;
              differ = λ p. rec.2.differ (omega arith) (omega arith);
            })
    ]

-- Which word a bit lies in, and where.
which_word :
    (i : ℕ)
    → (i < 32)
      ⊎ ((r : ℕ) × (r < 32) × (i ≡ 32 + r))
      ⊎ ((r : ℕ) × (r < 32) × (i ≡ 64 + r))
      ⊎ ((r : ℕ) × (i ≡ 96 + r))
which_word i = elim (dec_lt i 32) [
  | yes p ↦ inl p
  | no p ↦ elim (dec_lt i 64) [
    | yes q ↦ inr (inl (i - 32, omega arith, omega arith))
    | no q ↦ elim (dec_lt i 96) [
      | yes r ↦ inr (inr (inl (i - 64, omega arith, omega arith)))
      | no r ↦ inr (inr (inr (i - 96, omega arith)))
    ]
  ]
]

word_ext :
    (x y : ℕ)
    → x < 2 ^ 32
    → y < 2 ^ 32
    → ((r : ℕ) → r < 32 → bit x (31 - r) ≡ bit y (31 - r))
    → x ≡ y
word_ext x y hx hy same =
    bits_ext 32 x y hx hy
      λ j hj. let e : 31 - (31 - j) ≡ j = omega arith in rw e at (same (31 - j) (omega arith))

-- For an address of four words of 32 bits and a position below 128, masked keeps the bit below the
-- length and clears it from the length on.
pub masked-bit :
    (a : Address) (len i : ℕ)
    → IsAddress a
    → i < 128
    → address_bit (masked a len) i ≡ (if ltb i len then address_bit a i else 0)
unfolding masked
masked-bit a len i (h0, h1, h2, h3) hi = elim (which_word i) [
  | inl p ↦ first p
  | inr (inl p) ↦ second p
  | inr (inr (inl p)) ↦ third p
  | inr (inr (inr p)) ↦ last p
]
  where
    m : Address
    m = masked a len

    first : i < 32 → address_bit m i ≡ (if ltb i len then address_bit a i else 0)
    first p =
        let e : 0 + i ≡ i = omega arith in
        rw (word_0 m i i p refl, word_0 a i i p refl, masked_word-bit len 0 a.w0 i h0 p, e) refl

    second :
        (r : ℕ) × (r < 32) × (i ≡ 32 + r)
        → address_bit m i ≡ (if ltb i len then address_bit a i else 0)
    second (r, hr, e) =
        rw (word_1 m i r hr e, word_1 a i r hr e, masked_word-bit len 32 a.w1 r h1 hr, ← e) refl

    third :
        (r : ℕ) × (r < 32) × (i ≡ 64 + r)
        → address_bit m i ≡ (if ltb i len then address_bit a i else 0)
    third (r, hr, e) =
        rw (word_2 m i r hr e, word_2 a i r hr e, masked_word-bit len 64 a.w2 r h2 hr, ← e) refl

    last : (r : ℕ) × (i ≡ 96 + r) → address_bit m i ≡ (if ltb i len then address_bit a i else 0)
    last (r, e) =
        let hr : r < 32 = omega arith in
        rw (word_3 m i r hr e, word_3 a i r hr e, masked_word-bit len 96 a.w3 r h3 hr, ← e) refl

pub masked-IsAddress : (a : Address) (len : ℕ) → IsAddress a → IsAddress (masked a len)
unfolding masked
masked-IsAddress a len (h0, h1, h2, h3) = (
  masked_word-lt len 0 a.w0 h0,
  masked_word-lt len 32 a.w1 h1,
  masked_word-lt len 64 a.w2 h2,
  masked_word-lt len 96 a.w3 h3,
)

-- An address is known by its bits.
pub address_ext : (a b : Address) → IsAddress a → IsAddress b → Agree 128 a b → a ≡ b
address_ext a b (a0, a1, a2, a3) (b0, b1, b2, b3) same = λ i. address (e0 i) (e1 i) (e2 i) (e3 i)
  where
    e0 : a.w0 ≡ b.w0
    e0 =
        word_ext a.w0 b.w0 a0 b0
          λ r h. sym (word_0 a r r h refl) ∙ same r (omega arith) ∙ word_0 b r r h refl

    e1 : a.w1 ≡ b.w1
    e1 = word_ext a.w1 b.w1 a1 b1 λ r h.
        sym (word_1 a (32 + r) r h refl) ∙ same (32 + r) (omega arith) ∙ word_1 b (32 + r) r h refl

    e2 : a.w2 ≡ b.w2
    e2 = word_ext a.w2 b.w2 a2 b2 λ r h.
        sym (word_2 a (64 + r) r h refl) ∙ same (64 + r) (omega arith) ∙ word_2 b (64 + r) r h refl

    e3 : a.w3 ≡ b.w3
    e3 = word_ext a.w3 b.w3 a3 b3 λ r h.
        sym (word_3 a (96 + r) r h refl) ∙ same (96 + r) (omega arith) ∙ word_3 b (96 + r) r h refl
