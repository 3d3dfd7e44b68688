-- ===== src/Hilbert/Index.antt =====
-- The 128 digits of an index on the curve of crates/core/src/hilbert.rs, 0 the least significant.
use slash.Base.{
  ℕ, zero, suc, ◌+◌, ◌-◌, ◌*◌, ◌/◌, ◌%◌, ◌^◌, ◌<◌, ◌≡◌, bit_or, some, refl, arith, ltb, ◌==◌,
  if◌then◌else◌, false, inl, inr, Bool-cases, ==→eq, subst, sym, ◌∙◌,
}
use slash.Base.Outcome.{done}
use slash.Word.{bit, ◌<<<◌}
use slash.Word.Bits.{bit_and-one, bits_ext, bit-lt}
use slash.Address.{Address, address, word?}
use slash.Address.Agree.{IsAddress, address_bit, word_0, word_1, word_2, word_3}
use slash.Hilbert.{index_bit, set_index_bit, set_word}
use slash.Hilbert.Digits.{set_bit-lt, set_bit-bit}

unfoldable pub index_digit : Address → ℕ → ℕ
index_digit d j =
    if ltb j 32
    then bit d.w3 j
    else (if ltb j 64
        then bit d.w2 (j - 32)
        else (if ltb j 96 then bit d.w1 (j - 64) else bit d.w0 (j - 96)))

pub index_digit-lt : (d : Address) (j : ℕ) → index_digit d j < 2
unfolding index_digit
index_digit-lt d j =
    ground (arith, bit-lt d.w3 j, bit-lt d.w2 (j - 32), bit-lt d.w1 (j - 64), bit-lt d.w0 (j - 96))

-- The word of an index that holds the digits from `32 * q` on.
unfoldable pub word_of : Address → ℕ → ℕ
word_of d q = if q == 0 then d.w3 else (if q == 1 then d.w2 else (if q == 2 then d.w1 else d.w0))

word_lem : (d : Address) (q : ℕ) → q < 4 → word? d (3 - q) ≡ some (word_of d q)
unfolding word_of
word_lem d zero h = refl
word_lem d (suc zero) h = refl
word_lem d (suc (suc zero)) h = refl
word_lem d (suc (suc (suc zero))) h = refl
word_lem d (suc (suc (suc (suc q)))) h = absurd (omega arith)

pub digit_at :
    (d : Address) (j q r : ℕ)
    → q < 4
    → r < 32
    → j ≡ 32 * q + r
    → index_digit d j ≡ bit (word_of d q) r
unfolding word_of index_digit
digit_at d j zero r hq hr e = let s : j ≡ r = omega arith in rw s (ground arith)
digit_at d j (suc zero) r hq hr e = let s : j - 32 ≡ r = omega arith in rw s (ground arith)
digit_at d j (suc (suc zero)) r hq hr e = let s : j - 64 ≡ r = omega arith in rw s (ground arith)
digit_at d j (suc (suc (suc zero))) r hq hr e =
    let s : j - 96 ≡ r = omega arith in rw s (ground arith)
digit_at d j (suc (suc (suc (suc q)))) r hq hr e = absurd (omega arith)

-- `index_bit` reads the digit.
pub index_bit_lem : (d : Address) (b : ℕ) → b < 128 → index_bit d b ≡ done (index_digit d b)
unfolding index_bit
index_bit_lem d b h =
    rw
      (
        word_lem d (b / 32) (omega arith),
        digit_at d b (b / 32) (b % 32) (omega arith) (omega arith) (omega arith),
        bit_and-one,
      )
      (ground arith)

-- One index is another with the digit `b` set.
pub record HasIndexDigit (b : ℕ) (d d' : Address) : Type 0 where
  pub fits : IsAddress d'
  pub digits : (j : ℕ) → j < 128 → index_digit d' j ≡ (if j == b then 1 else index_digit d j)

set_word_at : Address → ℕ → ℕ → Address
set_word_at d q r = set_word d (3 - q) (bit_or (word_of d q) (1 <<< r))

word_of-set_word_at :
    (d : Address) (q r p : ℕ)
    → q < 4
    → p < 4
    → word_of (set_word_at d q r) p
      ≡ (if p == q then bit_or (word_of d q) (1 <<< r) else word_of d p)
unfolding set_word_at word_of
word_of-set_word_at d zero r p hq hp = ground arith
word_of-set_word_at d (suc zero) r p hq hp = ground arith
word_of-set_word_at d (suc (suc zero)) r p hq hp = ground arith
word_of-set_word_at d (suc (suc (suc zero))) r p hq hp = ground arith
word_of-set_word_at d (suc (suc (suc (suc q)))) r p hq hp = absurd (omega arith)

set_word_at-IsAddress :
    (d : Address) (q r : ℕ) → IsAddress d → q < 4 → IsAddress (set_word_at d q r)
unfolding set_word_at word_of
set_word_at-IsAddress d zero r h hq = (h.0, h.1, h.2, set_bit-lt d.w3 r h.3)
set_word_at-IsAddress d (suc zero) r h hq = (h.0, h.1, set_bit-lt d.w2 r h.2, h.3)
set_word_at-IsAddress d (suc (suc zero)) r h hq = (h.0, set_bit-lt d.w1 r h.1, h.2, h.3)
set_word_at-IsAddress d (suc (suc (suc zero))) r h hq = (set_bit-lt d.w0 r h.0, h.1, h.2, h.3)
set_word_at-IsAddress d (suc (suc (suc (suc q)))) r h hq = absurd (omega arith)

set_digit :
    (d : Address) (q r p s : ℕ)
    → q < 4
    → r < 32
    → p < 4
    → s < 32
    → bit (word_of (set_word_at d q r) p) s
      ≡ (if 32 * p + s == 32 * q + r then 1 else bit (word_of d p) s)
set_digit d q r p s hq hr hp hs = elim (Bool-cases (p == q)) [
  | inl same ↦
      let e : p ≡ q = ==→eq _ _ same in
      rw (word_of-set_word_at d q r p hq hp, same, set_bit-bit (word_of d q) r s hr hs, e)
        (ground arith)
  | inr other ↦
      let n : (32 * p + s == 32 * q + r) ≡ false = ground arith in
      rw (word_of-set_word_at d q r p hq hp, other, n) refl
]

set_word_at-HasIndexDigit :
    (d : Address) (q r : ℕ)
    → IsAddress d
    → q < 4
    → r < 32
    → HasIndexDigit (32 * q + r) d (set_word_at d q r)
set_word_at-HasIndexDigit d q r h hq hr = record {
  fits = set_word_at-IsAddress d q r h hq;
  digits = λ j hj.
      let p : j / 32 < 4 = omega arith in
      let s : j % 32 < 32 = omega arith in
      let e : j ≡ 32 * (j / 32) + j % 32 = omega arith in
      rw
        (
          digit_at (set_word_at d q r) j (j / 32) (j % 32) p s e,
          digit_at d j (j / 32) (j % 32) p s e,
          set_digit d q r (j / 32) (j % 32) hq hr p s,
          ← e,
        )
        refl;
}

-- `set_index_bit` sets the digit, and no other.
pub set_index_bit_lem :
    (d : Address) (b : ℕ)
    → IsAddress d
    → b < 128
    → (d' : Address) × (set_index_bit d b ≡ done d') × HasIndexDigit b d d'
unfolding set_index_bit set_word_at
set_index_bit_lem d b hd h = (
  set_word_at d (b / 32) (b % 32),
  rw (word_lem d (b / 32) (omega arith)) (ground arith),
  (let e : b ≡ 32 * (b / 32) + b % 32 = omega arith in
      subst (λ (c : ℕ). HasIndexDigit c d (set_word_at d (b / 32) (b % 32))) (sym e)
        (set_word_at-HasIndexDigit d (b / 32) (b % 32) hd (omega arith) (omega arith))),
)

word_ext :
    (d e : Address) (q : ℕ)
    → q < 4
    → word_of d q < 2 ^ 32
    → word_of e q < 2 ^ 32
    → ((j : ℕ) → j < 128 → index_digit d j ≡ index_digit e j)
    → word_of d q ≡ word_of e q
word_ext d e q hq hd he same = bits_ext 32 (word_of d q) (word_of e q) hd he λ r hr.
    sym (digit_at d (32 * q + r) q r hq hr refl)
    ∙ same (32 * q + r) (omega arith)
    ∙ digit_at e (32 * q + r) q r hq hr refl

-- An index is known by its digits.
pub index_ext :
    (d e : Address)
    → IsAddress d
    → IsAddress e
    → ((j : ℕ) → j < 128 → index_digit d j ≡ index_digit e j)
    → d ≡ e
unfolding word_of
index_ext d e (d0, d1, d2, d3) (e0, e1, e2, e3) same =
    let p3 : d.w3 ≡ e.w3 = word_ext d e 0 (omega arith) d3 e3 same in
    let p2 : d.w2 ≡ e.w2 = word_ext d e 1 (omega arith) d2 e2 same in
    let p1 : d.w1 ≡ e.w1 = word_ext d e 2 (omega arith) d1 e1 same in
    let p0 : d.w0 ≡ e.w0 = word_ext d e 3 (omega arith) d0 e0 same in
    λ i. address (p0 i) (p1 i) (p2 i) (p3 i)

address_bit-word_of :
    (d : Address) (i q r : ℕ)
    → q < 4
    → r < 32
    → i ≡ 32 * q + r
    → address_bit d i ≡ bit (word_of d (3 - q)) (31 - r)
unfolding word_of
address_bit-word_of d i zero r hq hr e = word_0 d i r hr (omega arith)
address_bit-word_of d i (suc zero) r hq hr e = word_1 d i r hr (omega arith)
address_bit-word_of d i (suc (suc zero)) r hq hr e = word_2 d i r hr (omega arith)
address_bit-word_of d i (suc (suc (suc zero))) r hq hr e = word_3 d i r hr (omega arith)
address_bit-word_of d i (suc (suc (suc (suc q)))) r hq hr e = absurd (omega arith)

-- The digits of an index are the bits of the address, from the other end.
pub index_digit-address_bit :
    (d : Address) (i : ℕ) → i < 128 → index_digit d (127 - i) ≡ address_bit d i
index_digit-address_bit d i hi =
    digit_at d (127 - i) (3 - i / 32) (31 - i % 32) (omega arith) (omega arith) (omega arith)
    ∙ sym (address_bit-word_of d i (i / 32) (i % 32) (omega arith) (omega arith) (omega arith))
