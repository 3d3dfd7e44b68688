-- ===== src/Hilbert/Numbers.antt =====
-- The curve of crates/core/src/hilbert.rs on the numbers that axes and addresses are: an address
-- and the next one are two points at a distance of one.
use native.Mathlib.Nat.{pow-succ'}
use slash.Base.{
  ℕ, zero, suc, ◌+◌, ◌*◌, ◌/◌, ◌^◌, ◌<◌, ◌≡◌, ◌==◌, if◌then◌else◌, refl, arith, ap, sym, ◌∙◌,
}
use slash.Base.Outcome.{done}
use slash.Word.{bit}
use slash.Word.Bits.{bit-suc, bit-zero}
use slash.Address.{Address, from_u128}
use slash.Address.Agree.{IsAddress, from_u128-IsAddress}
use slash.Hilbert.{Axis, HilbertPoint, ip_to_point}
use slash.Hilbert.Digits.{IsAxis, axis_digit, axis_digit-lt, low_digit, high_digit}
use slash.Hilbert.Index.{index_digit, word_of, digit_at}
use slash.Hilbert.Curve.{Digits}
use slash.Hilbert.Laws.{ip_to_point-OnCurve}
use slash.Hilbert.Neighbours.{apart, value, index_value, value-cong, Curve-next}

-- A `u64` and a `u128` of words.
abbrev pub axis_number : Axis → ℕ
axis_number a = a.a0 * 2 ^ 32 + a.a1

abbrev address_number : Address → ℕ
address_number d = d.w0 * 2 ^ 96 + d.w1 * 2 ^ 64 + d.w2 * 2 ^ 32 + d.w3

value-highest : (k : ℕ) (x : Digits) → value (suc k) x ≡ (if x k == 0 then 0 else 2 ^ k) + value k x
unfolding value
value-highest k x = refl

value-none : (x : Digits) → value 0 x ≡ 0
unfolding value
value-none x = refl

-- The lowest digit first.
value-lowest :
    (k : ℕ) (x : Digits)
    → value (suc k) x ≡ (if x 0 == 0 then 0 else 1) + 2 * value k (λ j. x (suc j))
unfolding value
value-lowest zero x = ground arith
value-lowest (suc k) x = ground (arith, value-lowest k x, pow-succ' 2 k)

-- A word is the number of its bits.
value-bit : (k w : ℕ) → w < 2 ^ k → value k (λ j. bit w j) ≡ w
value-bit zero w h = omega (arith, value-none (λ j. bit w j))
value-bit (suc k) w h =
    let half : value k (λ j. bit w (suc j)) ≡ w / 2 =
      value-cong k (λ j. bit w (suc j)) (λ j. bit (w / 2) j) (λ j hj. bit-suc w j)
      ∙ value-bit k (w / 2) (omega (arith, pow-succ' 2 k)) in
    ground (arith, value-lowest k (λ j. bit w j), bit-zero w)

power_above : (r n : ℕ) → n ≡ r + 32 → 2 ^ n ≡ 2 ^ r * 2 ^ 32
power_above zero n e = rw e refl
power_above (suc r) zero e = absurd (omega arith)
power_above (suc r) (suc n) e =
    omega (arith, power_above r n (omega arith), pow-succ' 2 n, pow-succ' 2 r)

-- The lowest word apart from the others.
value-above :
    (r n : ℕ) (x : Digits)
    → n ≡ r + 32
    → value n x ≡ value r (λ j. x (j + 32)) * 2 ^ 32 + value 32 x
value-above zero n x e =
    let e' : n ≡ 32 = omega arith in rw e' (omega (arith, value-none (λ j. x (j + 32))))
value-above (suc r) zero x e = absurd (omega arith)
value-above (suc r) (suc n) x e =
    let e' : n ≡ r + 32 = omega arith in
    let d : x n ≡ x (r + 32) = rw e' refl in
    ground (
      arith,
      value-highest n x,
      value-highest r (λ j. x (j + 32)),
      value-above r n x e',
      power_above r n e',
    )

value-axis : (a : Axis) → IsAxis a → value 64 (axis_digit a) ≡ axis_number a
value-axis a ha =
    let high : value 32 (λ j. axis_digit a (j + 32)) ≡ a.a0 =
      value-cong 32 (λ j. axis_digit a (j + 32)) (λ j. bit a.a0 j)
        (λ j hj. high_digit a (j + 32) j (omega arith))
      ∙ value-bit 32 a.a0 ha.0 in
    let low : value 32 (axis_digit a) ≡ a.a1 =
      value-cong 32 (axis_digit a) (λ j. bit a.a1 j) (λ j hj. low_digit a j hj)
      ∙ value-bit 32 a.a1 ha.1 in
    omega (arith, value-above 32 64 (axis_digit a) refl)

four_power : (k n : ℕ) → n ≡ 2 * k → 4 ^ k ≡ 2 ^ n
four_power zero n e = let e' : n ≡ 0 = omega arith in rw e' refl
four_power (suc k) zero e = absurd (omega arith)
four_power (suc k) (suc zero) e = absurd (omega arith)
four_power (suc k) (suc (suc n)) e =
    omega (arith, four_power k n (omega arith), pow-succ' 4 k, pow-succ' 2 n, pow-succ' 2 (suc n))

index_value-value : (k n : ℕ) (d : Digits) → n ≡ 2 * k → index_value k d ≡ value n d
unfolding index_value
index_value-value zero n d e = let e' : n ≡ 0 = omega arith in rw e' (sym (value-none d))
index_value-value (suc k) zero d e = absurd (omega arith)
index_value-value (suc k) (suc zero) d e = absurd (omega arith)
index_value-value (suc k) (suc (suc n)) d e =
    let e' : n ≡ 2 * k = omega arith in
    let high : d (2 * k + 1) ≡ d (suc n) = let s : 2 * k + 1 ≡ suc n = omega arith in rw s refl in
    let low : d (2 * k) ≡ d n = rw e' refl in
    ground (
      arith,
      value-highest (suc n) d,
      value-highest n d,
      index_value-value k n d e',
      four_power k n e',
      pow-succ' 2 n,
    )

-- The digits of one word of an address.
word_value :
    (d : Address) (q m : ℕ) (x : Digits)
    → q < 4
    → m ≡ 32 * q
    → word_of d q < 2 ^ 32
    → ((j : ℕ) → x j ≡ index_digit d (j + m))
    → value 32 x ≡ word_of d q
word_value d q m x hq em hw same =
    value-cong 32 x (λ j. bit (word_of d q) j)
      (λ j hj. same j ∙ digit_at d (j + m) q j hq hj (omega arith))
    ∙ value-bit 32 (word_of d q) hw

value-address : (d : Address) → IsAddress d → value 128 (index_digit d) ≡ address_number d
unfolding word_of
value-address d (h0, h1, h2, h3) =
    let at = index_digit d in
    let rest1 : Digits = λ j. at (j + 32) in
    let rest2 : Digits = λ j. rest1 (j + 32) in
    let rest3 : Digits = λ j. rest2 (j + 32) in
    omega (
      arith,
      value-above 96 128 at refl,
      value-above 64 96 rest1 refl,
      value-above 32 64 rest2 refl,
      word_value d 0 0 at (omega arith) refl h3 (λ j. ap at (omega arith)),
      word_value d 1 32 rest1 (omega arith) refl h2 (λ j. refl),
      word_value d 2 64 rest2 (omega arith) refl h1 (λ j. ap at (omega arith)),
      word_value d 3 96 rest3 (omega arith) refl h0 (λ j. ap at (omega arith)),
    )

address_number-from_u128 : (n : ℕ) → n < 2 ^ 128 → address_number (from_u128 n) ≡ n
unfolding from_u128
address_number-from_u128 n h = omega arith

index_value-from_u128 : (n : ℕ) → n < 2 ^ 128 → index_value 64 (index_digit (from_u128 n)) ≡ n
index_value-from_u128 n h =
    index_value-value 64 128 (index_digit (from_u128 n)) refl
    ∙ value-address (from_u128 n) (from_u128-IsAddress n)
    ∙ address_number-from_u128 n h

-- For two 128-bit numbers in a row ip_to_point returns two points at a distance of one: one axis is
-- the same number, and the numbers of the other axis differ by one.
pub ip_to_point-next :
    (n : ℕ)
    → suc n < 2 ^ 128
    → (p : HilbertPoint) × (q : HilbertPoint) × (ip_to_point (from_u128 n) ≡ done p)
      × (ip_to_point (from_u128 (suc n)) ≡ done q)
      × (apart (axis_number p.x) (axis_number q.x) + apart (axis_number p.y) (axis_number q.y) ≡ 1)
ip_to_point-next n h =
    let (p, ep, fp, cp) = ip_to_point-OnCurve (from_u128 n) in
    let (q, eq, fq, cq) = ip_to_point-OnCurve (from_u128 (suc n)) in
    let step : index_value 64 (index_digit (from_u128 (suc n)))
        ≡ suc (index_value 64 (index_digit (from_u128 n))) =
      index_value-from_u128 (suc n) h ∙ ap suc (sym (index_value-from_u128 n (omega arith))) in
    let near =
      Curve-next 64 (axis_digit p.x) (axis_digit p.y) (index_digit (from_u128 n)) (axis_digit q.x)
        (axis_digit q.y) (index_digit (from_u128 (suc n))) (axis_digit-lt p.x) (axis_digit-lt p.y)
        (axis_digit-lt q.x) (axis_digit-lt q.y) cp cq step in
    (
      p,
      q,
      ep,
      eq,
      omega (
        arith,
        near,
        value-axis p.x fp.0,
        value-axis p.y fp.1,
        value-axis q.x fq.0,
        value-axis q.y fq.1,
      ),
    )
