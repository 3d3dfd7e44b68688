-- ===== src/Hilbert/Neighbours.antt =====
-- The curve of crates/core/src/hilbert.rs has no jumps: an address and the next one are the points
-- of two squares that touch.
use native.Mathlib.Nat.{pow-succ'}
use slash.Base.{ℕ, zero, suc, ◌+◌, ◌-◌, ◌*◌, ◌%◌, ◌^◌, ◌<◌, ◌≡◌, ◌==◌, if◌then◌else◌, refl, arith}
use slash.Hilbert.Curve.{Digits, AreBits, turn, turn-AreBits, Curve}

-- The taxicab distance of two points.
abbrev pub apart : ℕ → ℕ → ℕ
apart a b = (a - b) + (b - a)

-- The number of the low `k` digits.
unfoldable pub value : ℕ → Digits → ℕ
value zero x = 0
value (suc k) x = (if x k == 0 then 0 else 2 ^ k) + value k x

-- The number of the low `2 * k` digits.
unfoldable pub index_value : ℕ → Digits → ℕ
index_value zero d = 0
index_value (suc k) d =
    (if d (2 * k + 1) == 0 then 0 else 2 * 4 ^ k)
    + (if d (2 * k) == 0 then 0 else 4 ^ k)
    + index_value k d

two_pow-pos : (k : ℕ) → 0 < 2 ^ k
two_pow-pos zero = omega arith
two_pow-pos (suc k) = omega (arith, two_pow-pos k, pow-succ' 2 k)

four_pow-pos : (k : ℕ) → 0 < 4 ^ k
four_pow-pos zero = omega arith
four_pow-pos (suc k) = omega (arith, four_pow-pos k, pow-succ' 4 k)

value-lt : (k : ℕ) (x : Digits) → value k x < 2 ^ k
unfolding value
value-lt zero x = omega arith
value-lt (suc k) x = ground (arith, value-lt k x, pow-succ' 2 k, two_pow-pos k)

index_value-lt : (k : ℕ) (d : Digits) → index_value k d < 4 ^ k
unfolding index_value
index_value-lt zero d = omega arith
index_value-lt (suc k) d = ground (arith, index_value-lt k d, pow-succ' 4 k, four_pow-pos k)

pub value-cong : (k : ℕ) (x y : Digits) → ((j : ℕ) → j < k → x j ≡ y j) → value k x ≡ value k y
unfolding value
value-cong zero x y same = refl
value-cong (suc k) x y same =
    ground (arith, same k, value-cong k x y (λ j hj. same j (omega arith)))

value-over : (k : ℕ) (x : Digits) → AreBits x → value k (λ j. 1 - x j) + value k x + 1 ≡ 2 ^ k
unfolding value
value-over zero x hx = omega arith
value-over (suc k) x hx = ground (arith, value-over k x hx, hx k, pow-succ' 2 k)

-- A point and an index of the square of side `2 * p`, by the place `(u, v)` and the index `e` in
-- the curve of side `p` of its quadrant; there are `q` points in a quadrant.
data Quadrant (p q : ℕ) (x y d u v e : ℕ) : Type 0 where
  first : x ≡ v → y ≡ u → d ≡ e → Quadrant p q x y d u v e
  second : x ≡ u → y ≡ p + v → d ≡ q + e → Quadrant p q x y d u v e
  third : x ≡ p + u → y ≡ p + v → d ≡ 2 * q + e → Quadrant p q x y d u v e
  fourth : x + v + 1 ≡ 2 * p → y + u + 1 ≡ p → d ≡ 3 * q + e → Quadrant p q x y d u v e

Quadrant_at :
    (k rx ry : ℕ) (x y d : Digits)
    → AreBits x
    → AreBits y
    → x k ≡ rx
    → y k ≡ ry
    → rx < 2
    → ry < 2
    → d (2 * k + 1) ≡ rx
    → d (2 * k) ≡ (rx + ry) % 2
    → Quadrant
        (2 ^ k)
        (4 ^ k)
        (value (suc k) x)
        (value (suc k) y)
        (index_value (suc k) d)
        (value k (turn rx ry x y))
        (value k (turn rx ry y x))
        (index_value k d)
unfolding value index_value turn
Quadrant_at k zero zero x y d bx by ex ey hx hy h1 h0 =
    first (ground arith) (ground arith) (ground arith)
Quadrant_at k zero (suc zero) x y d bx by ex ey hx hy h1 h0 =
    second (ground arith) (ground arith) (ground arith)
Quadrant_at k (suc zero) (suc zero) x y d bx by ex ey hx hy h1 h0 =
    third (ground arith) (ground arith) (ground arith)
Quadrant_at k (suc zero) zero x y d bx by ex ey hx hy h1 h0 =
    fourth (ground (arith, value-over k x bx)) (ground (arith, value-over k y by)) (ground arith)
Quadrant_at k (suc (suc rx)) ry x y d bx by ex ey hx hy h1 h0 = absurd (omega arith)
Quadrant_at k zero (suc (suc ry)) x y d bx by ex ey hx hy h1 h0 = absurd (omega arith)
Quadrant_at k (suc zero) (suc (suc ry)) x y d bx by ex ey hx hy h1 h0 = absurd (omega arith)

Curve-Quadrant :
    (k : ℕ) (x y d : Digits)
    → AreBits x
    → AreBits y
    → Curve (suc k) x y d
    → Quadrant
        (2 ^ k)
        (4 ^ k)
        (value (suc k) x)
        (value (suc k) y)
        (index_value (suc k) d)
        (value k (turn (x k) (y k) x y))
        (value k (turn (x k) (y k) y x))
        (index_value k d)
unfolding Curve
Curve-Quadrant k x y d bx by (h1, h0, h) =
    Quadrant_at k (x k) (y k) x y d bx by refl refl (bx k) (by k) h1 h0

module _ {p q x y d u v e : ℕ} where
  -- The square is entered in its corner.
  Quadrant-entry :
      Quadrant p q x y d u v e → 0 < q → (e ≡ 0 → (u ≡ 0) × (v ≡ 0)) → d ≡ 0 → (x ≡ 0) × (y ≡ 0)
  Quadrant-entry (first ex ey ed) hq inner z = omega (arith, inner (omega arith))
  Quadrant-entry (second ex ey ed) hq inner z = absurd (omega arith)
  Quadrant-entry (third ex ey ed) hq inner z = absurd (omega arith)
  Quadrant-entry (fourth ex ey ed) hq inner z = absurd (omega arith)

  -- It is left in the corner at the other end of the first axis.
  Quadrant-exit :
      Quadrant p q x y d u v e
      → e < q
      → (suc e ≡ q → (suc u ≡ p) × (v ≡ 0))
      → suc d ≡ 4 * q
      → (suc x ≡ 2 * p) × (y ≡ 0)
  Quadrant-exit (first ex ey ed) hq inner z = absurd (omega arith)
  Quadrant-exit (second ex ey ed) hq inner z = absurd (omega arith)
  Quadrant-exit (third ex ey ed) hq inner z = absurd (omega arith)
  Quadrant-exit (fourth ex ey ed) hq inner z = omega (arith, inner (omega arith))

  -- The next index is the next one in the quadrant, or the first of the next quadrant.
  Quadrant-next :
      {x' y' d' u' v' e' : ℕ}
      → Quadrant p q x y d u v e
      → Quadrant p q x' y' d' u' v' e'
      → u < p
      → v < p
      → u' < p
      → v' < p
      → e < q
      → e' < q
      → (suc e ≡ q → (suc u ≡ p) × (v ≡ 0))
      → (e' ≡ 0 → (u' ≡ 0) × (v' ≡ 0))
      → (e' ≡ suc e → apart u u' + apart v v' ≡ 1)
      → d' ≡ suc d
      → apart x x' + apart y y' ≡ 1
  Quadrant-next (first a b c) (first a' b' c') hu hv hu' hv' he he' out into same n =
      omega (arith, same (omega arith))
  Quadrant-next (first a b c) (second a' b' c') hu hv hu' hv' he he' out into same n =
      omega (arith, out (omega arith), into (omega arith))
  Quadrant-next (first a b c) (third a' b' c') hu hv hu' hv' he he' out into same n =
      absurd (omega arith)
  Quadrant-next (first a b c) (fourth a' b' c') hu hv hu' hv' he he' out into same n =
      absurd (omega arith)
  Quadrant-next (second a b c) (first a' b' c') hu hv hu' hv' he he' out into same n =
      absurd (omega arith)
  Quadrant-next (second a b c) (second a' b' c') hu hv hu' hv' he he' out into same n =
      omega (arith, same (omega arith))
  Quadrant-next (second a b c) (third a' b' c') hu hv hu' hv' he he' out into same n =
      omega (arith, out (omega arith), into (omega arith))
  Quadrant-next (second a b c) (fourth a' b' c') hu hv hu' hv' he he' out into same n =
      absurd (omega arith)
  Quadrant-next (third a b c) (first a' b' c') hu hv hu' hv' he he' out into same n =
      absurd (omega arith)
  Quadrant-next (third a b c) (second a' b' c') hu hv hu' hv' he he' out into same n =
      absurd (omega arith)
  Quadrant-next (third a b c) (third a' b' c') hu hv hu' hv' he he' out into same n =
      omega (arith, same (omega arith))
  Quadrant-next (third a b c) (fourth a' b' c') hu hv hu' hv' he he' out into same n =
      omega (arith, out (omega arith), into (omega arith))
  Quadrant-next (fourth a b c) (first a' b' c') hu hv hu' hv' he he' out into same n =
      absurd (omega arith)
  Quadrant-next (fourth a b c) (second a' b' c') hu hv hu' hv' he he' out into same n =
      absurd (omega arith)
  Quadrant-next (fourth a b c) (third a' b' c') hu hv hu' hv' he he' out into same n =
      absurd (omega arith)
  Quadrant-next (fourth a b c) (fourth a' b' c') hu hv hu' hv' he he' out into same n =
      omega (arith, same (omega arith))

-- The first index of a square is its corner.
pub Curve-entry :
    (k : ℕ) (x y d : Digits)
    → AreBits x
    → AreBits y
    → Curve k x y d
    → index_value k d ≡ 0
    → (value k x ≡ 0) × (value k y ≡ 0)
unfolding Curve
Curve-entry zero x y d bx by h z = unfold value in (refl, refl)
Curve-entry (suc k) x y d bx by (h1, h0, h) z =
    let t = turn-AreBits (x k) (y k) in
    Quadrant-entry (Curve-Quadrant k x y d bx by (h1, h0, h)) (four_pow-pos k)
      (Curve-entry k (turn (x k) (y k) x y) (turn (x k) (y k) y x) d (t x y bx by) (t y x by bx) h)
      z

-- The last index of a square is the corner at the other end of the first axis.
pub Curve-exit :
    (k : ℕ) (x y d : Digits)
    → AreBits x
    → AreBits y
    → Curve k x y d
    → suc (index_value k d) ≡ 4 ^ k
    → (suc (value k x) ≡ 2 ^ k) × (value k y ≡ 0)
unfolding Curve
Curve-exit zero x y d bx by h z = unfold value in (refl, refl)
Curve-exit (suc k) x y d bx by (h1, h0, h) z =
    let t = turn-AreBits (x k) (y k) in
    let r =
      Quadrant-exit (Curve-Quadrant k x y d bx by (h1, h0, h)) (index_value-lt k d)
        (Curve-exit k (turn (x k) (y k) x y) (turn (x k) (y k) y x) d (t x y bx by) (t y x by bx) h)
        (omega (arith, pow-succ' 4 k)) in
    (omega (arith, r.0, pow-succ' 2 k), r.1)

-- Two indices in a row are two points at a distance of one.
pub Curve-next :
    (k : ℕ) (x y d x' y' d' : Digits)
    → AreBits x
    → AreBits y
    → AreBits x'
    → AreBits y'
    → Curve k x y d
    → Curve k x' y' d'
    → index_value k d' ≡ suc (index_value k d)
    → apart (value k x) (value k x') + apart (value k y) (value k y') ≡ 1
unfolding Curve
Curve-next zero x y d x' y' d' bx by bx' by' h h' n = unfold index_value in absurd (omega arith)
Curve-next (suc k) x y d x' y' d' bx by bx' by' (h1, h0, h) (h1', h0', h') n =
    let u = turn (x k) (y k) x y in
    let v = turn (x k) (y k) y x in
    let u' = turn (x' k) (y' k) x' y' in
    let v' = turn (x' k) (y' k) y' x' in
    let bu = turn-AreBits (x k) (y k) x y bx by in
    let bv = turn-AreBits (x k) (y k) y x by bx in
    let bu' = turn-AreBits (x' k) (y' k) x' y' bx' by' in
    let bv' = turn-AreBits (x' k) (y' k) y' x' by' bx' in
    Quadrant-next (Curve-Quadrant k x y d bx by (h1, h0, h))
      (Curve-Quadrant k x' y' d' bx' by' (h1', h0', h')) (value-lt k u) (value-lt k v)
      (value-lt k u') (value-lt k v') (index_value-lt k d) (index_value-lt k d')
      (Curve-exit k u v d bu bv h) (Curve-entry k u' v' d' bu' bv' h')
      (Curve-next k u v d u' v' d' bu bv bu' bv' h h') n
