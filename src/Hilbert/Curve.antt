-- ===== src/Hilbert/Curve.antt =====
-- The Hilbert curve by itself, on digits: which points and which indices belong together, whatever
-- crates/core/src/hilbert.rs does. Of an index below `4 ^ k` the two highest digits name a quadrant
-- of the square of side `2 ^ k`, in the order (0, 0), (0, 1), (1, 1), (1, 0), and the others the
-- place in the curve of order `k - 1` that fills the quadrant. That curve is swapped in the first
-- quadrant, swapped and turned over in the last one, and as it is in the others.
use slash.Base.{
  ℕ, zero, suc, ◌+◌, ◌-◌, ◌*◌, ◌%◌, ◌<◌, ◌≤◌, ◌≡◌, ◌⊎◌, inl, inr, refl, arith, ◌==◌, if◌then◌else◌,
  sym, ◌∙◌,
}

-- Digits, 0 the least significant.
abbrev pub Digits : Type 0
Digits = ℕ → ℕ

abbrev pub AreBits : Digits → Type 0
AreBits x = (j : ℕ) → x j < 2

-- The first axis of a quadrant's curve from those of the square; the second one is this with the
-- axes exchanged.
unfoldable pub turn : ℕ → ℕ → Digits → Digits → Digits
turn rx ry x y j = if ry == 0 then (if rx == 1 then 1 - y j else y j) else x j

-- The low `k` digits of `x` and `y` are the point of the low `2 * k` digits of `d`.
unfoldable pub Curve : ℕ → Digits → Digits → Digits → Type 0
Curve zero x y d = Unit
Curve (suc k) x y d =
    (d (2 * k + 1) ≡ x k)
    × (d (2 * k) ≡ (x k + y k) % 2)
    × Curve k (turn (x k) (y k) x y) (turn (x k) (y k) y x) d

pub turn-AreBits : (rx ry : ℕ) (x y : Digits) → AreBits x → AreBits y → AreBits (turn rx ry x y)
unfolding turn
turn-AreBits rx ry x y hx hy j = ground (arith, hx j, hy j)

-- The turn is its own inverse.
pub turn-turn :
    (rx ry : ℕ) (x y : Digits) (j : ℕ)
    → x j < 2
    → turn rx ry (turn rx ry x y) (turn rx ry y x) j ≡ x j
unfolding turn
turn-turn rx ry x y j hx = ground arith

pub turn-cong :
    (rx ry : ℕ) (x y x' y' : Digits) (j : ℕ)
    → x j ≡ x' j
    → y j ≡ y' j
    → turn rx ry x y j ≡ turn rx ry x' y' j
unfolding turn
turn-cong rx ry x y x' y' j p q = rw (p, q) refl

-- The curve reads the low digits alone.
pub Curve-cong :
    (k : ℕ) (x y d x' y' d' : Digits)
    → ((j : ℕ) → j < k → x j ≡ x' j)
    → ((j : ℕ) → j < k → y j ≡ y' j)
    → ((j : ℕ) → j < 2 * k → d j ≡ d' j)
    → Curve k x y d
    → Curve k x' y' d'
unfolding Curve
Curve-cong zero x y d x' y' d' px py pd h = tt
Curve-cong (suc k) x y d x' y' d' px py pd (h1, h0, h) =
    let ex : x k ≡ x' k = px k (omega arith) in
    let ey : y k ≡ y' k = py k (omega arith) in
    (
      sym (pd (2 * k + 1) (omega arith)) ∙ h1 ∙ ex,
      omega (arith, pd (2 * k) (omega arith)),
      rw (← ex, ← ey)
          (Curve-cong k (turn (x k) (y k) x y) (turn (x k) (y k) y x) d (turn (x k) (y k) x' y')
            (turn (x k) (y k) y' x') d'
            (λ j hj. turn-cong (x k) (y k) x y x' y' j (px j (omega arith)) (py j (omega arith)))
            (λ j hj. turn-cong (x k) (y k) y x y' x' j (py j (omega arith)) (px j (omega arith)))
            (λ j hj. pd j (omega arith)) h),
    )

-- A place below `2 * suc k` is one of the two highest or below `2 * k`.
index_place : (k j : ℕ) → j < 2 * suc k → (j ≡ 2 * k + 1) ⊎ (j ≡ 2 * k) ⊎ (j < 2 * k)
index_place k j hj = ground arith

point_place : (k j : ℕ) → j < suc k → (j ≡ k) ⊎ (j < k)
point_place k j hj = ground arith

-- Points that agree from the digit `m` on have indices that agree from the digit `2 * m` on.
pub index_agrees :
    (m k : ℕ) (x y d x' y' d' : Digits)
    → ((j : ℕ) → m ≤ j → j < k → (x j ≡ x' j) × (y j ≡ y' j))
    → Curve k x y d
    → Curve k x' y' d'
    → (j : ℕ) → 2 * m ≤ j
    → j < 2 * k
    → d j ≡ d' j
unfolding Curve
index_agrees m zero x y d x' y' d' same h h' j hm hj = absurd (omega arith)
index_agrees m (suc k) x y d x' y' d' same (h1, h0, h) (h1', h0', h') j hm hj =
    let (ex, ey) = same k (omega arith) (omega arith) in
    elim (index_place k j hj) [
      | inl e ↦ rw e (h1 ∙ ex ∙ sym h1')
      | inr (inl e) ↦ rw e (omega arith)
      | inr (inr low) ↦
          let h'' : Curve k (turn (x k) (y k) x' y') (turn (x k) (y k) y' x') d' = rw (ex, ey) h' in
          index_agrees m k (turn (x k) (y k) x y) (turn (x k) (y k) y x) d (turn (x k) (y k) x' y')
            (turn (x k) (y k) y' x') d'
            (λ i lo hi.
              let (px, py) = same i lo (omega arith) in
              (turn-cong (x k) (y k) x y x' y' i px py, turn-cong (x k) (y k) y x y' x' i py px))
            h h'' j hm low
    ]

-- Two digits agree that agree after a turn.
untwist :
    (rx ry : ℕ) (x y x' y' : Digits) (j : ℕ)
    → x j < 2
    → x' j < 2
    → turn rx ry x y j ≡ turn rx ry x' y' j
    → turn rx ry y x j ≡ turn rx ry y' x' j
    → x j ≡ x' j
untwist rx ry x y x' y' j hx hx' p q =
    sym (turn-turn rx ry x y j hx)
    ∙ turn-cong rx ry (turn rx ry x y) (turn rx ry y x) (turn rx ry x' y') (turn rx ry y' x') j p q
    ∙ turn-turn rx ry x' y' j hx'

-- Indices that agree from the digit `2 * m` on have points that agree from the digit `m` on.
pub point_agrees :
    (m k : ℕ) (x y d x' y' d' : Digits)
    → AreBits x
    → AreBits y
    → AreBits x'
    → AreBits y'
    → ((j : ℕ) → 2 * m ≤ j → j < 2 * k → d j ≡ d' j)
    → Curve k x y d
    → Curve k x' y' d'
    → (j : ℕ) → m ≤ j
    → j < k
    → (x j ≡ x' j) × (y j ≡ y' j)
unfolding Curve
point_agrees m zero x y d x' y' d' bx by bx' by' same h h' j hm hj = absurd (omega arith)
point_agrees m (suc k) x y d x' y' d' bx by bx' by' same (h1, h0, h) (h1', h0', h') j hm hj =
    let ex : x k ≡ x' k = sym h1 ∙ same (2 * k + 1) (omega arith) (omega arith) ∙ h1' in
    let ey : y k ≡ y' k = omega (arith, by k, by' k, same (2 * k) (omega arith) (omega arith)) in
    let t = turn-AreBits (x k) (y k) in
    elim (point_place k j hj) [
      | inl e ↦ rw e (ex, ey)
      | inr low ↦
          let h'' : Curve k (turn (x k) (y k) x' y') (turn (x k) (y k) y' x') d' = rw (ex, ey) h' in
          let rec =
            point_agrees m k (turn (x k) (y k) x y) (turn (x k) (y k) y x) d
              (turn (x k) (y k) x' y') (turn (x k) (y k) y' x') d' (t x y bx by) (t y x by bx)
              (t x' y' bx' by') (t y' x' by' bx') (λ i lo hi. same i lo (omega arith)) h h'' j hm
              low in
          (
            untwist (x k) (y k) x y x' y' j (bx j) (bx' j) rec.0 rec.1,
            untwist (x k) (y k) y x y' x' j (by j) (by' j) rec.1 rec.0,
          )
    ]
