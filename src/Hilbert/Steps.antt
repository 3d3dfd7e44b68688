-- ===== src/Hilbert/Steps.antt =====
-- One level of the loops of crates/core/src/hilbert.rs on the digits of axes and indices.
use slash.Base.{
  ℕ, zero, suc, ◌+◌, ◌*◌, ◌%◌, ◌<◌, ◌≤◌, ◌≡◌, ◌≢◌, bit_and, bit_xor, Bool, true, false, ◌&&◌, inl,
  inr, refl, arith, ltb, ◌==◌, if◌then◌else◌, Bool-cases,
}
use slash.Base.Outcome.{done}
use slash.Address.{Address}
use slash.Address.Agree.{IsAddress}
use slash.Hilbert.{
  Axis, HilbertPoint, set_axis_bit, set_index_bit, rotate, reflect, ip_to_point_step,
  point_to_ip_step,
}
use slash.Hilbert.Digits.{
  IsAxis, axis_digit, axis_digit-lt, axis_bit_lem, set_axis_bit_lem, complement-IsAxis,
  complement-digit, flip-IsAxis, flip-digit,
}
use slash.Hilbert.Index.{index_digit, index_digit-lt, index_bit_lem, set_index_bit_lem}
use slash.Hilbert.Curve.{turn}

abbrev pub IsPoint : HilbertPoint → Type 0
IsPoint p = IsAxis p.x × IsAxis p.y

pub reflect-IsPoint : (rx ry : ℕ) (p : HilbertPoint) → IsPoint p → IsPoint (reflect rx ry p)
unfolding reflect
reflect-IsPoint rx ry p h = elim (Bool-cases (ry == 0)) [
  | inl low ↦ elim (Bool-cases (rx == 1)) [
    | inl last ↦ rw (low, last) (flip-IsAxis p.y h.1, flip-IsAxis p.x h.0)
    | inr first ↦ rw (low, first) (h.1, h.0)
  ]
  | inr high ↦ rw high h
]

-- `reflect` turns the digits of both axes.
pub reflect-turn :
    (rx ry : ℕ) (p : HilbertPoint) (j : ℕ)
    → j < 64
    → (axis_digit (reflect rx ry p).x j ≡ turn rx ry (axis_digit p.x) (axis_digit p.y) j)
      × (axis_digit (reflect rx ry p).y j ≡ turn rx ry (axis_digit p.y) (axis_digit p.x) j)
unfolding reflect turn
reflect-turn rx ry p j hj = elim (Bool-cases (ry == 0)) [
  | inl low ↦ elim (Bool-cases (rx == 1)) [
    | inl last ↦ rw (low, last) (flip-digit p.y j hj, flip-digit p.x j hj)
    | inr first ↦ rw (low, first) (refl, refl)
  ]
  | inr high ↦ rw high (refl, refl)
]

pub rotate-IsPoint :
    (k rx ry : ℕ) (p : HilbertPoint) → k < 64 → IsPoint p → IsPoint (rotate k rx ry p)
unfolding rotate
rotate-IsPoint k rx ry p hk h = elim (Bool-cases (ry == 0)) [
  | inl low ↦ elim (Bool-cases (rx == 1)) [
    | inl last ↦
        rw (low, last)
          (complement-IsAxis p.y k (omega arith) h.1, complement-IsAxis p.x k (omega arith) h.0)
    | inr first ↦ rw (low, first) (h.1, h.0)
  ]
  | inr high ↦ rw high h
]

-- `rotate` turns the digits below the level, and keeps zeros from the level on.
pub rotate-turn :
    (k rx ry : ℕ) (p : HilbertPoint) (j : ℕ)
    → k < 64
    → j < 64
    → axis_digit (rotate k rx ry p).x j ≡ (
        if ltb j k
        then turn rx ry (axis_digit p.x) (axis_digit p.y) j
        else (if ry == 0 then axis_digit p.y j else axis_digit p.x j))
unfolding rotate turn
rotate-turn k rx ry p j hk hj = elim (Bool-cases (ry == 0)) [
  | inl low ↦ elim (Bool-cases (rx == 1)) [
    | inl last ↦ rw (low, last, complement-digit p.y k j (omega arith) hj) refl
    | inr first ↦ rw (low, first) (ground arith)
  ]
  | inr high ↦ rw high (ground arith)
]

-- The second axis is the first one of the point with its axes exchanged.
pub rotate-turn_other :
    (k rx ry : ℕ) (p : HilbertPoint) (j : ℕ)
    → k < 64
    → j < 64
    → axis_digit (rotate k rx ry p).y j ≡ (
        if ltb j k
        then turn rx ry (axis_digit p.y) (axis_digit p.x) j
        else (if ry == 0 then axis_digit p.x j else axis_digit p.y j))
unfolding rotate turn
rotate-turn_other k rx ry p j hk hj = elim (Bool-cases (ry == 0)) [
  | inl low ↦ elim (Bool-cases (rx == 1)) [
    | inl last ↦ rw (low, last, complement-digit p.x k j (omega arith) hj) refl
    | inr first ↦ rw (low, first) (ground arith)
  ]
  | inr high ↦ rw high (ground arith)
]

set_axis_bit_if :
    (b : Bool) (a : Axis) (k : ℕ)
    → IsAxis a
    → k < 64
    → (a' : Axis) × ((if b then set_axis_bit a k else done a) ≡ done a')
      × IsAxis a'
      × ((j : ℕ) → j < 64 → axis_digit a' j ≡ (if b && j == k then 1 else axis_digit a j))
set_axis_bit_if true a k ha hk =
    let (a', e, s) = set_axis_bit_lem a k ha hk in (a', e, s.fits, s.digits)
set_axis_bit_if false a k ha hk = (a, refl, ha, λ j hj. refl)

set_index_bit_if :
    (b : Bool) (d : Address) (k : ℕ)
    → IsAddress d
    → k < 128
    → (d' : Address) × ((if b then set_index_bit d k else done d) ≡ done d')
      × IsAddress d'
      × ((j : ℕ) → j < 128 → index_digit d' j ≡ (if b && j == k then 1 else index_digit d j))
set_index_bit_if true d k hd hk =
    let (d', e, s) = set_index_bit_lem d k hd hk in (d', e, s.fits, s.digits)
set_index_bit_if false d k hd hk = (d, refl, hd, λ j hj. refl)

-- The two digits of a quadrant.
quadrant_low :
    (rx ry : ℕ) → rx < 2 → ry < 2 → (bit_and (bit_xor (3 * rx) ry) 1 == 1) ≡ ((rx + ry) % 2 == 1)
quadrant_low zero zero hx hy = refl
quadrant_low zero (suc zero) hx hy = refl
quadrant_low (suc zero) zero hx hy = refl
quadrant_low (suc zero) (suc zero) hx hy = refl
quadrant_low (suc (suc rx)) ry hx hy = absurd (omega arith)
quadrant_low zero (suc (suc ry)) hx hy = absurd (omega arith)
quadrant_low (suc zero) (suc (suc ry)) hx hy = absurd (omega arith)

quadrant_high : (rx ry : ℕ) → rx < 2 → ry < 2 → (bit_and (bit_xor (3 * rx) ry) 2 == 2) ≡ (rx == 1)
quadrant_high zero zero hx hy = refl
quadrant_high zero (suc zero) hx hy = refl
quadrant_high (suc zero) zero hx hy = refl
quadrant_high (suc zero) (suc zero) hx hy = refl
quadrant_high (suc (suc rx)) ry hx hy = absurd (omega arith)
quadrant_high zero (suc (suc ry)) hx hy = absurd (omega arith)
quadrant_high (suc zero) (suc (suc ry)) hx hy = absurd (omega arith)

-- The index after the round of `point_to_ip` for the level `k`, where `rx` and `ry` are the digits
-- of the point at the level.
pub record HasQuadrant (k rx ry : ℕ) (d d' : Address) : Type 0 where
  pub fits : IsAddress d'
  pub high : index_digit d' (2 * k + 1) ≡ rx
  pub low : index_digit d' (2 * k) ≡ (rx + ry) % 2
  pub others : (j : ℕ) → j < 128 → j ≢ 2 * k → j ≢ 2 * k + 1 → index_digit d' j ≡ index_digit d j

pub point_to_ip_step_lem :
    (k : ℕ) (p : HilbertPoint) (d : Address)
    → k < 64
    → IsAddress d
    → index_digit d (2 * k) ≡ 0
    → index_digit d (2 * k + 1) ≡ 0
    → (d' : Address) × (point_to_ip_step k p d
        ≡ done (reflect (axis_digit p.x k) (axis_digit p.y k) p, d'))
      × HasQuadrant k (axis_digit p.x k) (axis_digit p.y k) d d'
unfolding point_to_ip_step
point_to_ip_step_lem k p d hk hd z0 z1 =
    let rx = axis_digit p.x k in
    let ry = axis_digit p.y k in
    let hx : rx < 2 = axis_digit-lt p.x k in
    let hy : ry < 2 = axis_digit-lt p.y k in
    let (d1, e1, f1, s1) = set_index_bit_if ((rx + ry) % 2 == 1) d (2 * k) hd (omega arith) in
    let (d2, e2, f2, s2) = set_index_bit_if (rx == 1) d1 (2 * k + 1) f1 (omega arith) in
    (
      d2,
      rw
          (
            axis_bit_lem p.x k hk,
            axis_bit_lem p.y k hk,
            quadrant_low rx ry hx hy,
            quadrant_high rx ry hx hy,
            e1,
            e2,
          )
          refl,
      record {
        fits = f2;
        high = ground (arith, s2 (2 * k + 1), s1 (2 * k + 1));
        low = ground (arith, s2 (2 * k), s1 (2 * k));
        others = λ j hj n0 n1. ground (arith, s2 j, s1 j);
      },
    )

xor_digits : (a b : ℕ) → a < 2 → b < 2 → bit_xor a b ≡ (a + b) % 2
xor_digits zero zero ha hb = refl
xor_digits zero (suc zero) ha hb = refl
xor_digits (suc zero) zero ha hb = refl
xor_digits (suc zero) (suc zero) ha hb = refl
xor_digits (suc (suc a)) b ha hb = absurd (omega arith)
xor_digits zero (suc (suc b)) ha hb = absurd (omega arith)
xor_digits (suc zero) (suc (suc b)) ha hb = absurd (omega arith)

-- No digit of the point from the level `k` on.
abbrev pub IsBelow : ℕ → HilbertPoint → Type 0
IsBelow k p = (j : ℕ) → k ≤ j → j < 64 → (axis_digit p.x j ≡ 0) × (axis_digit p.y j ≡ 0)

-- The point after the round of `ip_to_point` for the level `k`, where `rx` and `ry` are the digits
-- that the index gives.
pub record HasLevel (k rx ry : ℕ) (p p' : HilbertPoint) : Type 0 where
  pub fits : IsPoint p'
  pub x_at : axis_digit p'.x k ≡ rx
  pub y_at : axis_digit p'.y k ≡ ry
  pub x_low : (j : ℕ) → j < k → axis_digit p'.x j ≡ turn rx ry (axis_digit p.x) (axis_digit p.y) j
  pub y_low : (j : ℕ) → j < k → axis_digit p'.y j ≡ turn rx ry (axis_digit p.y) (axis_digit p.x) j
  pub below : IsBelow (suc k) p'

pub ip_to_point_step_lem :
    (k : ℕ) (p : HilbertPoint) (d : Address)
    → k < 64
    → IsPoint p
    → IsBelow k p
    → (p' : HilbertPoint) × (ip_to_point_step d k p ≡ done p')
      × HasLevel k
          (index_digit d (2 * k + 1))
          ((index_digit d (2 * k) + index_digit d (2 * k + 1)) % 2)
          p
          p'
unfolding ip_to_point_step
ip_to_point_step_lem k p d hk hp none_above =
    let rx = index_digit d (2 * k + 1) in
    let ry = (index_digit d (2 * k) + rx) % 2 in
    let hx : rx < 2 = index_digit-lt d (2 * k + 1) in
    let q = rotate k rx ry p in
    let hq = rotate-IsPoint k rx ry p hk hp in
    let (x, ex, fx, sx) = set_axis_bit_if (rx == 1) q.x k hq.0 hk in
    let (y, ey, fy, sy) = set_axis_bit_if (ry == 1) q.y k hq.1 hk in
    (
      record { x = x; y = y },
      rw
          (
            index_bit_lem d (2 * k + 1) (omega arith),
            index_bit_lem d (2 * k) (omega arith),
            xor_digits (index_digit d (2 * k)) rx (index_digit-lt d (2 * k)) hx,
            ex,
            ey,
          )
          refl,
      record {
        fits = (fx, fy);
        x_at = ground (arith, sx k, rotate-turn k rx ry p k, none_above k);
        y_at = ground (arith, sy k, rotate-turn_other k rx ry p k, none_above k);
        x_low = λ j hj. ground (arith, sx j, rotate-turn k rx ry p j);
        y_low = λ j hj. ground (arith, sy j, rotate-turn_other k rx ry p j);
        below = λ j hj hj'. (
          ground (arith, sx j, rotate-turn k rx ry p j, none_above j),
          ground (arith, sy j, rotate-turn_other k rx ry p j, none_above j),
        );
      },
    )
