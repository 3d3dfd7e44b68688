-- ===== src/Hilbert/Laws.antt =====
-- The two maps of crates/core/src/hilbert.rs against the curve: both return, what they return lies
-- on the curve, and so each undoes the other.
use slash.Base.{ℕ, zero, suc, ◌+◌, ◌-◌, ◌*◌, ◌%◌, ◌<◌, ◌≤◌, ◌≡◌, refl, arith, sym, ◌∙◌}
use slash.Base.Outcome.{done, ◌>>=◌}
use slash.Address.{Address, address}
use slash.Address.Agree.{IsAddress}
use slash.Hilbert.{
  HilbertPoint, axis, reflect, ip_to_point, ip_to_point_loop, ip_to_point_step, point_to_ip,
  point_to_ip_loop,
}
use slash.Hilbert.Digits.{axis_digit, axis_digit-lt, axis_ext}
use slash.Hilbert.Index.{index_digit, index_digit-lt, index_ext}
use slash.Hilbert.Curve.{
  Digits, turn, Curve, turn-turn, turn-cong, Curve-cong, index_agrees, point_agrees,
}
use slash.Hilbert.Steps.{
  IsPoint, IsBelow, HasLevel, HasQuadrant, reflect-IsPoint, reflect-turn, ip_to_point_step_lem,
  point_to_ip_step_lem,
}

-- The low `k` digits of the axes of a point and the low `2 * k` of an index belong together.
abbrev pub OnCurve : ℕ → HilbertPoint → Address → Type 0
OnCurve k p d = Curve k (axis_digit p.x) (axis_digit p.y) (index_digit d)

-- A digit comes back from the turned digits that a level wrote.
turned_back :
    (rx ry : ℕ) (x y x' y' : Digits) (j : ℕ)
    → x j < 2
    → x' j ≡ turn rx ry x y j
    → y' j ≡ turn rx ry y x j
    → x j ≡ turn rx ry x' y' j
turned_back rx ry x y x' y' j hx px py =
    sym (turn-cong rx ry x' y' (turn rx ry x y) (turn rx ry y x) j px py ∙ turn-turn rx ry x y j hx)

-- A level of `ip_to_point` takes the curve one level up.
HasLevel-OnCurve :
    (k rx ry : ℕ) (p p' : HilbertPoint) (d : Address)
    → index_digit d (2 * k + 1) ≡ rx
    → (index_digit d (2 * k) + rx) % 2 ≡ ry
    → HasLevel k rx ry p p'
    → OnCurve k p d
    → OnCurve (suc k) p' d
unfolding Curve
HasLevel-OnCurve k rx ry p p' d e1 e0 l h = (
  e1 ∙ sym l.x_at,
  omega (arith, l.x_at, l.y_at, index_digit-lt d (2 * k), index_digit-lt d (2 * k + 1)),
  rw (l.x_at, l.y_at)
      (Curve-cong k (axis_digit p.x) (axis_digit p.y) (index_digit d)
        (turn rx ry (axis_digit p'.x) (axis_digit p'.y))
        (turn rx ry (axis_digit p'.y) (axis_digit p'.x)) (index_digit d)
        (λ j hj.
          turned_back rx ry (axis_digit p.x) (axis_digit p.y) (axis_digit p'.x) (axis_digit p'.y) j
            (axis_digit-lt p.x j) (l.x_low j hj) (l.y_low j hj))
        (λ j hj.
          turned_back rx ry (axis_digit p.y) (axis_digit p.x) (axis_digit p'.y) (axis_digit p'.x) j
            (axis_digit-lt p.y j) (l.y_low j hj) (l.x_low j hj))
        (λ j hj. refl) h),
)

ip_to_point_loop-suc :
    (d : Address) (left k : ℕ) (p p' : HilbertPoint)
    → k + suc left ≡ 64
    → ip_to_point_step d k p ≡ done p'
    → ip_to_point_loop d (suc left) p ≡ ip_to_point_loop d left p'
unfolding ip_to_point_loop
ip_to_point_loop-suc d left k p p' e step =
    let level : 64 - suc left ≡ k = omega arith in rw (level, step) refl

ip_to_point_loop-OnCurve :
    (d : Address) (left k : ℕ) (p : HilbertPoint)
    → k + left ≡ 64
    → IsPoint p
    → IsBelow k p
    → OnCurve k p d
    → (p' : HilbertPoint) × (ip_to_point_loop d left p ≡ done p') × IsPoint p' × OnCurve 64 p' d
unfolding ip_to_point_loop
ip_to_point_loop-OnCurve d zero k p e hp below h =
    let e' : k ≡ 64 = omega arith in (p, refl, hp, rw (← e') h)
ip_to_point_loop-OnCurve d (suc left) k p e hp below h =
    let (p', e', l) = ip_to_point_step_lem k p d (omega arith) hp below in
    let (p'', e'', f, c) = ip_to_point_loop-OnCurve d left (suc k) p' (omega arith) l.fits l.below (
      HasLevel-OnCurve k (index_digit d (2 * k + 1))
        ((index_digit d (2 * k) + index_digit d (2 * k + 1)) % 2) p p' d refl refl l h) in
    (p'', ip_to_point_loop-suc d left k p p' e e' ∙ e'', f, c)

-- The loop of `point_to_ip` from the level `k` on writes the low digits of the index alone.
record IsIndexOf (k : ℕ) (p : HilbertPoint) (d d' : Address) : Type 0 where
  fits : IsAddress d'
  kept : (j : ℕ) → j < 128 → 2 * k ≤ j → index_digit d' j ≡ index_digit d j
  on : OnCurve k p d'

-- A level of `point_to_ip` takes the curve one level up.
HasQuadrant-IsIndexOf :
    (k : ℕ) (p : HilbertPoint) (d d1 d2 : Address)
    → k < 64
    → HasQuadrant k (axis_digit p.x k) (axis_digit p.y k) d d1
    → IsIndexOf k (reflect (axis_digit p.x k) (axis_digit p.y k) p) d1 d2
    → IsIndexOf (suc k) p d d2
unfolding Curve
HasQuadrant-IsIndexOf k p d d1 d2 hk q r = record {
  fits = r.fits;
  kept = λ j hj le. r.kept j hj (omega arith) ∙ q.others j hj (omega arith) (omega arith);
  on =
      let rx = axis_digit p.x k in
      let ry = axis_digit p.y k in
      (
        r.kept (2 * k + 1) (omega arith) (omega arith) ∙ q.high,
        r.kept (2 * k) (omega arith) (omega arith) ∙ q.low,
        Curve-cong k (axis_digit (reflect rx ry p).x) (axis_digit (reflect rx ry p).y)
            (index_digit d2) (turn rx ry (axis_digit p.x) (axis_digit p.y))
            (turn rx ry (axis_digit p.y) (axis_digit p.x)) (index_digit d2)
            (λ j hj. (reflect-turn rx ry p j (omega arith)).0)
            (λ j hj. (reflect-turn rx ry p j (omega arith)).1) (λ j hj. refl) r.on,
      );
}

point_to_ip_loop-IsIndexOf :
    (k : ℕ) (p : HilbertPoint) (d : Address)
    → k ≤ 64
    → IsPoint p
    → IsAddress d
    → ((j : ℕ) → j < 2 * k → index_digit d j ≡ 0)
    → (d' : Address) × (point_to_ip_loop k p d ≡ done d') × IsIndexOf k p d d'
unfolding point_to_ip_loop Curve
point_to_ip_loop-IsIndexOf zero p d hk hp hd z =
    (d, refl, record { fits = hd; kept = λ j hj le. refl; on = tt })
point_to_ip_loop-IsIndexOf (suc k) p d hk hp hd z =
    let (d1, e1, q) =
      point_to_ip_step_lem k p d (omega arith) hd (z (2 * k) (omega arith))
        (z (2 * k + 1) (omega arith)) in
    let (d2, e2, r) =
      point_to_ip_loop-IsIndexOf k (reflect (axis_digit p.x k) (axis_digit p.y k) p) d1
        (omega arith) (reflect-IsPoint (axis_digit p.x k) (axis_digit p.y k) p hp) q.fits
        (λ j hj. q.others j (omega arith) (omega arith) (omega arith) ∙ z j (omega arith)) in
    (d2, rw e1 e2, HasQuadrant-IsIndexOf k p d d1 d2 (omega arith) q r)

-- For every address `ip_to_point` returns without a panic, and what it returns is the point of the
-- address on the curve of order 64, with axes of two words of 32 bits.
pub ip_to_point-OnCurve :
    (d : Address) → (p : HilbertPoint) × (ip_to_point d ≡ done p) × IsPoint p × OnCurve 64 p d
unfolding ip_to_point axis_digit Curve
ip_to_point-OnCurve d =
    ip_to_point_loop-OnCurve d 64 0 (record { x = axis 0 0; y = axis 0 0 }) refl (omega arith)
      (λ j hk hj. ground arith) tt

-- For every point of two axes of two words of 32 bits `point_to_ip` returns without a panic, and
-- what it returns is the address of the point on the curve of order 64, of four words of 32 bits.
pub point_to_ip-OnCurve :
    (p : HilbertPoint)
    → IsPoint p
    → (d : Address) × (point_to_ip p ≡ done d) × IsAddress d × OnCurve 64 p d
unfolding point_to_ip index_digit
point_to_ip-OnCurve p hp =
    let (d, e, r) =
      point_to_ip_loop-IsIndexOf 64 p (address 0 0 0 0) (omega arith) hp (omega arith)
        (λ j hj. ground arith) in
    (d, e, r.fits, r.on)

-- For an address of four words of 32 bits, ip_to_point returns a point without a panic, and
-- point_to_ip of that point returns the address.
pub point_to_ip-ip_to_point :
    (d : Address) → IsAddress d → (ip_to_point d >>= λ p. point_to_ip p) ≡ done d
point_to_ip-ip_to_point d hd =
    let (p, e, fp, c) = ip_to_point-OnCurve d in
    let (d', e', fd, c') = point_to_ip-OnCurve p fp in
    let same : d' ≡ d = index_ext d' d fd hd λ j hj.
      index_agrees 0 64 (axis_digit p.x) (axis_digit p.y) (index_digit d') (axis_digit p.x)
        (axis_digit p.y) (index_digit d) (λ i lo hi. (refl, refl)) c' c j (omega arith) hj in
    rw (e, e', same) refl

-- For a point whose axes are two words of 32 bits each, point_to_ip returns an address without a
-- panic, and ip_to_point of that address returns the point.
pub ip_to_point-point_to_ip :
    (p : HilbertPoint) → IsPoint p → (point_to_ip p >>= λ d. ip_to_point d) ≡ done p
ip_to_point-point_to_ip p hp =
    let (d, e, fd, c) = point_to_ip-OnCurve p hp in
    let (p', e', fp, c') = ip_to_point-OnCurve d in
    let same = λ (j : ℕ) (hj : j < 64).
      point_agrees 0 64 (axis_digit p'.x) (axis_digit p'.y) (index_digit d) (axis_digit p.x)
        (axis_digit p.y) (index_digit d) (axis_digit-lt p'.x) (axis_digit-lt p'.y)
        (axis_digit-lt p.x) (axis_digit-lt p.y) (λ i lo hi. refl) c' c j (omega arith) hj in
    let ex : p'.x ≡ p.x = axis_ext p'.x p.x fp.0 hp.0 (λ j hj. (same j hj).0) in
    let ey : p'.y ≡ p.y = axis_ext p'.y p.y fp.1 hp.1 (λ j hj. (same j hj).1) in
    let back : p' ≡ p = λ i. record { x = ex i; y = ey i } in rw (e, e', back) refl
