-- ===== src/Hilbert/Cells.antt =====
-- Prefixes on the curve of crates/core/src/hilbert.rs: the addresses with the same first `2 * n`
-- bits are the points of one square cell.
use slash.Base.{ℕ, ◌-◌, ◌*◌, ◌<◌, ◌≤◌, ◌≡◌, ◌↔◌, arith, sym, ◌∙◌, subst}
use slash.Base.Outcome.{done}
use slash.Address.{Address}
use slash.Address.Agree.{Agree}
use slash.Hilbert.{HilbertPoint, ip_to_point}
use slash.Hilbert.Digits.{axis_digit, axis_digit-lt}
use slash.Hilbert.Index.{index_digit, index_digit-address_bit}
use slash.Hilbert.Curve.{index_agrees, point_agrees}
use slash.Hilbert.Laws.{OnCurve, ip_to_point-OnCurve}

-- The first `n` digits of both axes are the same: both points are in one of the squares with sides
-- of `2 ^ (64 - n)`.
abbrev pub InOneCell : ℕ → HilbertPoint → HilbertPoint → Type 0
InOneCell n p q =
    (j : ℕ)
    → 64 - n ≤ j
    → j < 64
    → (axis_digit p.x j ≡ axis_digit q.x j) × (axis_digit p.y j ≡ axis_digit q.y j)

abbrev HighDigits : ℕ → Address → Address → Type 0
HighDigits n d e = (j : ℕ) → 2 * (64 - n) ≤ j → j < 128 → index_digit d j ≡ index_digit e j

Agree-HighDigits : (n : ℕ) (d e : Address) → n ≤ 64 → Agree (2 * n) d e → HighDigits n d e
Agree-HighDigits n d e hn same j lo hi =
    let i : 127 - (127 - j) ≡ j = omega arith in
    let step : index_digit d (127 - (127 - j)) ≡ index_digit e (127 - (127 - j)) =
      index_digit-address_bit d (127 - j) (omega arith)
      ∙ same (127 - j) (omega arith)
      ∙ sym (index_digit-address_bit e (127 - j) (omega arith)) in
    subst (λ (c : ℕ). index_digit d c ≡ index_digit e c) i step

HighDigits-Agree : (n : ℕ) (d e : Address) → n ≤ 64 → HighDigits n d e → Agree (2 * n) d e
HighDigits-Agree n d e hn same i hi =
    sym (index_digit-address_bit d i (omega arith))
    ∙ same (127 - i) (omega arith) (omega arith)
    ∙ index_digit-address_bit e i (omega arith)

OnCurve-cells :
    (n : ℕ) (p q : HilbertPoint) (d e : Address)
    → n ≤ 64
    → OnCurve 64 p d
    → OnCurve 64 q e
    → Agree (2 * n) d e ↔ InOneCell n p q
OnCurve-cells n p q d e hn h k = (
  λ same.
      point_agrees (64 - n) 64 (axis_digit p.x) (axis_digit p.y) (index_digit d) (axis_digit q.x)
        (axis_digit q.y) (index_digit e) (axis_digit-lt p.x) (axis_digit-lt p.y) (axis_digit-lt q.x)
        (axis_digit-lt q.y) (Agree-HighDigits n d e hn same) h k,
  λ one. HighDigits-Agree n d e hn (
      index_agrees (64 - n) 64 (axis_digit p.x) (axis_digit p.y) (index_digit d) (axis_digit q.x)
        (axis_digit q.y) (index_digit e) one h k),
)

-- For every n of at most 64, ip_to_point puts two addresses into one cell, that is, gives points
-- whose axes have the same first n digits, just where the addresses have the same first 2n bits.
pub ip_to_point-InOneCell :
    (n : ℕ) (d e : Address)
    → n ≤ 64
    → (p : HilbertPoint) × (q : HilbertPoint) × (ip_to_point d ≡ done p)
      × (ip_to_point e ≡ done q)
      × (Agree (2 * n) d e ↔ InOneCell n p q)
ip_to_point-InOneCell n d e hn =
    let (p, ep, fp, cp) = ip_to_point-OnCurve d in
    let (q, eq, fq, cq) = ip_to_point-OnCurve e in (p, q, ep, eq, OnCurve-cells n p q d e hn cp cq)
