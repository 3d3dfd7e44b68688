-- ===== src/Hilbert.antt =====
-- crates/core/src/hilbert.rs: the Hilbert curve of order 64 between addresses and points. A loop
-- over the levels is a recursion on how many levels are left.
pub mod Digits
pub mod Index
pub mod Curve
pub mod Steps
pub mod Laws
pub mod Cells
pub mod Neighbours
pub mod Numbers
use slash.Base.{
  ℕ, zero, suc, ◌+◌, ◌-◌, ◌*◌, ◌/◌, ◌%◌, bit_and, bit_or, bit_xor, Option, none, some, leb, ◌==◌,
  if◌then◌else◌,
}
use slash.Base.Outcome.{Outcome, done, ◌>>=◌, ◌>>◌, expect, assert}
use slash.Word.{◌<<<◌, ◌>>>◌, all_ones}
use slash.Address.{Address, address, word?}

-- An axis, `[u32; 2]`.
pub record Axis : Type 0 where
  pub a0 : ℕ
  pub a1 : ℕ

pub record HilbertPoint : Type 0 where
  pub x : Axis
  pub y : Axis

abbrev pub levels : ℕ
levels = 64

abbrev pub axis : ℕ → ℕ → Axis
axis hi lo = record { a0 = hi; a1 = lo }

abbrev pub axis_word? : Axis → ℕ → Option ℕ
axis_word? a zero = some a.a0
axis_word? a (suc zero) = some a.a1
axis_word? a (suc (suc i)) = none

abbrev pub set_axis_word : Axis → ℕ → ℕ → Axis
set_axis_word a zero w = axis w a.a1
set_axis_word a (suc i) w = axis a.a0 w

abbrev pub set_word : Address → ℕ → ℕ → Address
set_word a zero w = address w a.w1 a.w2 a.w3
set_word a (suc zero) w = address a.w0 w a.w2 a.w3
set_word a (suc (suc zero)) w = address a.w0 a.w1 w a.w3
set_word a (suc (suc (suc i))) w = address a.w0 a.w1 a.w2 w

-- The subtractions `3 - bit / 32` and `1 - bit / 32` panic below 0.
unfoldable pub index_bit : Address → ℕ → Outcome ℕ
index_bit ip b = do
  assert (leb (b / 32) 3)
  w ← expect (word? ip (3 - b / 32))
  done (bit_and (w >>> (b % 32)) 1)

unfoldable pub set_index_bit : Address → ℕ → Outcome Address
set_index_bit ip b = do
  assert (leb (b / 32) 3)
  w ← expect (word? ip (3 - b / 32))
  done (set_word ip (3 - b / 32) (bit_or w (1 <<< (b % 32))))

unfoldable pub axis_bit : Axis → ℕ → Outcome ℕ
axis_bit a b = do
  assert (leb (b / 32) 1)
  w ← expect (axis_word? a (1 - b / 32))
  done (bit_and (w >>> (b % 32)) 1)

unfoldable pub set_axis_bit : Axis → ℕ → Outcome Axis
set_axis_bit a b = do
  assert (leb (b / 32) 1)
  w ← expect (axis_word? a (1 - b / 32))
  done (set_axis_word a (1 - b / 32) (bit_or w (1 <<< (b % 32))))

unfoldable pub low_bit_mask : ℕ → ℕ
low_bit_mask n = if leb 32 n then all_ones else (1 <<< n) - 1

unfoldable pub complement_low_axis_bits : Axis → ℕ → Axis
complement_low_axis_bits a bits =
    axis (bit_xor a.a0 (low_bit_mask (bits - 32))) (bit_xor a.a1 (low_bit_mask bits))

-- The rotation of a level: both axes complemented where `rx` is 1, then swapped.
unfoldable pub rotate : ℕ → ℕ → ℕ → HilbertPoint → HilbertPoint
rotate level rx ry p =
    if ry == 0
    then (if rx == 1
        then record {
          x = complement_low_axis_bits p.y level;
          y = complement_low_axis_bits p.x level;
        }
        else record { x = p.y; y = p.x })
    else p

-- The round of `ip_to_point` for a level.
unfoldable pub ip_to_point_step : Address → ℕ → HilbertPoint → Outcome HilbertPoint
ip_to_point_step ip level p = do
  rx ← index_bit ip (2 * level + 1)
  b ← index_bit ip (2 * level)
  let ry = bit_xor b rx
  let p' = rotate level rx ry p
  x ← (if rx == 1 then set_axis_bit p'.x level else done p'.x)
  y ← (if ry == 1 then set_axis_bit p'.y level else done p'.y)
  done (record { x = x; y = y })

unfoldable pub ip_to_point_loop : Address → ℕ → HilbertPoint → Outcome HilbertPoint
ip_to_point_loop ip zero p = done p
ip_to_point_loop ip (suc left) p =
    ip_to_point_step ip (levels - suc left) p >>= λ p'. ip_to_point_loop ip left p'

unfoldable pub ip_to_point : Address → Outcome HilbertPoint
ip_to_point ip = ip_to_point_loop ip levels (record { x = axis 0 0; y = axis 0 0 })

abbrev pub flip : Axis → Axis
flip a = axis (bit_xor a.a0 all_ones) (bit_xor a.a1 all_ones)

-- The turn of a level of `point_to_ip`: both axes complemented whole where `rx` is 1, then swapped.
unfoldable pub reflect : ℕ → ℕ → HilbertPoint → HilbertPoint
reflect rx ry p =
    if ry == 0
    then (if rx == 1 then record { x = flip p.y; y = flip p.x } else record { x = p.y; y = p.x })
    else p

-- The round of `point_to_ip` for a level.
unfoldable pub point_to_ip_step : ℕ → HilbertPoint → Address → Outcome (HilbertPoint × Address)
point_to_ip_step level p ip = do
  rx ← axis_bit p.x level
  ry ← axis_bit p.y level
  let quadrant = bit_xor (3 * rx) ry
  ip' ← (if bit_and quadrant 1 == 1 then set_index_bit ip (2 * level) else done ip)
  ip'' ← (if bit_and quadrant 2 == 2 then set_index_bit ip' (2 * level + 1) else done ip')
  done (reflect rx ry p, ip'')

unfoldable pub point_to_ip_loop : ℕ → HilbertPoint → Address → Outcome Address
point_to_ip_loop zero p ip = done ip
point_to_ip_loop (suc level) p ip =
    point_to_ip_step level p ip >>= λ r. point_to_ip_loop level r.0 r.1

unfoldable pub point_to_ip : HilbertPoint → Outcome Address
point_to_ip p = point_to_ip_loop levels p (address 0 0 0 0)
