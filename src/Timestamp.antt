-- ===== src/Timestamp.antt =====
-- crates/core/src/timestamp.rs: milliseconds as two `u32` words, the high one first, compared word
-- by word. `from_sec` multiplies an `f64`; what that gives is a parameter of its users.
pub mod Laws
pub mod Order
use slash.Base.{ℕ, ◌+◌, ◌*◌, ◌/◌, ◌%◌, ◌^◌, ◌<◌, Bool, ◌&&◌, ◌||◌, bit_or, ltb, ◌==◌, if◌then◌else◌}

pub record Timestamp : Type 0 where
  pub hi : ℕ
  pub lo : ℕ

abbrev pub ts : ℕ → ℕ → Timestamp
ts h l = record { hi = h; lo = l }

abbrev pub ts_zero : Timestamp
ts_zero = ts 0 0

-- `(ms >> 32) as u32` and `ms as u32`.
unfoldable pub from_millis : ℕ → Timestamp
from_millis ms = ts (ms / 2 ^ 32 % 2 ^ 32) (ms % 2 ^ 32)

unfoldable pub as_millis : Timestamp → ℕ
as_millis t = bit_or (t.hi * 2 ^ 32) t.lo

-- The derived order, `a < b` and `a == b`.
abbrev pub ts_lt : Timestamp → Timestamp → Bool
ts_lt a b = ltb a.hi b.hi || (a.hi == b.hi && ltb a.lo b.lo)

abbrev pub ts_eq : Timestamp → Timestamp → Bool
ts_eq a b = a.hi == b.hi && a.lo == b.lo
