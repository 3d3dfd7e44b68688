-- ===== src/Timestamp/Order.antt =====
-- The order of timestamps as a relation, and the later of two.
use slash.Base.{◌≡◌, true, false, arith}
use slash.Timestamp.{Timestamp, ts_lt, ts_eq, ts_zero}
use slash.Node.Laws.{ts_max}

-- `a` is not later than `b`.
abbrev pub NotAfter : Timestamp → Timestamp → Type 0
NotAfter a b = ts_lt b a ≡ false

pub NotAfter-refl : (a : Timestamp) → NotAfter a a
NotAfter-refl a = ground arith

pub NotAfter-trans : (a b c : Timestamp) → NotAfter a b → NotAfter b c → NotAfter a c
NotAfter-trans a b c h k = ground arith

pub NotAfter-max_left : (a b : Timestamp) → NotAfter a (ts_max a b)
NotAfter-max_left a b = ground arith

pub NotAfter-max_right : (a b : Timestamp) → NotAfter b (ts_max a b)
NotAfter-max_right a b = ground arith

pub max-NotAfter : (a b c : Timestamp) → NotAfter a c → NotAfter b c → NotAfter (ts_max a b) c
max-NotAfter a b c h k = ground arith

pub zero-NotAfter : (a : Timestamp) → NotAfter ts_zero a
zero-NotAfter a = ground arith

-- Where the later of two is the first, the other is not after it.
pub max-eq : (a b : Timestamp) → ts_eq (ts_max a b) a ≡ true → NotAfter b a
max-eq a b h = ground arith
