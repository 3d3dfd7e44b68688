-- ===== src/Timestamp/Laws.antt =====
-- Milliseconds and timestamps: the round trips, and the order.
use slash.Base.{ℕ, ◌+◌, ◌*◌, ◌/◌, ◌%◌, ◌^◌, ◌<◌, ◌≡◌, ◌↔◌, true, arith}
use slash.Word.Bits.{bit_or_fields}
use slash.Timestamp.{Timestamp, ts, from_millis, as_millis, ts_lt}

abbrev pub IsTimestamp : Timestamp → Type 0
IsTimestamp t = (t.hi < 2 ^ 32) × (t.lo < 2 ^ 32)

as_millis-sum : (t : Timestamp) → IsTimestamp t → as_millis t ≡ t.hi * 2 ^ 32 + t.lo
unfolding as_millis
as_millis-sum t h = bit_or_fields 32 t.hi t.lo h.1

-- A count of milliseconds below 2^64 comes back from its two words.
pub as_millis-from_millis : (ms : ℕ) → ms < 2 ^ 64 → as_millis (from_millis ms) ≡ ms
unfolding from_millis
as_millis-from_millis ms h =
    omega (arith, as_millis-sum (ts (ms / 2 ^ 32 % 2 ^ 32) (ms % 2 ^ 32)) (omega arith))

-- A timestamp of two words of 32 bits comes back from its milliseconds.
pub from_millis-as_millis : (t : Timestamp) → IsTimestamp t → from_millis (as_millis t) ≡ t
unfolding from_millis
from_millis-as_millis t h = ground (arith, as_millis-sum t h)

-- On timestamps of two words of 32 bits the derived order of the words is the order of the
-- milliseconds.
pub ts_lt_iff :
    (a b : Timestamp)
    → IsTimestamp a
    → IsTimestamp b
    → (ts_lt a b ≡ true) ↔ (as_millis a < as_millis b)
ts_lt_iff a b ha hb = ground (arith, as_millis-sum a ha, as_millis-sum b hb)
