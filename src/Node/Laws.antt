-- ===== src/Node/Laws.antt =====
-- The announced flag of a node, and the time that `merge_ancestor` leaves.
use slash.Base.{ℕ, ◌-◌, ◌^◌, ◌≡◌, Bool, true, false, bit_and, bit_or, ◌==◌, if◌then◌else◌, arith}
use slash.Word.Step.{bit_and_step, bit_or_step}
use slash.Word.Bits.{bit_and-one}
use slash.Timestamp.{Timestamp, ts_lt, ts_eq}
use slash.Node.{NodeData, merge_ancestor, Node, is_announced, set_announced}

-- Is_announced reads what set_announced wrote, whatever the other flags are.
pub is_announced-set_announced :
    {D : Type 0} (n : Node D) (on : Bool) → is_announced (set_announced n on) ≡ on
unfolding is_announced set_announced
is_announced-set_announced n true =
    ground (arith, bit_and-one (bit_or n.flags 1), bit_or_step n.flags 1)
is_announced-set_announced n false =
    ground (arith, bit_and-one (bit_and n.flags (2 ^ 32 - 2)), bit_and_step n.flags (2 ^ 32 - 2))

-- The later of two times.
abbrev pub ts_max : Timestamp → Timestamp → Timestamp
ts_max a b = if ts_lt a b then b else a

-- After merge_ancestor the time of a payload is the later of its own and the given one.
pub timestamp-merge_ancestor :
    {D : Type 0} (nd : NodeData D) (d : D) (t : Timestamp)
    → nd.timestamp (merge_ancestor nd d t) ≡ ts_max (nd.timestamp d) t
unfolding merge_ancestor
timestamp-merge_ancestor nd d t = ground (arith, nd.timestamp-set d t)

-- A flag that was set.
pub flag_or : (f : ℕ) → (bit_and (bit_or f 1) 1 == 1) ≡ true
flag_or f = ground (arith, bit_and-one (bit_or f 1), bit_or_step f 1)

-- A flag that was cleared.
pub flag_and : (f : ℕ) → (bit_and (bit_and f (2 ^ 32 - 1 - 1)) 1 == 1) ≡ false
flag_and f = ground (arith, bit_and-one (bit_and f (2 ^ 32 - 2)), bit_and_step f (2 ^ 32 - 2))

-- Merging a time that leaves a payload's time leaves the payload.
pub merge_ancestor_same :
    {D : Type 0} (nd : NodeData D) (d : D) (t : Timestamp)
    → ts_eq (nd.timestamp (merge_ancestor nd d t)) (nd.timestamp d) ≡ true
    → merge_ancestor nd d t ≡ d
unfolding merge_ancestor
merge_ancestor_same nd d t e = ground (arith, nd.timestamp-set d t)
