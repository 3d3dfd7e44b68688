-- ===== src/Node.antt =====
-- crates/core/src/node.rs, thin.rs and thick.rs: trie nodes and the payloads that they carry. The
-- trait `NodeData` is a record of its operations with the laws that its comments state; `ThinData`
-- and `ThickData` fill it. A `NodeIdx` is a number, and the flags are their bits, of which
-- `ANNOUNCED` is the lowest.
pub mod Laws
use slash.Base.{
  ℕ, zero, suc, ◌+◌, ◌-◌, ◌^◌, ◌≡◌, refl, Bool, true, false, Option, none, some, bit_and, bit_or,
  ◌==◌, if◌then◌else◌,
}
use slash.Timestamp.{Timestamp, ts_zero, ts_lt}
use slash.Prefix.{Prefix}

pub record NodeData (D : Type 0) : Type 0 where
  pub default : D
  pub timestamp : D → Timestamp
  pub set_timestamp : D → Timestamp → D
  -- The payload, what comes in, and the time.
  pub apply_announce : D → D → Timestamp → D
  pub apply_withdraw : D → Timestamp → D
  pub timestamp-default : timestamp default ≡ ts_zero
  pub timestamp-set : (d : D) (t : Timestamp) → timestamp (set_timestamp d t) ≡ t
  pub timestamp-announce : (d e : D) (t : Timestamp) → timestamp (apply_announce d e t) ≡ t
  pub timestamp-withdraw : (d : D) (t : Timestamp) → timestamp (apply_withdraw d t) ≡ t

-- The trait's own `merge_ancestor`, which neither payload overrides.
unfoldable pub merge_ancestor : {D : Type 0} → NodeData D → D → Timestamp → D
merge_ancestor nd d descendant_ts =
    if ts_lt (nd.timestamp d) descendant_ts then nd.set_timestamp d descendant_ts else d

pub record ThinData : Type 0 where
  pub timestamp : Timestamp

abbrev pub thin : Timestamp → ThinData
thin t = record { timestamp = t }

abbrev pub thin_node_data : NodeData ThinData
thin_node_data = record {
  default = thin ts_zero;
  timestamp = λ d. d.timestamp;
  set_timestamp = λ d t. record d { timestamp = t };
  apply_announce = λ d _ t. record d { timestamp = t };
  apply_withdraw = λ d t. record d { timestamp = t };
  timestamp-default = refl;
  timestamp-set = λ d t. refl;
  timestamp-announce = λ d e t. refl;
  timestamp-withdraw = λ d t. refl;
}

pub record ThickData : Type 0 where
  pub timestamp : Timestamp

abbrev pub thick : Timestamp → ThickData
thick t = record { timestamp = t }

abbrev pub thick_node_data : NodeData ThickData
thick_node_data = record {
  default = thick ts_zero;
  timestamp = λ d. d.timestamp;
  set_timestamp = λ d t. record d { timestamp = t };
  apply_announce = λ _ incoming t. record incoming { timestamp = t };
  apply_withdraw = λ _ t. record (thick ts_zero) { timestamp = t };
  timestamp-default = refl;
  timestamp-set = λ d t. refl;
  timestamp-announce = λ d e t. refl;
  timestamp-withdraw = λ d t. refl;
}

-- `From<&ThickData> for ThinData`.
unfoldable pub thin_of_thick : ThickData → ThinData
thin_of_thick t = thin t.timestamp

pub record Node (D : Type 0) : Type 0 where
  pub child0 : Option ℕ
  pub child1 : Option ℕ
  pub prefix : Prefix
  pub flags : ℕ
  pub payload : D

-- `NodeFlags::ANNOUNCED`.
abbrev pub announced_flag : ℕ
announced_flag = 1

module _ {D : Type 0} where
  -- `flags.contains(ANNOUNCED)`.
  unfoldable pub is_announced : Node D → Bool
  is_announced n = bit_and n.flags announced_flag == announced_flag

  -- `flags.set(ANNOUNCED, on)`: insert or remove the flag.
  unfoldable pub set_announced : Node D → Bool → Node D
  set_announced n on = record n {
    flags =
        if on then bit_or n.flags announced_flag else bit_and n.flags (2 ^ 32 - 1 - announced_flag);
  }

  -- `children[bit]`, where a bit is 0 or 1.
  abbrev pub child : Node D → ℕ → Option ℕ
  child n bit = if bit == 0 then n.child0 else n.child1

  -- `children[bit] = c`.
  abbrev pub set_child : Node D → ℕ → Option ℕ → Node D
  set_child n bit c = if bit == 0 then record n { child0 = c } else record n { child1 = c }

  unfoldable pub child_count : Node D → ℕ
  child_count n = count n.child0 + count n.child1
    where
      count : Option ℕ → ℕ
      count none = 0
      count (some _) = 1
