-- ===== src/Examples.antt =====
-- Small addresses, prefixes, slabs and trees, and what the theorems say of them.
pub mod Client
pub mod Dirty
pub mod Connection
pub mod Server
pub mod Follows
pub mod Sweep
pub mod Times
pub mod Curve
pub mod Gauges
use slash.Base.{
  List, subst, Bool, ℕ, ◌+◌, ◌-◌, ◌↔◌, ◌^◌, ◌≤◌, ◌<◌, ◌≡◌, ◌⊎◌, refl, true, false, Option, none,
  some, [], ◌∷◌, min, arith, if◌then◌else◌, ltb, length,
}
use slash.Base.Outcome.{done, panic}
use slash.Address
use slash.Address.{Address, from_u32}
use slash.Address.Agree.{
  IsAddress, Agree, address_bit, bit_at_lem, bit_at-panic, IsCommonLen,
  common_prefix_len-IsCommonLen, masked-bit,
}
use slash.Prefix
use slash.Prefix.{Prefix, prefix, IpVersion, v4}
use mathlib.Core.List.Memᴰ.{Memᴰ}
use slash.Messages.{BgpUpdate, ThinBgpUpdate, to_thin_updates}
use slash.Messages.Laws.{IsListedUpdate, to_thin_updates-IsFrom}
use slash.Prefix.Cidr.{Text, IpAddr, ip_v4, CidrParseError, parse_cidr}
use slash.Prefix.Cidr.Laws.{IsIp, IsParsed, parse_cidr-IsParsed}
use slash.Prefix.Laws.{
  IsTruncation, new-IsTruncation, common_prefix_len-lem, covers_iff, new-IsPrefix,
  masked-IsTruncation,
}
use slash.Timestamp.{ts, from_millis, as_millis, ts_lt}
use slash.Timestamp.Laws.{as_millis-from_millis, from_millis-as_millis, ts_lt_iff}
use slash.Node.{Node, ThinData, thin, thin_node_data, merge_ancestor, is_announced, set_announced}
use slash.Node.Laws.{ts_max, is_announced-set_announced, timestamp-merge_ancestor}
use slash.Slab.{VecSlab, alloc, free, write}
use slash.Slab.Alloc.{IsSlab, IsLive, IsAlloc, alloc-IsAlloc}
use slash.Slab.Free.{IsFree, IsWrite, free-IsFree, free-panic, write-IsWrite}
use slash.Tree.{RadixTree, lookup}
use slash.Tree.Trie.{Trie, nil, node, Represents, IsCharged, count_announced}
use slash.Tree.{from_thick_tree}
use slash.Tree.Thin.{lookup-from_thick_tree}
use slash.Node.{ThickData, thick}
use slash.Hilbert.{
  ip_to_point, point_to_ip, ip_to_point_loop, ip_to_point_step, rotate, complement_low_axis_bits,
  low_bit_mask, set_axis_bit, axis_bit, set_index_bit, index_bit, point_to_ip_loop,
  point_to_ip_step, reflect,
}
use slash.Address.{address}
use slash.Base.Outcome.{◌>>=◌}
use slash.Tree.Monad.{State}
use slash.Tree.Insert.{insert}
use slash.Tree.Insert.Correct.{IsInserted, insert-IsInserted}
use slash.Tree.Withdraw.{withdraw}
use slash.Tree.Withdraw.Correct.{IsWithdrawn, withdraw-IsWithdrawn}
use slash.Tree.Read.{IsLongestMatch}
use slash.Tree.Read.Lookup.{lookup-IsLongestMatch}

-- 10.1.2.3, 10.0.0.0/8 and 10.1.0.0/16.
abbrev ten : Address
ten = record { w0 = 167838211; w1 = 0; w2 = 0; w3 = 0 }

ten-IsAddress : IsAddress ten
ten-IsAddress = (omega arith, omega arith, omega arith, omega arith)

abbrev ten_8 : Prefix
ten_8 = prefix (Address.masked ten 8) 8

abbrev ten_16 : Prefix
ten_16 = prefix (Address.masked ten 16) 16

ten_8-IsTruncation : IsTruncation ten 8 ten_8
ten_8-IsTruncation = masked-IsTruncation ten 8 ten-IsAddress (omega arith)

ten_16-IsTruncation : IsTruncation ten 16 ten_16
ten_16-IsTruncation = masked-IsTruncation ten 16 ten-IsAddress (omega arith)

bit_at_lem_example : Address.bit_at ten 4 ≡ done (address_bit ten 4)
bit_at_lem_example = bit_at_lem ten 4 (omega arith)

common_prefix_len-IsCommonLen_example :
    IsCommonLen ten ten (min 8 16) (Address.common_prefix_len ten 8 ten 16)
common_prefix_len-IsCommonLen_example =
    common_prefix_len-IsCommonLen ten ten 8 16 ten-IsAddress ten-IsAddress (omega arith)

covers_iff_example : (Prefix.covers ten_8 ten ≡ true) ↔ Agree 8 ten_8.bits ten
covers_iff_example = covers_iff ten_8 ten ten_8-IsTruncation.valid ten-IsAddress

common_prefix_len-lem_example :
    IsCommonLen ten_8.bits ten_16.bits (min 8 16) (Prefix.common_prefix_len ten_8 ten_16)
common_prefix_len-lem_example =
    common_prefix_len-lem ten_8 ten_16 ten_8-IsTruncation.valid ten_16-IsTruncation.valid

-- Stand-ins for the standard library's parsers: each knows one text.
abbrev ip_parser : Text → Option IpAddr
ip_parser [] = none
ip_parser (_ ∷ _) = some (ip_v4 167838211)

abbrev len_parser : Text → Option ℕ
len_parser [] = none
len_parser (_ ∷ _) = some 8

ip_parser-IsIp : (text : Text) (ip : IpAddr) → ip_parser text ≡ some ip → IsIp ip
ip_parser-IsIp [] ip e = cc
ip_parser-IsIp (c ∷ text) ip e =
    let same : ip_v4 167838211 ≡ ip = cc in subst (λ i. IsIp i) same (omega arith)

-- The text `1/8`.
abbrev cidr : Text
cidr = 49 ∷ 47 ∷ 56 ∷ []

parse_cidr-IsParsed_example :
    (res : CidrParseError ⊎ IpVersion × Prefix) × (parse_cidr ip_parser len_parser cidr ≡ done res)
    × IsParsed ip_parser len_parser cidr res
parse_cidr-IsParsed_example = parse_cidr-IsParsed ip_parser len_parser cidr ip_parser-IsIp

-- One announced text and one withdrawn.
abbrev bgp_update : BgpUpdate
bgp_update = record {
  path = none;
  community = none;
  origin = none;
  med = none;
  aggregator = none;
  announcements = some (record { next_hop = []; prefixes = cidr ∷ [] } ∷ []);
  withdrawals = some (cidr ∷ []);
}

to_thin_updates-IsFrom_example :
    (us : List ThinBgpUpdate) × (to_thin_updates ip_parser len_parser (ts 0 5) v4 bgp_update
      ≡ done us)
    × ((x : ThinBgpUpdate)
        → Memᴰ x us ↔ IsListedUpdate ip_parser len_parser (ts 0 5) v4 bgp_update x)
to_thin_updates-IsFrom_example =
    to_thin_updates-IsFrom ip_parser len_parser (ts 0 5) v4 bgp_update ip_parser-IsIp

abbrev leaf : Node ThinData
leaf = record { child0 = none; child1 = none; prefix = ten_8; flags = 1; payload = thin (ts 0 5) }

-- A slab with the one index 1 handed out.
abbrev slab : VecSlab (Node ThinData)
slab = record { entries = leaf ∷ leaf ∷ []; free_list = []; max_capacity = 2 ^ 32 - 1 }

slab-IsSlab : IsSlab slab
slab-IsSlab = record {
  reserved = omega arith;
  freed_in_range = tt;
  freed_once = tt;
  fits = omega arith;
  capacity = omega arith;
}

slab-IsLive : IsLive slab 1
slab-IsLive = record { nonzero = omega arith; in_range = omega arith; not_freed = refl }

alloc-IsAlloc_example :
    ((idx : ℕ) × (s' : VecSlab (Node ThinData)) × (alloc leaf slab ≡ (some idx, s'))
      × IsAlloc leaf slab s' idx)
    ⊎ ((alloc leaf slab ≡ (none, slab))
        × (slab.free_list ≡ [])
        × (length slab.entries ≡ slab.max_capacity + 1))
alloc-IsAlloc_example = alloc-IsAlloc leaf slab slab-IsSlab

free-IsFree_example :
    (s' : VecSlab (Node ThinData)) × (free slab 1 ≡ done s')
    × IsFree slab s' 1
    × (alloc leaf s' ≡ (some 1, slab))
free-IsFree_example = free-IsFree leaf slab 1 slab-IsSlab slab-IsLive

-- The tree whose only node is 10.0.0.0/8.
abbrev tree : RadixTree ThinData
tree = record { slab = slab; root = some 1; announced_count = 1; sweep_count = 0 }

abbrev trie : Trie ThinData
trie = node 1 ten_8 1 (thin (ts 0 5)) nil nil

tree-Represents : Represents tree trie
unfolding count_announced
tree-Represents = record {
  slab = slab-IsSlab;
  stored = (refl, slab-IsLive, tt, tt);
  root = refl;
  separate = (refl, refl, (λ j h. refl), tt, tt);
  shape = (ten_8-IsTruncation.valid, tt, tt, tt, tt);
  tally = refl;
}

insert-IsInserted_example :
    (target : ℕ) × (s' : State ThinData) × (t' : Trie ThinData) × (insert thin_node_data ten_16
        (thin (ts 0 7))
        (ts 0 7)
        (record { tree = tree; dirty = [] })
      ≡ done (target, s'))
    × Represents s'.tree t'
    × IsInserted thin_node_data ten_16 (thin (ts 0 7)) (ts 0 7) trie t' target
    × IsCharged tree s'.tree trie t'
insert-IsInserted_example =
    insert-IsInserted thin_node_data ten_16 (thin (ts 0 7)) (ts 0 7)
      (record { tree = tree; dirty = [] }) trie tree-Represents ten_16-IsTruncation.valid
      (omega arith) (omega arith)

withdraw-IsWithdrawn_example :
    (found : Bool) × (s' : State ThinData) × (t' : Trie ThinData) × (withdraw thin_node_data ten_8
        (ts 0 7)
        (record { tree = tree; dirty = [] })
      ≡ done (found, s'))
    × Represents s'.tree t'
    × IsWithdrawn thin_node_data ten_8 (ts 0 7) trie t' found
    × ((found ≡ true) ⊎ (s' ≡ record { tree = tree; dirty = [] }))
    × IsCharged tree s'.tree trie t'
withdraw-IsWithdrawn_example =
    withdraw-IsWithdrawn thin_node_data ten_8 (ts 0 7) (record { tree = tree; dirty = [] }) trie
      tree-Represents ten_8-IsTruncation.valid

-- The tree with the payloads of the server.
abbrev thick_leaf : Node ThickData
thick_leaf = record {
  child0 = none;
  child1 = none;
  prefix = ten_8;
  flags = 1;
  payload = thick (ts 0 5);
}

abbrev thick_tree : RadixTree ThickData
thick_tree = record {
  slab = record {
    entries = thick_leaf ∷ thick_leaf ∷ [];
    free_list = [];
    max_capacity = 2 ^ 32 - 1;
  };
  root = some 1;
  announced_count = 1;
  sweep_count = 0;
}

lookup-from_thick_tree_example : lookup (from_thick_tree thick_tree) ten ≡ lookup thick_tree ten
lookup-from_thick_tree_example = lookup-from_thick_tree thick_tree ten

lookup-IsLongestMatch_example :
    (res : Option ℕ) × (lookup tree ten ≡ done res) × IsLongestMatch trie ten res
lookup-IsLongestMatch_example = lookup-IsLongestMatch tree trie ten tree-Represents ten-IsAddress

-- The address 42 on the Hilbert curve and back.
there_and_back_42 :
    (ip_to_point (address 0 0 0 42) >>= λ p. point_to_ip p) ≡ done (address 0 0 0 42)
unfolding ip_to_point ip_to_point_loop ip_to_point_step rotate complement_low_axis_bits low_bit_mask
    set_axis_bit axis_bit set_index_bit index_bit point_to_ip point_to_ip_loop point_to_ip_step
    reflect
there_and_back_42 = refl
