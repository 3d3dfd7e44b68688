-- ===== src/Tree.antt =====
-- The read side of crates/core/src/tree.rs: the trie over a slab of nodes, and longest-prefix
-- lookup. What a walk reads is a function `get` from an index to a node, which is what the trait
-- `SlabRead` gives; `VecSlab::get` is one, and the shader's `GpuSlab::get` another. A walk runs on
-- fuel. Every step of a well-formed trie goes to a longer prefix, and 128 is the longest, so
-- `walk_fuel` is enough.
pub mod Read
pub mod Thin
pub mod Trie
pub mod Monad
pub mod Dirty
pub mod Insert
pub mod Withdraw
pub mod Sweep
pub mod Ready
pub mod Exact
use slash.Base.{
  ℕ, zero, suc, ◌+◌, Bool, true, false, ◌||◌, Option, none, some, List, ltb, leb, ◌==◌,
  if◌then◌else◌,
}
use slash.Base.Outcome.{Outcome, done, out_of_fuel, ◌>>=◌, ◌>>◌}
use slash.Address.{Address}
use slash.Prefix
use slash.Prefix.{Prefix, max_prefix_len}
use slash.Node.{Node, ThinData, ThickData, thin_of_thick, is_announced, child}
use slash.Slab
use slash.Slab.{VecSlab}

pub record RadixTree (D : Type 0) : Type 0 where
  pub slab : VecSlab (Node D)
  pub root : Option ℕ
  pub announced_count : ℕ
  pub sweep_count : ℕ

-- `with_root`; `new` is `with_root slab none`.
unfoldable pub with_root : {D : Type 0} → VecSlab (Node D) → Option ℕ → RadixTree D
with_root slab root = record { slab = slab; root = root; announced_count = 0; sweep_count = 0 }

unfoldable pub node_count : {D : Type 0} → RadixTree D → ℕ
node_count t = Slab.len t.slab

abbrev pub walk_fuel : ℕ
walk_fuel = 130

module _ {D : Type 0} (get : ℕ → Outcome (Node D)) (count_all_below : ℕ) (prefix : Prefix) where
  -- The loop of `limited_lookup` from the node `cur_idx` with the answer so far. That of `lookup`
  -- is the same with no length at which structural nodes count.
  unfoldable pub limited_loop : ℕ → ℕ → Option ℕ → Outcome (Option ℕ)
  limited_loop zero cur_idx ans = out_of_fuel
  limited_loop (suc fuel) cur_idx ans = do
    cur ← get cur_idx
    if ltb (Prefix.common_prefix_len cur.prefix prefix) cur.prefix.len
        then done ans
        else (let ans' =
              if is_announced cur || leb count_all_below cur.prefix.len
              then some cur_idx
              else ans in
            if cur.prefix.len == max_prefix_len
            then done ans'
            else (Prefix.bit_at prefix cur.prefix.len >>= λ bit. elim (child cur bit) [
              | some next ↦ limited_loop fuel next ans'
              | none ↦ done ans'
            ]))

module _ {D : Type 0} (get : ℕ → Outcome (Node D)) (prefix : Prefix) where
  unfoldable pub lookup_loop : ℕ → ℕ → Option ℕ → Outcome (Option ℕ)
  lookup_loop zero cur_idx ans = out_of_fuel
  lookup_loop (suc fuel) cur_idx ans = do
    cur ← get cur_idx
    if ltb (Prefix.common_prefix_len cur.prefix prefix) cur.prefix.len
        then done ans
        else (let ans' = if is_announced cur then some cur_idx else ans in
            if cur.prefix.len == max_prefix_len
            then done ans'
            else (Prefix.bit_at prefix cur.prefix.len >>= λ bit. elim (child cur bit) [
              | some next ↦ lookup_loop fuel next ans'
              | none ↦ done ans'
            ]))

module _ {D : Type 0} (get : ℕ → Outcome (Node D)) where
  -- `lookup` on what `get` reads from the node `root`.
  unfoldable pub lookup_from : Option ℕ → Address → Outcome (Option ℕ)
  lookup_from root addr = do
    prefix ← Prefix.from_address addr max_prefix_len
    elim root [ none ↦ done none | some r ↦ lookup_loop get prefix walk_fuel r none ]

  unfoldable pub limited_lookup_from : Option ℕ → Address → ℕ → Outcome (Option ℕ)
  limited_lookup_from root addr count_all_below = do
    prefix ← Prefix.from_address addr max_prefix_len
    elim root [
      | none ↦ done none
      | some r ↦ limited_loop get count_all_below prefix walk_fuel r none
    ]

module _ {D : Type 0} (t : RadixTree D) where
  unfoldable pub lookup : Address → Outcome (Option ℕ)
  lookup addr = lookup_from (Slab.get t.slab) t.root addr

  unfoldable pub limited_lookup : Address → ℕ → Outcome (Option ℕ)
  limited_lookup addr count_all_below =
      limited_lookup_from (Slab.get t.slab) t.root addr count_all_below

-- `from_thick_tree`: the same topology with thin payloads.
unfoldable pub thin_node : Node ThickData → Node ThinData
thin_node n = record {
  child0 = n.child0;
  child1 = n.child1;
  prefix = n.prefix;
  flags = n.flags;
  payload = thin_of_thick n.payload;
}

unfoldable pub from_thick_tree : RadixTree ThickData → RadixTree ThinData
unfolding thin_node
from_thick_tree t = record {
  slab = Slab.with_entries_mapped_from thin_node t.slab;
  root = t.root;
  announced_count = t.announced_count;
  sweep_count = 0;
}
