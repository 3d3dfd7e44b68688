-- ===== src/Tree/Insert.antt =====
-- `insert` of crates/core/src/tree.rs, `insert_recursive` with a function for each way that it
-- returns, and the two allocations.
pub mod Steps
pub mod Join
pub mod Frames
pub mod Above
pub mod Fork
pub mod Run
pub mod Correct
pub mod Timed
use slash.Base.{
  ℕ, zero, suc, Bool, true, false, not, ◌&&◌, ◌||◌, Option, none, some, ◌==◌, if◌then◌else◌,
}
use slash.Base.Outcome.{out_of_fuel, assert}
use slash.Timestamp.{Timestamp, ts_lt, ts_eq}
use slash.Address.{Address}
use slash.Prefix
use slash.Prefix.{Prefix, prefix_eq, prefix}
use slash.Node.{
  Node, NodeData, merge_ancestor, announced_flag, is_announced, set_announced, child, set_child,
}
use slash.Tree.{walk_fuel}
use slash.Tree.Monad.{
  M, State, pure, and_then, ◌>>=◌, ◌>>◌, lift, get_node, update_node, alloc_node, mark_dirty,
  set_root, count_up,
}

pub record InsertOutcome : Type 0 where
  pub new_subroot : ℕ
  pub target : ℕ
  pub ts_advanced : Bool

module _ {D : Type 0} (nd : NodeData D) where
  -- `Prefix::default`, and the node that `alloc` puts into a new entry.
  abbrev pub default_node : Node D
  default_node = record {
    child0 = none;
    child1 = none;
    prefix = prefix (record { w0 = 0; w1 = 0; w2 = 0; w3 = 0 }) 0;
    flags = 0;
    payload = nd.default;
  }

  abbrev pub announced_node : Prefix → D → Timestamp → Node D
  announced_node p incoming ts = record {
    child0 = none;
    child1 = none;
    prefix = p;
    flags = announced_flag;
    payload = nd.apply_announce nd.default incoming ts;
  }

  abbrev pub split_node : Prefix → Timestamp → Node D
  split_node p subtree_ts = record {
    child0 = none;
    child1 = none;
    prefix = p;
    flags = 0;
    payload = merge_ancestor nd nd.default subtree_ts;
  }

  unfoldable pub alloc_announced_node : Prefix → D → Timestamp → M D ℕ
  alloc_announced_node p incoming ts = do
    idx ← alloc_node default_node
    update_node idx (λ _. announced_node p incoming ts)
    count_up
    pure idx

  unfoldable pub alloc_split_node : Prefix → Timestamp → M D ℕ
  alloc_split_node p subtree_ts = do
    idx ← alloc_node default_node
    update_node idx (λ _. split_node p subtree_ts)
    pure idx

  -- `merge_ancestor(ts)` on the node, and whether that changed its time.
  unfoldable pub propagate : ℕ → Timestamp → M D Bool
  propagate subroot ts = do
    before ← get_node subroot
    update_node subroot (λ n. record n { payload = merge_ancestor nd n.payload ts })
    after ← get_node subroot
    pure (not (ts_eq (nd.timestamp after.payload) (nd.timestamp before.payload)))

  module _ (p : Prefix) (incoming : D) (ts : Timestamp) where
    -- Exact match: announce again at `subroot`.
    unfoldable pub reannounce : ℕ → M D InsertOutcome
    reannounce subroot = do
      node ← get_node subroot
      let before = nd.timestamp node.payload
      let was_announced = is_announced node
      update_node subroot (λ n.
          let n' = set_announced n true in
          record n' { payload = nd.apply_announce n'.payload incoming ts })
      if was_announced then pure tt else count_up
      mark_dirty subroot
      pure (record { new_subroot = subroot; target = subroot; ts_advanced = ts_lt before ts })

    -- Back in the frame of `subroot` from the recursive call on its child `c`.
    unfoldable pub after_descent : ℕ → ℕ → ℕ → InsertOutcome → M D InsertOutcome
    after_descent subroot bit c sub = do
      let child_changed = not (sub.new_subroot == c)
      if child_changed
          then update_node subroot (λ n. set_child n bit (some sub.new_subroot))
          else pure tt
      ts_advanced ← (if sub.ts_advanced then propagate subroot ts else pure false)
      if child_changed || ts_advanced then mark_dirty subroot else pure tt
      pure (record { new_subroot = subroot; target = sub.target; ts_advanced = ts_advanced })

    -- No child in that slot: a new leaf.
    unfoldable pub graft_leaf : ℕ → ℕ → M D InsertOutcome
    graft_leaf subroot bit = do
      leaf_idx ← alloc_announced_node p incoming ts
      update_node subroot (λ n. set_child n bit (some leaf_idx))
      mark_dirty leaf_idx
      ts_advanced ← propagate subroot ts
      mark_dirty subroot
      pure (record { new_subroot = subroot; target = leaf_idx; ts_advanced = ts_advanced })

    -- The prefix is an ancestor of `subroot`: a new announced node above.
    unfoldable pub splice_above : ℕ → Prefix → M D InsertOutcome
    splice_above subroot node_prefix = do
      node_bit ← lift (Prefix.bit_at node_prefix p.len)
      node ← get_node subroot
      let subtree_ts = nd.timestamp node.payload
      new_idx ← alloc_announced_node p incoming ts
      update_node new_idx (λ n.
          set_child (record n { payload = merge_ancestor nd n.payload subtree_ts }) node_bit
            (some subroot))
      mark_dirty new_idx
      pure (record { new_subroot = new_idx; target = new_idx; ts_advanced = ts_lt subtree_ts ts })

    -- `subroot` and the new leaf part after `common` bits: a split node above both.
    unfoldable pub split : ℕ → Prefix → ℕ → M D InsertOutcome
    split subroot node_prefix common = do
      node ← get_node subroot
      let subtree_ts = nd.timestamp node.payload
      split_prefix ← lift (Prefix.new p.bits common)
      leaf_bit ← lift (Prefix.bit_at p common)
      node_bit ← lift (Prefix.bit_at node_prefix common)
      lift (assert (not (leaf_bit == node_bit)))
      leaf_idx ← alloc_announced_node p incoming ts
      split_idx ← alloc_split_node split_prefix subtree_ts
      update_node split_idx (λ n.
          let n' = set_child (set_child n leaf_bit (some leaf_idx)) node_bit (some subroot) in
          record n' { payload = merge_ancestor nd n'.payload ts })
      mark_dirty split_idx
      mark_dirty leaf_idx
      pure
          (record { new_subroot = split_idx; target = leaf_idx; ts_advanced = ts_lt subtree_ts ts })

    unfoldable pub insert_recursive : ℕ → ℕ → M D InsertOutcome
    insert_recursive zero subroot = λ _. out_of_fuel
    insert_recursive (suc fuel) subroot = do
      node ← get_node subroot
      let node_prefix = node.prefix
      let common = Prefix.common_prefix_len p node_prefix
      if prefix_eq node_prefix p
          then reannounce subroot
          else (if common == node_prefix.len
              then (lift (Prefix.bit_at p node_prefix.len) >>= λ bit. elim (child node bit) [
                | some c ↦ insert_recursive fuel c >>= λ sub. after_descent subroot bit c sub
                | none ↦ graft_leaf subroot bit
              ])
              else (if common == p.len
                  then splice_above subroot node_prefix
                  else split subroot node_prefix common))

    -- `insert` below the root, if there is one: the slab index of the target.
    unfoldable pub insert_at : Option ℕ → M D ℕ
    insert_at none = do
      idx ← alloc_announced_node p incoming ts
      set_root (some idx)
      mark_dirty idx
      pure idx
    insert_at (some root) = do
      outcome ← insert_recursive walk_fuel root
      set_root (some outcome.new_subroot)
      pure outcome.target

    unfoldable pub insert : M D ℕ
    insert s = insert_at s.tree.root s
