-- ===== src/Tree/Sweep.antt =====
-- `sweep_tombstones` of crates/core/src/tree.rs.
pub mod Keeps
pub mod Steps
pub mod Run
pub mod Correct
use slash.Base.{ℕ, zero, suc, Option, none, some, if◌then◌else◌}
use slash.Base.Outcome.{out_of_fuel}
use slash.Node.{is_announced, set_child}
use slash.Tree.{walk_fuel}
use slash.Tree.Monad.{
  M, pure, ◌>>=◌, ◌>>◌, get_node, update_node, free_node, mark_dirty, set_root, count_sweep,
}

module _ {D : Type 0} where
  unfoldable pub set_parent_slot : Option (ℕ × ℕ) → Option ℕ → M D (Unit {0})
  set_parent_slot none value = set_root value
  set_parent_slot (some (parent, slot)) value = do
    update_node parent (λ n. set_child n slot value)
    mark_dirty parent

  -- What becomes of a node after the passes over its children.
  unfoldable pub collapse : ℕ → Option (ℕ × ℕ) → Option ℕ → Option ℕ → M D (Unit {0})
  collapse idx parent_slot (some _) (some _) = pure tt
  collapse idx parent_slot none none = do set_parent_slot parent_slot none; free_node idx
  collapse idx parent_slot (some c) none = do set_parent_slot parent_slot (some c); free_node idx
  collapse idx parent_slot none (some c) = do set_parent_slot parent_slot (some c); free_node idx

  unfoldable pub sweep_recursive : ℕ → ℕ → Option (ℕ × ℕ) → M D (Unit {0})
  sweep_recursive zero idx parent_slot = λ _. out_of_fuel
  sweep_recursive (suc fuel) idx parent_slot = do
    before ← get_node idx
    elim before.child0 [ some c ↦ sweep_recursive fuel c (some (idx, 0)) | none ↦ pure tt ]
    elim before.child1 [ some c ↦ sweep_recursive fuel c (some (idx, 1)) | none ↦ pure tt ]
    node ← get_node idx
    if is_announced node then pure tt else collapse idx parent_slot node.child0 node.child1

  unfoldable pub sweep_tombstones : M D (Unit {0})
  sweep_tombstones = do
    count_sweep
    λ s. elim s.tree.root [ none ↦ pure tt s | some root ↦ sweep_recursive walk_fuel root none s ]
