-- ===== src/Tree/Withdraw.antt =====
-- `withdraw` and `withdraw_recursive` of crates/core/src/tree.rs.
pub mod Run
pub mod Correct
pub mod Timed
use slash.Base.{ℕ, zero, suc, Bool, true, false, not, Option, none, some, ltb, if◌then◌else◌}
use slash.Base.Outcome.{out_of_fuel}
use slash.Timestamp.{Timestamp, ts_lt}
use slash.Prefix
use slash.Prefix.{Prefix, prefix_eq}
use slash.Node.{Node, NodeData, is_announced, set_announced, child}
use slash.Tree.{walk_fuel}
use slash.Tree.Monad.{M, pure, ◌>>=◌, ◌>>◌, lift, get_node, update_node, mark_dirty, count_down}
use slash.Tree.Insert.{propagate}

pub data WithdrawOutcome : Type 0 where
  not_found : WithdrawOutcome
  withdrew : (ts_advanced : Bool) → WithdrawOutcome

module _ {D : Type 0} (nd : NodeData D) (p : Prefix) (ts : Timestamp) where
  -- Exact match.
  unfoldable pub withdraw_here : ℕ → Node D → M D WithdrawOutcome
  withdraw_here subroot node = if not (is_announced node) then pure not_found else do
    let before = nd.timestamp node.payload
    update_node subroot (λ n.
        let n' = set_announced n false in record n' { payload = nd.apply_withdraw n'.payload ts })
    count_down
    mark_dirty subroot
    pure (withdrew (ts_lt before ts))

  -- Back in the frame of `subroot`.
  unfoldable pub after_withdraw : ℕ → WithdrawOutcome → M D WithdrawOutcome
  after_withdraw subroot not_found = pure not_found
  after_withdraw subroot (withdrew sub_advanced) = do
    ts_advanced ← (if sub_advanced then propagate nd subroot ts else pure false)
    if ts_advanced then mark_dirty subroot else pure tt
    pure (withdrew ts_advanced)

  unfoldable pub withdraw_recursive : ℕ → ℕ → M D WithdrawOutcome
  withdraw_recursive zero subroot = λ _. out_of_fuel
  withdraw_recursive (suc fuel) subroot = do
    node ← get_node subroot
    let node_prefix = node.prefix
    if prefix_eq node_prefix p
        then withdraw_here subroot node
        else (if ltb (Prefix.common_prefix_len p node_prefix) node_prefix.len
            then pure not_found
            else (lift (Prefix.bit_at p node_prefix.len) >>= λ bit. elim (child node bit) [
              | some c ↦ withdraw_recursive fuel c >>= λ sub. after_withdraw subroot sub
              | none ↦ pure not_found
            ]))

  abbrev pub is_withdrew : WithdrawOutcome → Bool
  is_withdrew not_found = false
  is_withdrew (withdrew _) = true

  -- `withdraw` below the root, if there is one: whether the prefix was announced.
  unfoldable pub withdraw_at : Option ℕ → M D Bool
  withdraw_at none = pure false
  withdraw_at (some root) = do
    outcome ← withdraw_recursive walk_fuel root
    pure (is_withdrew outcome)

  unfoldable pub withdraw : M D Bool
  withdraw s = withdraw_at s.tree.root s
