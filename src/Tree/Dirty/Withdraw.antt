-- ===== src/Tree/Dirty/Withdraw.antt =====
-- `withdraw` reports every entry that it changes.
use slash.Base.{ℕ, zero, suc, ◌^◌, ◌<◌, ◌≡◌, Bool, false, not, Option, none, some, ltb}
use slash.Base.Outcome.{done}
use slash.Timestamp.{Timestamp}
use slash.Prefix
use slash.Prefix.{Prefix, prefix_eq}
use slash.Node.{Node, NodeData, is_announced, child}
use slash.Tree.{walk_fuel}
use slash.Tree.Monad.{State, pure, ◌>>=◌}
use slash.Tree.Dirty.{Logged, Nothing, Tracks, Logged-refl}
use slash.Tree.Dirty.Rules.{
  Tracks-bind, Tracks-pure, Tracks-lift, Tracks-get_node, Tracks-update_node, Tracks-count_down,
  Tracks-if,
}
use slash.Tree.Withdraw.{
  WithdrawOutcome, not_found, withdrew, withdraw_here, after_withdraw, withdraw_recursive,
  withdraw_at, withdraw,
}
use slash.Tree.Dirty.Steps.{Tracks-report, Tracks-report_either, Tracks-propagate_if}

module _ {D : Type 0} (nd : NodeData D) where
  module _ {s0 : State D} (p : Prefix) (ts : Timestamp) {Y : ℕ → Type 0} where
    Tracks-withdraw_here : (i : ℕ) (n : Node D) → Tracks s0 Y (withdraw_here nd p ts i n) (λ o. Y)
    unfolding withdraw_here
    Tracks-withdraw_here i n = Tracks-if (not (is_announced n)) _ _ (Tracks-pure not_found) (
        Tracks-bind _ _ (Tracks-update_node i _) λ u.
          Tracks-bind _ _ Tracks-count_down
            λ u. Tracks-bind _ _ (Tracks-report i) λ u. Tracks-pure _)

    Tracks-after_withdraw :
        (i : ℕ) (sub : WithdrawOutcome) → Tracks s0 Y (after_withdraw nd p ts i sub) (λ o. Y)
    unfolding after_withdraw
    Tracks-after_withdraw i not_found = Tracks-pure not_found
    Tracks-after_withdraw i (withdrew below) =
        Tracks-bind _ _ (Tracks-propagate_if nd i below ts)
          λ b. Tracks-bind _ _ (Tracks-report_either i false b) λ u. Tracks-pure _

    Tracks-withdraw_recursive :
        (fuel i : ℕ) → Tracks s0 Y (withdraw_recursive nd p ts fuel i) (λ o. Y)
    unfolding withdraw_recursive
    Tracks-withdraw_recursive zero i = λ s a s' e l. cc
    Tracks-withdraw_recursive (suc fuel) i = Tracks-bind _ _ (Tracks-get_node i) λ n.
        Tracks-if (prefix_eq n.prefix p) _ _ (Tracks-withdraw_here i n) (
          Tracks-if (ltb (Prefix.common_prefix_len p n.prefix) n.prefix.len) _ _
            (Tracks-pure not_found)
            (Tracks-bind _ _ (Tracks-lift (Prefix.bit_at p n.prefix.len)) λ bit.
              elim (child n bit)
                as (λ o.
                  Tracks {A = WithdrawOutcome} s0 Y
                    (elim o [
                      | some c ↦
                          withdraw_recursive nd p ts fuel c >>= λ sub. after_withdraw nd p ts i sub
                      | none ↦ pure not_found
                    ])
                    (λ r. Y)) [
                      | some c ↦
                          Tracks-bind _ _ (Tracks-withdraw_recursive fuel c)
                            λ sub. Tracks-after_withdraw i sub
                      | none ↦ Tracks-pure not_found
                    ]))

    Tracks-withdraw_at : (r : Option ℕ) → Tracks s0 Y (withdraw_at nd p ts r) (λ o. Y)
    unfolding withdraw_at
    Tracks-withdraw_at none = Tracks-pure false
    Tracks-withdraw_at (some root) =
        Tracks-bind _ _ (Tracks-withdraw_recursive walk_fuel root) λ out. Tracks-pure _

  pub Tracks-withdraw :
      {s0 : State D} {Y : ℕ → Type 0} (p : Prefix) (ts : Timestamp)
      → Tracks s0 Y (withdraw nd p ts) (λ o. Y)
  unfolding withdraw
  Tracks-withdraw p ts s found s' e l = Tracks-withdraw_at p ts s.tree.root s found s' e l

  -- On a slab with a capacity of 32 bits, a withdraw that returns has reported every index whose
  -- entry differs from before; it keeps the reports made before, reports no index out of the range
  -- of the slab, and leaves the slab at least as long and its capacity as it was.
  pub withdraw-Logged :
      (p : Prefix) (ts : Timestamp) (s s' : State D) (found : Bool)
      → withdraw nd p ts s ≡ done (found, s')
      → s.tree.slab.max_capacity < 2 ^ 32
      → Logged Nothing s s'
  withdraw-Logged p ts s s' found e small = Tracks-withdraw p ts s found s' e (Logged-refl s small)
