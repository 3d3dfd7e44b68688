-- ===== src/Tree/Dirty/Insert.antt =====
-- `insert` reports every entry that it changes.
use slash.Base.{ℕ, zero, suc, ◌^◌, ◌<◌, ◌≡◌, not, Option, none, some, ◌==◌}
use slash.Base.Outcome.{done, assert}
use slash.Timestamp.{Timestamp}
use slash.Prefix
use slash.Prefix.{Prefix, prefix_eq}
use slash.Node.{NodeData, is_announced, child}
use slash.Tree.{walk_fuel}
use slash.Tree.Monad.{State, ◌>>=◌}
use slash.Tree.Dirty.{Logged, Nothing, Tracks, Logged-refl}
use slash.Tree.Dirty.Rules.{
  Tracks-bind, Tracks-pure, Tracks-lift, Tracks-get_node, Tracks-update_node, Tracks-set_root,
  Tracks-count_up, Tracks-if,
}
use slash.Tree.Insert.{
  InsertOutcome, reannounce, after_descent, graft_leaf, splice_above, split, insert_recursive,
  insert_at, insert,
}
use slash.Tree.Dirty.Steps.{
  Tracks-propagate, Tracks-alloc_announced_node, Tracks-alloc_split_node, Tracks-report,
  Tracks-report_twice, Tracks-report_second, Tracks-report_if, Tracks-report_either, Tracks-link_if,
  Tracks-propagate_if,
}

module _ {D : Type 0} (nd : NodeData D) where
  module _ {s0 : State D} (p : Prefix) (incoming : D) (ts : Timestamp) {Y : ℕ → Type 0} where
    Tracks-reannounce : (i : ℕ) → Tracks s0 Y (reannounce nd p incoming ts i) (λ o. Y)
    unfolding reannounce
    Tracks-reannounce i = Tracks-bind _ _ (Tracks-get_node i) λ n.
        Tracks-bind _ _ (Tracks-update_node i _) λ u.
          Tracks-bind _ _ (Tracks-if (is_announced n) _ _ (Tracks-pure tt) Tracks-count_up)
            λ u. Tracks-bind _ _ (Tracks-report i) λ u. Tracks-pure _

    Tracks-graft_leaf : (i bit : ℕ) → Tracks s0 Y (graft_leaf nd p incoming ts i bit) (λ o. Y)
    unfolding graft_leaf
    Tracks-graft_leaf i bit = Tracks-bind _ _ (Tracks-alloc_announced_node nd p incoming ts) λ a.
        Tracks-bind _ _ (Tracks-update_node i _) λ u.
          Tracks-bind _ _ (Tracks-report_second a i) λ u.
            Tracks-bind _ _ (Tracks-propagate nd i ts)
              λ b. Tracks-bind _ _ (Tracks-report_if i b) λ u. Tracks-pure _

    Tracks-after_descent :
        (i bit c : ℕ) (sub : InsertOutcome)
        → Tracks s0 Y (after_descent nd p incoming ts i bit c sub) (λ o. Y)
    unfolding after_descent
    Tracks-after_descent i bit c sub =
        let linked = not (sub.new_subroot == c) in
        Tracks-bind _ _ (Tracks-link_if i linked _) λ u.
          Tracks-bind _ _ (Tracks-propagate_if nd i sub.ts_advanced ts)
            λ b. Tracks-bind _ _ (Tracks-report_either i linked b) λ u. Tracks-pure _

    Tracks-splice_above :
        (i : ℕ) (q : Prefix) → Tracks s0 Y (splice_above nd p incoming ts i q) (λ o. Y)
    unfolding splice_above
    Tracks-splice_above i q = Tracks-bind _ _ (Tracks-lift (Prefix.bit_at q p.len)) λ bit.
        Tracks-bind _ _ (Tracks-get_node i) λ n.
          Tracks-bind _ _ (Tracks-alloc_announced_node nd p incoming ts) λ a.
            Tracks-bind _ _ (Tracks-update_node a _)
              λ u. Tracks-bind _ _ (Tracks-report_twice a) λ u. Tracks-pure _

    Tracks-split :
        (i : ℕ) (q : Prefix) (c : ℕ) → Tracks s0 Y (split nd p incoming ts i q c) (λ o. Y)
    unfolding split
    Tracks-split i q c = Tracks-bind _ _ (Tracks-get_node i) λ n.
        Tracks-bind _ _ (Tracks-lift (Prefix.new p.bits c)) λ m.
          Tracks-bind _ _ (Tracks-lift (Prefix.bit_at p c)) λ b.
            Tracks-bind _ _ (Tracks-lift (Prefix.bit_at q c)) λ b'.
              Tracks-bind _ _ (Tracks-lift (assert (not (b == b')))) λ u.
                Tracks-bind _ _ (Tracks-alloc_announced_node nd p incoming ts) λ leaf.
                  Tracks-bind _ _ (Tracks-alloc_split_node nd m (nd.timestamp n.payload)) λ fork.
                    Tracks-bind _ _ (Tracks-update_node fork _) λ u.
                      Tracks-bind _ _ (Tracks-report_twice fork)
                        λ u. Tracks-bind _ _ (Tracks-report leaf) λ u. Tracks-pure _

    Tracks-insert_recursive :
        (fuel i : ℕ) → Tracks s0 Y (insert_recursive nd p incoming ts fuel i) (λ o. Y)
    unfolding insert_recursive
    Tracks-insert_recursive zero i = λ s a s' e l. cc
    Tracks-insert_recursive (suc fuel) i = Tracks-bind _ _ (Tracks-get_node i) λ n.
        Tracks-if (prefix_eq n.prefix p) _ _ (Tracks-reannounce i) (
          Tracks-if (Prefix.common_prefix_len p n.prefix == n.prefix.len) _ _
            (Tracks-bind _ _ (Tracks-lift (Prefix.bit_at p n.prefix.len)) λ bit.
              elim (child n bit)
                as (λ o.
                  Tracks {A = InsertOutcome} s0 Y
                    (elim o [
                      | some c ↦ insert_recursive nd p incoming ts fuel c >>= λ sub.
                          after_descent nd p incoming ts i bit c sub
                      | none ↦ graft_leaf nd p incoming ts i bit
                    ])
                    (λ r. Y)) [
                      | some c ↦
                          Tracks-bind _ _ (Tracks-insert_recursive fuel c)
                            λ sub. Tracks-after_descent i bit c sub
                      | none ↦ Tracks-graft_leaf i bit
                    ])
            (Tracks-if (Prefix.common_prefix_len p n.prefix == p.len) _ _
              (Tracks-splice_above i n.prefix)
              (Tracks-split i n.prefix (Prefix.common_prefix_len p n.prefix))))

    Tracks-insert_at : (r : Option ℕ) → Tracks s0 Y (insert_at nd p incoming ts r) (λ o. Y)
    unfolding insert_at
    Tracks-insert_at none = Tracks-bind _ _ (Tracks-alloc_announced_node nd p incoming ts) λ a.
        Tracks-bind _ _ (Tracks-set_root (some a))
          λ u. Tracks-bind _ _ (Tracks-report a) λ u. Tracks-pure _
    Tracks-insert_at (some root) =
        Tracks-bind _ _ (Tracks-insert_recursive walk_fuel root)
          λ out. Tracks-bind _ _ (Tracks-set_root (some out.new_subroot)) λ u. Tracks-pure _

  pub Tracks-insert :
      {s0 : State D} {Y : ℕ → Type 0} (p : Prefix) (incoming : D) (ts : Timestamp)
      → Tracks s0 Y (insert nd p incoming ts) (λ o. Y)
  unfolding insert
  Tracks-insert p incoming ts s target s' e l =
      Tracks-insert_at p incoming ts s.tree.root s target s' e l

  -- On a slab with a capacity of 32 bits, an insert that returns has reported every index whose
  -- entry differs from before; it keeps the reports made before, reports no index out of the range
  -- of the slab, and leaves the slab at least as long and its capacity as it was.
  pub insert-Logged :
      (p : Prefix) (incoming : D) (ts : Timestamp) (s s' : State D) (target : ℕ)
      → insert nd p incoming ts s ≡ done (target, s')
      → s.tree.slab.max_capacity < 2 ^ 32
      → Logged Nothing s s'
  insert-Logged p incoming ts s s' target e small =
      Tracks-insert p incoming ts s target s' e (Logged-refl s small)
