-- ===== src/Tree/Withdraw/Timed.antt =====
-- `withdraw` with a time that is not before those of the tree keeps the times in order.
use slash.Base.{◌≡◌, inl, inr, refl, Bool, true, false, ap, ◌∙◌, arith}
use slash.Base.Outcome.{done}
use slash.Prefix.{Prefix}
use slash.Prefix.Laws.{IsPrefix}
use slash.Timestamp.{Timestamp}
use slash.Node.{NodeData}
use slash.Tree.{walk_fuel}
use slash.Tree.Trie.{Trie, nil, node, IsEnough-root, Represents}
use slash.Tree.Trie.Timed.{NoneAfter, IsTimed}
use slash.Tree.Trie.Timed.Withdraw.{Withdraws-Times}
use slash.Tree.Monad.{State}
use slash.Tree.Withdraw.{withdraw, withdraw_at}
use slash.Tree.Withdraw.Run.Descent.{withdraw_recursive-Ends}
use slash.Tree.Withdraw.Correct.{Withdrawn-Represents}

module _ {D : Type 0} (nd : NodeData D) (p : Prefix) (ts : Timestamp) where
  -- Let the slab of a tree hold a well-formed trie in which no node has a later time than a node
  -- above it. A withdraw of a canonical prefix with a time that is not before any of the trie
  -- returns, and the new trie is well formed, has no node with a later time than a node above it,
  -- and no time after the given one.
  pub withdraw-IsTimed :
      (s : State D) (t : Trie D)
      → Represents s.tree t
      → IsPrefix p
      → IsTimed nd t
      → NoneAfter nd ts t
      → (found : Bool) × (s' : State D) × (t' : Trie D) × (withdraw nd p ts s ≡ done (found, s'))
        × Represents s'.tree t'
        × IsTimed nd t'
        × NoneAfter nd ts t'
  unfolding withdraw withdraw_at
  withdraw-IsTimed s nil rep hp timed before =
      (false, s, nil, ap (λ o. withdraw_at nd p ts o s) rep.root, rep, timed, before)
  withdraw-IsTimed s (node i q f d l r) rep hp timed before =
      let t : Trie D = node i q f d l r in
      let at = ap (λ o. withdraw_at nd p ts o s) rep.root in
      elim (withdraw_recursive-Ends nd p ts walk_fuel s i t refl (IsEnough-root t) rep.stored
        rep.separate rep.shape rep.slab (omega (arith, rep.tally)) hp) [
          | inl (runs, absent) ↦ (false, s, t, at ∙ rw runs refl, rep, timed, before)
          | inr (adv, s', runs, res) ↦
              let times = Withdraws-Times nd p ts res.wd before timed in
              (
                true,
                s',
                res.after,
                at ∙ rw runs refl,
                Withdrawn-Represents nd p ts s s' t adv rep res,
                times.1,
                times.0,
              )
        ]
