-- ===== src/Tree/Insert/Timed.antt =====
-- `insert` with a time that is not before those of the tree keeps the times in order.
use slash.Base.{ℕ, ◌+◌, ◌^◌, ◌≤◌, ◌<◌, ◌≡◌, refl, true, some, ap, ◌∙◌, ◌++◌, ◌∷◌, [], arith}
use slash.Base.Outcome.{done}
use slash.Prefix.{Prefix}
use slash.Prefix.Laws.{IsPrefix}
use slash.Timestamp.{Timestamp}
use slash.Node.{NodeData}
use slash.Slab.Alloc.{room}
use slash.Tree.{walk_fuel}
use slash.Tree.Trie.{Trie, nil, node, IsEnough-root, Represents}
use slash.Tree.Trie.Timed.{NoneAfter, IsTimed}
use slash.Tree.Trie.Timed.Insert.{Inserts-Times}
use slash.Tree.Monad.{State, mark_dirty, set_root}
use slash.Tree.Insert.{InsertOutcome, insert, insert_at}
use slash.Tree.Insert.Steps.{counted, alloc_announced_node-done}
use slash.Tree.Insert.Join.{Dead}
use slash.Tree.Insert.Frames.{leaf-Inserted}
use slash.Tree.Insert.Run.{insert_recursive-Returns}
use slash.Tree.Insert.Correct.{Inserted-Represents}

module _ {D : Type 0} (nd : NodeData D) (p : Prefix) (incoming : D) (ts : Timestamp) where
  -- Let the slab of a tree hold a well-formed trie in which no node has a later time than a node
  -- above it, with room for two nodes and a tally that does not overflow. An insert of a canonical
  -- prefix with a time that is not before any of the trie returns, and the new trie is well formed,
  -- has no node with a later time than a node above it, and no time after the given one.
  pub insert-IsTimed :
      (s : State D) (t : Trie D)
      → Represents s.tree t
      → IsPrefix p
      → 2 ≤ room s.tree.slab
      → s.tree.announced_count + 1 < 2 ^ 32
      → IsTimed nd t
      → NoneAfter nd ts t
      → (target : ℕ) × (s' : State D) × (t' : Trie D) × (insert nd p incoming ts s
          ≡ done (target, s'))
        × Represents s'.tree t'
        × IsTimed nd t'
        × NoneAfter nd ts t'
  unfolding insert insert_at set_root mark_dirty
  insert-IsTimed s nil rep hp fits small timed before =
      let (a, slab, runs, pl) =
        alloc_announced_node-done nd p incoming ts s rep.slab (omega arith) small in
      let out : InsertOutcome = record { new_subroot = a; target = a; ts_advanced = true } in
      let s1 = counted slab s in
      let res = leaf-Inserted nd p incoming ts s slab a pl in
      let times = Inserts-Times nd p incoming ts (Dead nd p incoming ts s) res.ins before timed in
      (
        a,
        record s1 { tree = record (s1.tree) { root = some a }; dirty = s1.dirty ++ a ∷ [] },
        res.after,
        ap (λ o. insert_at nd p incoming ts o s) rep.root ∙ rw runs refl,
        Inserted-Represents nd p incoming ts s s1 nil out rep hp res,
        times.1,
        times.0,
      )
  insert-IsTimed s (node i q f d l r) rep hp fits small timed before =
      let t : Trie D = node i q f d l r in
      let (out, s', runs, res) =
        insert_recursive-Returns nd p incoming ts walk_fuel s i t refl (IsEnough-root t) rep.stored
          rep.separate rep.shape rep.slab fits small hp in
      let times = Inserts-Times nd p incoming ts (Dead nd p incoming ts s) res.ins before timed in
      (
        out.target,
        record s' { tree = record (s'.tree) { root = some out.new_subroot } },
        res.after,
        ap (λ o. insert_at nd p incoming ts o s) rep.root ∙ rw runs refl,
        Inserted-Represents nd p incoming ts s s' t out rep hp res,
        times.1,
        times.0,
      )
