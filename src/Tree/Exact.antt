-- ===== src/Tree/Exact.antt =====
-- Every entry of a slab but the first is free, still to come, or a node of the trie: no mutation
-- loses one, so `node_count` is the number of nodes.
use slash.Base.{Bool, ℕ, ◌+◌, ◌≡◌, arith, refl}
use slash.Base.Outcome.{done}
use slash.Prefix.{Prefix}
use slash.Timestamp.{Timestamp}
use slash.Node.{NodeData}
use slash.Slab
use slash.Slab.Alloc.{room}
use slash.Tree.{RadixTree, node_count}
use slash.Tree.Monad.{State}
use slash.Tree.Trie.{Trie, Represents, IsCharged, size}
use slash.Tree.Insert.{insert}
use slash.Tree.Withdraw.{withdraw}
use slash.Tree.Sweep.{sweep_tombstones}
use slash.Tree.Sweep.Correct.{IsSweep}
use slash.Tree.Dirty.Insert.{insert-Logged}
use slash.Tree.Dirty.Withdraw.{withdraw-Logged}
use slash.Tree.Dirty.Sweep.{sweep_tombstones-Logged}

module _ {D : Type 0} where
  pub record IsExact (tree : RadixTree D) (t : Trie D) : Type 0 where
    pub exact : room tree.slab + size t ≡ tree.slab.max_capacity

  -- What a mutation of the tree does: the room and the nodes are as many together as before, of the
  -- same capacity.
  pub record Conserves (tree tree' : RadixTree D) (t t' : Trie D) : Type 0 where
    pub space : room tree.slab + size t ≡ room tree'.slab + size t'
    pub limit : tree'.slab.max_capacity ≡ tree.slab.max_capacity

  pub IsExact-conserved :
      (tree tree' : RadixTree D) (t t' : Trie D)
      → Conserves tree tree' t t'
      → IsExact tree t
      → IsExact tree' t'
  IsExact-conserved tree tree' t t' c e = record {
    exact = omega (arith, c.space, c.limit, e.exact);
  }

  pub Conserves-refl : (tree : RadixTree D) (t : Trie D) → Conserves tree tree t t
  Conserves-refl tree t = record { space = refl; limit = refl }

  pub Conserves-trans :
      (a b c : RadixTree D) (t u v : Trie D)
      → Conserves a b t u
      → Conserves b c u v
      → Conserves a c t v
  Conserves-trans a b c t u v f g = record {
    space = omega (arith, f.space, g.space);
    limit = omega (arith, f.limit, g.limit);
  }

  -- The tally of the slab is the number of nodes of the trie.
  pub node_count-IsExact :
      (tree : RadixTree D) (t : Trie D)
      → Represents tree t
      → IsExact tree t
      → node_count tree ≡ size t
  unfolding node_count Slab.len
  node_count-IsExact tree t rep e =
      omega (arith, e.exact, rep.slab.fits, rep.slab.capacity, rep.slab.reserved)

  module _ (nd : NodeData D) where
    pub insert-Conserves :
        (p : Prefix) (incoming : D) (ts : Timestamp) (s s' : State D) (t t' : Trie D) (target : ℕ)
        → Represents s.tree t
        → insert nd p incoming ts s ≡ done (target, s')
        → IsCharged s.tree s'.tree t t'
        → Conserves s.tree s'.tree t t'
    insert-Conserves p incoming ts s s' t t' target rep e c = record {
      space = c.space;
      limit = (insert-Logged nd p incoming ts s s' target e rep.slab.capacity).limit;
    }

    pub withdraw-Conserves :
        (p : Prefix) (ts : Timestamp) (s s' : State D) (t t' : Trie D) (found : Bool)
        → Represents s.tree t
        → withdraw nd p ts s ≡ done (found, s')
        → IsCharged s.tree s'.tree t t'
        → Conserves s.tree s'.tree t t'
    withdraw-Conserves p ts s s' t t' found rep e c = record {
      space = c.space;
      limit = (withdraw-Logged nd p ts s s' found e rep.slab.capacity).limit;
    }

  pub sweep-Conserves :
      (s s' : State D) (t t' : Trie D)
      → Represents s.tree t
      → sweep_tombstones s ≡ done (tt, s')
      → IsSweep s s' t t'
      → Conserves s.tree s'.tree t t'
  sweep-Conserves s s' t t' rep e w = record {
    space = w.space;
    limit = (sweep_tombstones-Logged s s' e rep.slab.capacity).limit;
  }
