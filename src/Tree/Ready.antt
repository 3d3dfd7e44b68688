-- ===== src/Tree/Ready.antt =====
-- Room for a number of updates, which each update and each sweep keeps.
use slash.Base.{ℕ, ◌+◌, ◌*◌, ◌^◌, ◌≤◌, ◌<◌, arith}
use slash.Slab.Alloc.{room}
use slash.Tree.{RadixTree}
use slash.Tree.Trie.{Trie, Represents, IsCharged}
use slash.Tree.Monad.{State}
use slash.Tree.Sweep.Correct.{IsSweep}

-- The tree holds a well-formed trie, with two entries and a count of one for each update to come.
pub record IsReady {D : Type 0} (n : ℕ) (tree : RadixTree D) (t : Trie D) : Type 0 where
  pub represents : Represents tree t
  pub entries : 2 * n ≤ room tree.slab
  pub counts : tree.announced_count + n < 2 ^ 32

module _ {D : Type 0} (n : ℕ) where
  pub IsReady-charged :
      (tree tree' : RadixTree D) (t t' : Trie D)
      → IsReady (1 + n) tree t
      → Represents tree' t'
      → IsCharged tree tree' t t'
      → IsReady n tree' t'
  IsReady-charged tree tree' t t' ready rep charged = record {
    represents = rep;
    entries = omega (arith, ready.entries, charged.space, charged.at_most);
    counts = omega (arith, ready.counts, charged.counts);
  }

  pub IsReady-swept :
      (s s' : State D) (t t' : Trie D)
      → IsReady n s.tree t
      → Represents s'.tree t'
      → IsSweep s s' t t'
      → IsReady n s'.tree t'
  IsReady-swept s s' t t' ready rep sw = record {
    represents = rep;
    entries = omega (arith, ready.entries, sw.space, sw.shrinks);
    counts = omega (arith, ready.counts, sw.tally);
  }
