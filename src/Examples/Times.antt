-- ===== src/Examples/Times.antt =====
-- A later announcement and a later withdrawal on the tree of one node.
use slash.Base.{ℕ, [], ◌≡◌, refl, Bool, arith}
use slash.Base.Outcome.{done}
use slash.Timestamp.{ts}
use slash.Node.{ThinData, thin, thin_node_data}
use slash.Tree.Trie.{Trie, Represents}
use slash.Tree.Trie.Timed.{IsTimed, NoneAfter}
use slash.Tree.Monad.{State}
use slash.Tree.Insert.{insert}
use slash.Tree.Insert.Timed.{insert-IsTimed}
use slash.Tree.Withdraw.{withdraw}
use slash.Tree.Withdraw.Timed.{withdraw-IsTimed}
use slash.Examples.{
  ten_8, ten_16, ten_8-IsTruncation, ten_16-IsTruncation, tree, trie, tree-Represents,
}

insert-IsTimed_example :
    (target : ℕ) × (s' : State ThinData) × (t' : Trie ThinData) × (insert thin_node_data ten_16
        (thin (ts 0 7))
        (ts 0 7)
        (record { tree = tree; dirty = [] })
      ≡ done (target, s'))
    × Represents s'.tree t'
    × IsTimed thin_node_data t'
    × NoneAfter thin_node_data (ts 0 7) t'
insert-IsTimed_example =
    insert-IsTimed thin_node_data ten_16 (thin (ts 0 7)) (ts 0 7)
      (record { tree = tree; dirty = [] }) trie tree-Represents ten_16-IsTruncation.valid
      (omega arith) (omega arith) (tt, tt, tt, tt) (refl, tt, tt)

withdraw-IsTimed_example :
    (found : Bool) × (s' : State ThinData) × (t' : Trie ThinData) × (withdraw thin_node_data ten_8
        (ts 0 7)
        (record { tree = tree; dirty = [] })
      ≡ done (found, s'))
    × Represents s'.tree t'
    × IsTimed thin_node_data t'
    × NoneAfter thin_node_data (ts 0 7) t'
withdraw-IsTimed_example =
    withdraw-IsTimed thin_node_data ten_8 (ts 0 7) (record { tree = tree; dirty = [] }) trie
      tree-Represents ten_8-IsTruncation.valid (tt, tt, tt, tt) (refl, tt, tt)
