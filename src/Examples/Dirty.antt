-- ===== src/Examples/Dirty.antt =====
-- Mutations of a tree of one node and what they report.
use slash.Base.{◌-◌, ◌^◌, refl, arith, none, some, [], ◌∷◌, ◌≡◌, true}
use slash.Base.Outcome.{done}
use slash.Timestamp.{ts, ts_zero}
use slash.Node.{ThinData, thin, thin_node_data, is_announced, set_announced}
use slash.Slab
use slash.Slab.{write}
use slash.Tree.Monad.{
  State, get_node, update_node, mark_dirty, set_root, count_down, count_down_from, count_sweep,
  free_node,
}
use slash.Tree.Insert.{insert, insert_at, insert_recursive, reannounce}
use slash.Tree.Withdraw.{withdraw, withdraw_at, withdraw_recursive, withdraw_here}
use slash.Tree.Sweep.{sweep_tombstones, sweep_recursive, collapse, set_parent_slot}
use slash.Tree.Dirty.{Logged, Nothing}
use slash.Tree.Dirty.Insert.{insert-Logged}
use slash.Tree.Dirty.Withdraw.{withdraw-Logged}
use slash.Tree.Dirty.Sweep.{sweep_tombstones-Logged}
use slash.Base.{some}
use slash.Tree.Sweep.Keeps.{IsSwept, sweep_tombstones-IsSwept}
use slash.Examples.Client.{everything, leaf, tree_at}

abbrev old_tree : State ThinData
old_tree = record { tree = tree_at (ts 0 5); dirty = [] }

abbrev newer : State ThinData
newer = record { tree = tree_at (ts 0 9); dirty = 1 ∷ [] }

insert-newer : insert thin_node_data everything (thin (ts 0 7)) (ts 0 9) old_tree ≡ done (1, newer)
unfolding insert insert_at insert_recursive reannounce get_node update_node Slab.get write
    mark_dirty set_root is_announced set_announced
insert-newer = refl

insert-Logged_example : Logged Nothing old_tree newer
insert-Logged_example =
    insert-Logged thin_node_data everything (thin (ts 0 7)) (ts 0 9) old_tree newer 1 insert-newer
      (omega arith)

abbrev withdrawn : State ThinData
withdrawn = record {
  tree = record {
    slab = record {
      entries = leaf ts_zero ∷ record (leaf (ts 0 9)) { flags = 0 } ∷ [];
      free_list = [];
      max_capacity = 2 ^ 32 - 1;
    };
    root = some 1;
    announced_count = 0;
    sweep_count = 0;
  };
  dirty = 1 ∷ [];
}

withdraw-everything : withdraw thin_node_data everything (ts 0 9) old_tree ≡ done (true, withdrawn)
unfolding withdraw withdraw_at withdraw_recursive withdraw_here get_node update_node Slab.get write
    mark_dirty is_announced set_announced count_down count_down_from
withdraw-everything = refl

withdraw-Logged_example : Logged Nothing old_tree withdrawn
withdraw-Logged_example =
    withdraw-Logged thin_node_data everything (ts 0 9) old_tree withdrawn true withdraw-everything
      (omega arith)

abbrev swept : State ThinData
swept = record withdrawn {
  tree = record {
    slab = record {
      entries = leaf ts_zero ∷ record (leaf (ts 0 9)) { flags = 0 } ∷ [];
      free_list = 1 ∷ [];
      max_capacity = 2 ^ 32 - 1;
    };
    root = none;
    announced_count = 0;
    sweep_count = 1;
  };
}

sweep_withdrawn : sweep_tombstones withdrawn ≡ done (tt, swept)
unfolding sweep_tombstones sweep_recursive collapse set_parent_slot get_node Slab.get is_announced
    set_root count_sweep free_node Slab.free
sweep_withdrawn = refl

sweep_tombstones-Logged_example : Logged Nothing withdrawn swept
sweep_tombstones-Logged_example =
    sweep_tombstones-Logged withdrawn swept sweep_withdrawn (omega arith)

sweep_tombstones-IsSwept_example : IsSwept withdrawn swept
sweep_tombstones-IsSwept_example = sweep_tombstones-IsSwept withdrawn swept sweep_withdrawn
