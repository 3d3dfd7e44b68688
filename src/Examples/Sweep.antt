-- ===== src/Examples/Sweep.antt =====
-- A tree whose root is structural with one subtree, and what a sweep leaves of it.
use slash.Base.{◌+◌, ◌*◌, ◌-◌, ◌^◌, ◌≡◌, ◌<◌, ◌⊎◌, refl, some, [], ◌∷◌, arith, sym, ◌∙◌}
use slash.Base.Outcome.{done}
use slash.Address
use slash.Address.Agree.{address_bit}
use slash.Timestamp.{ts}
use slash.Node.{Node, ThinData, thin}
use slash.Slab.Alloc.{room}
use slash.Tree.{RadixTree}
use slash.Tree.Trie.{Trie, nil, node, Represents, count_announced, size}
use slash.Tree.Monad.{State}
use slash.Tree.Sweep.{sweep_tombstones}
use slash.Tree.Sweep.Correct.{IsSweep, sweep_tombstones-IsSweep, sweep_tombstones-size}
use slash.Examples.{ten_8, ten_16, ten_8-IsTruncation, ten_16-IsTruncation, leaf}

abbrev tombstone : Node ThinData
tombstone = record leaf { child0 = some 2; flags = 0 }

abbrev kept : Node ThinData
kept = record leaf { prefix = ten_16 }

abbrev dusty : RadixTree ThinData
dusty = record {
  slab = record {
    entries = leaf ∷ tombstone ∷ kept ∷ [];
    free_list = [];
    max_capacity = 2 ^ 32 - 1;
  };
  root = some 1;
  announced_count = 1;
  sweep_count = 0;
}

abbrev dusty_trie : Trie ThinData
dusty_trie = node 1 ten_8 0 (thin (ts 0 5)) (node 2 ten_16 1 (thin (ts 0 5)) nil nil) nil

dusty-Represents : Represents dusty dusty_trie
unfolding count_announced address_bit Address.masked Address.masked_word
dusty-Represents = record {
  slab = record {
    reserved = omega arith;
    freed_in_range = tt;
    freed_once = tt;
    fits = omega arith;
    capacity = omega arith;
  };
  stored = (
    refl,
    record { nonzero = omega arith; in_range = omega arith; not_freed = refl },
    (refl, record { nonzero = omega arith; in_range = omega arith; not_freed = refl }, tt, tt),
    tt,
  );
  root = refl;
  separate = (refl, refl, (λ j h. refl), (refl, refl, (λ j h. refl), tt, tt), tt);
  shape = (
    ten_8-IsTruncation.valid,
    (
      omega arith,
      λ k h. ten_8-IsTruncation.agree k h ∙ sym (ten_16-IsTruncation.agree k (omega (arith, h))),
      refl,
    ),
    tt,
    (ten_16-IsTruncation.valid, tt, tt, tt, tt),
    tt,
  );
  tally = refl;
}

abbrev before : State ThinData
before = record { tree = dusty; dirty = [] }

sweep_tombstones-IsSweep_example :
    (s' : State ThinData) × (t' : Trie ThinData) × (sweep_tombstones before ≡ done (tt, s'))
    × Represents s'.tree t'
    × IsSweep before s' dusty_trie t'
sweep_tombstones-IsSweep_example =
    sweep_tombstones-IsSweep before dusty_trie dusty-Represents (omega arith)

sweep_tombstones-size_example :
    (s' : State ThinData) × (t' : Trie ThinData) × (sweep_tombstones before ≡ done (tt, s'))
    × Represents s'.tree t'
    × ((size t' ≡ 0) ⊎ (size t' < 2 * 1))
    × (room dusty.slab + size dusty_trie ≡ room s'.tree.slab + size t')
sweep_tombstones-size_example =
    sweep_tombstones-size before dusty_trie dusty-Represents (omega arith)
