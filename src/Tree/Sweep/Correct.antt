-- ===== src/Tree/Sweep/Correct.antt =====
-- `sweep_tombstones` on a well-formed trie: the trie is compressed, and announces what it did.
use slash.Base.{
  ℕ, ◌+◌, ◌*◌, ◌^◌, ◌≤◌, ◌<◌, ◌≡◌, ◌⊎◌, ◌↔◌, inl, refl, false, true, Option, none, some, arith, ◌∙◌,
  lt→ltb, sym,
}
use slash.Base.Outcome.{Outcome, done}
use slash.Prefix.{Prefix}
use slash.Slab.Alloc.{IsLive, room}
use slash.Tree.{walk_fuel}
use slash.Tree.Trie.{
  Trie, nil, node, slab_node, has, IsEnough-root, Announced, Represents, count_announced, size,
}
use slash.Tree.Trie.Sweep.{
  swept, swept-IsSeparate, swept-IsTrie, Announced-swept, count_announced-swept, IsCompressed,
  swept-IsCompressed, size-swept, size-IsCompressed,
}
use slash.Tree.Monad.{State, pure, count_sweep}
use slash.Tree.Sweep.{sweep_recursive, sweep_tombstones}
use slash.Tree.Sweep.Run.{sweep-Sweeps}

module _ {D : Type 0} where
  -- What a sweep of the trie `t` leaves, with the trie `t'`.
  pub record IsSweep (s s' : State D) (t t' : Trie D) : Type 0 where
    pub announced : (x : Prefix) → Announced t' x ↔ Announced t x
    pub compressed : IsCompressed t'
    -- A live index is one of the trie, or was live outside the old trie.
    pub no_more :
        (j : ℕ)
        → IsLive s'.tree.slab j
        → IsLive s.tree.slab j × ((has t j ≡ false) ⊎ (has t' j ≡ true))
    pub others : (j : ℕ) → IsLive s.tree.slab j → has t j ≡ false → IsLive s'.tree.slab j
    pub tally : s'.tree.announced_count ≡ s.tree.announced_count
    -- What leaves the trie is free again.
    pub shrinks : size t' ≤ size t
    pub space : room s.tree.slab + size t ≡ room s'.tree.slab + size t'
    pub sweeps : s'.tree.sweep_count ≡ s.tree.sweep_count + 1

  abbrev counted : State D → State D
  counted s = record s { tree = record (s.tree) { sweep_count = s.tree.sweep_count + 1 } }

  -- On a tree whose slab holds a well-formed trie, and whose count of sweeps does not overflow, a
  -- sweep returns without a panic and within its fuel; the new tree holds a well-formed trie with a
  -- right tally that announces the same prefixes and in which every node that is not announced has
  -- two children; the entries that the trie has lost are free again, no other index has become live
  -- or free, and the count of sweeps is one more.
  pub sweep_tombstones-IsSweep :
      (s : State D) (t : Trie D)
      → Represents s.tree t
      → s.tree.sweep_count + 1 < 2 ^ 32
      → (s' : State D) × (t' : Trie D) × (sweep_tombstones s ≡ done (tt, s'))
        × Represents s'.tree t'
        × IsSweep s s' t t'
  unfolding sweep_tombstones count_sweep swept
  sweep_tombstones-IsSweep s nil rep few = (
    counted s,
    nil,
    rw (lt→ltb (s.tree.sweep_count + 1) (2 ^ 32) few) (empty s.tree.root rep.root),
    record {
      slab = rep.slab;
      stored = tt;
      root = rep.root;
      separate = tt;
      shape = tt;
      tally = rep.tally;
    },
    record {
      announced = λ x. (λ h. h, λ h. h);
      compressed = tt;
      no_more = λ j h. (h, inl refl);
      others = λ j h away. h;
      tally = refl;
      shrinks = omega arith;
      space = refl;
      sweeps = refl;
    },
  )
    where
      empty :
          (root : Option ℕ)
          → root ≡ none
          → ◌≡◌ {A = Outcome (Unit {0} × State D)}
              (elim root [
                | none ↦ pure tt (counted s)
                | some r ↦ sweep_recursive walk_fuel r none (counted s)
              ])
              (done (tt, counted s))
      empty none e = refl
      empty (some r) e = cc
  sweep_tombstones-IsSweep s (node i p f d l r) rep few =
      let t : Trie D = node i p f d l r in
      let (s', runs, sw) =
        sweep-Sweeps walk_fuel none (slab_node p f d l r) (counted s) t (IsEnough-root t) rep.shape
          (record {
            stored = rep.stored;
            valid = rep.slab;
            separate = rep.separate;
            linked = rep.root;
            apart = λ j h. absurd h;
          }) in
      (
        s',
        swept t,
        rw (lt→ltb (s.tree.sweep_count + 1) (2 ^ 32) few, rep.root) runs,
        record {
          slab = sw.valid;
          stored = sw.stored;
          root = sw.linked;
          separate = swept-IsSeparate t rep.separate;
          shape = swept-IsTrie t rep.shape;
          tally = sw.tally ∙ rep.tally ∙ sym (count_announced-swept t);
        },
        record {
          announced = λ x. Announced-swept t x;
          compressed = swept-IsCompressed t;
          no_more = sw.no_more;
          others = sw.live;
          tally = sw.tally;
          shrinks = size-swept t;
          space = sw.space;
          sweeps = sw.sweeps;
        },
      )

  -- On a tree whose slab holds a well-formed trie, and whose count of sweeps does not overflow, a
  -- sweep leaves no node or fewer than twice as many as are announced, and what the trie has lost
  -- is room in the slab.
  pub sweep_tombstones-size :
      (s : State D) (t : Trie D)
      → Represents s.tree t
      → s.tree.sweep_count + 1 < 2 ^ 32
      → (s' : State D) × (t' : Trie D) × (sweep_tombstones s ≡ done (tt, s'))
        × Represents s'.tree t'
        × ((size t' ≡ 0) ⊎ (size t' < 2 * s.tree.announced_count))
        × (room s.tree.slab + size t ≡ room s'.tree.slab + size t')
  sweep_tombstones-size s t rep few =
      let (s', t', runs, rep', sw) = sweep_tombstones-IsSweep s t rep few in
      let same : count_announced t' ≡ s.tree.announced_count = sym rep'.tally ∙ sw.tally in
      (s', t', runs, rep', rw same at (size-IsCompressed t' sw.compressed), sw.space)
