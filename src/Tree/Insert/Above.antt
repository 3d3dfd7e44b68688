-- ===== src/Tree/Insert/Above.antt =====
-- The frames of `insert_recursive` that put a new node above: the prefix stands above the node,
-- or the two part below their common length.
use slash.Base.{
  ℕ, zero, suc, ◌+◌, ◌^◌, ◌≡◌, ◌<◌, refl, some, arith, get_elem?, ◌∙◌, ◌++◌, ◌∷◌, [], subst,
}
use slash.Base.Outcome.{done}
use slash.Address.Agree.{address_bit}
use slash.Prefix.{Prefix}
use slash.Prefix.Laws.{IsPrefix, bit_at-address_bit}
use slash.Timestamp.{Timestamp, ts_lt}
use slash.Node.{Node, NodeData, merge_ancestor, announced_flag, set_child}
use slash.Slab.Alloc.{IsSlab, IsLive, room}
use slash.Tree.Trie.{Trie, nil, node, Stored, size, not-has_fresh}
use slash.Tree.Trie.Insert.{above_left, above_right, Extends, gain}
use slash.Tree.Monad.{State, mark_dirty}
use slash.Tree.Monad.Laws.{get_node-done, update_node-done}
use slash.Tree.Insert.{InsertOutcome, announced_node, splice_above}
use slash.Tree.Insert.Steps.{counted, alloc_announced_node-done}
use slash.Tree.Insert.Join.{Inserted, Stored-write, Stored-placed}

module _ {D : Type 0} (nd : NodeData D) (p : Prefix) (incoming : D) (ts : Timestamp) (s : State D)
    (i f : ℕ) (q : Prefix) (d : D) (l r : Trie D) (st : Stored s.tree.slab (node i q f d l r))
    (valid : IsSlab s.tree.slab) (hp : IsPrefix p) (hq : IsPrefix q)
    (small : s.tree.announced_count + 1 < 2 ^ 32) where
  abbrev top : Trie D
  top = node i q f d l r

  -- The new node with the old one below it.
  abbrev spliced : ℕ → Node D
  spliced bit =
      let n = announced_node nd p incoming ts in
      set_child (record n { payload = merge_ancestor nd n.payload (nd.timestamp d) }) bit (some i)

  record Splices (bit : ℕ) : Type 0 where
    idx : ℕ
    s' : State D
    runs :
        splice_above nd p incoming ts i q s
        ≡ done (
          record { new_subroot = idx; target = idx; ts_advanced = ts_lt (nd.timestamp d) ts },
          s',
        )
    fresh : ¬ (IsLive s.tree.slab idx)
    valid' : IsSlab s'.tree.slab
    value : get_elem? s'.tree.slab.entries idx ≡ some (spliced bit)
    is_live : IsLive s'.tree.slab idx
    below : Stored s'.tree.slab top
    live : (j : ℕ) → IsLive s.tree.slab j → IsLive s'.tree.slab j
    values :
        (j : ℕ)
        → IsLive s.tree.slab j
        → get_elem? s'.tree.slab.entries j ≡ get_elem? s.tree.slab.entries j
    tally : s'.tree.announced_count ≡ 1 + s.tree.announced_count
    space : room s.tree.slab ≡ 1 + room s'.tree.slab
    sweeps : s'.tree.sweep_count ≡ s.tree.sweep_count

  splice_above-Splices :
      (bit : ℕ) → 0 < room s.tree.slab → p.len < 128 → address_bit q.bits p.len ≡ bit → Splices bit
  unfolding splice_above mark_dirty
  splice_above-Splices bit fits short e =
      let al = alloc_announced_node-done nd p incoming ts s valid fits small in
      let a = al.0 in
      let pl = al.3 in
      let s1 = counted al.1 s in
      let w =
        update_node-done a
          (λ n.
            set_child (record n { payload = merge_ancestor nd n.payload (nd.timestamp d) }) bit
              (some i))
          s1 pl.valid pl.value in
      let away = not-has_fresh s.tree.slab top a st pl.fresh in
      record {
        idx = a;
        s' = record s1 { tree = record (s1.tree) { slab = w.0 }; dirty = s1.dirty ++ a ∷ [] };
        runs = rw (bit_at-address_bit q p.len short, e, get_node-done i s st.0, al.2, w.1) refl;
        fresh = pl.fresh;
        valid' = w.2.valid;
        value = w.2.value;
        is_live = w.2.live a pl.live;
        below =
            Stored-write al.1 w.0 a (spliced bit) top w.2 away
              (Stored-placed s.tree.slab al.1 a (announced_node nd p incoming ts) top pl st);
        live = λ j h. w.2.live j (pl.others j h);
        values = λ j h.
            w.2.values j (λ e. pl.fresh (subst (λ k. IsLive s.tree.slab k) e h)) ∙ pl.values j h;
        tally = omega arith;
        space = omega (arith, pl.room_left, w.2.room_same);
        sweeps = refl;
      }

  pub splice_above-done :
      (bit : ℕ)
      → 0 < room s.tree.slab
      → bit < 2
      → Extends p bit q
      → (out : InsertOutcome) × (s' : State D) × (splice_above nd p incoming ts i q s
          ≡ done (out, s'))
        × Inserted nd p incoming ts s top out s'
  unfolding gain size
  splice_above-done zero fits small_bit e =
      let sp = splice_above-Splices 0 fits (omega (arith, hq.short)) e.2 in
      (
        record { new_subroot = sp.idx; target = sp.idx; ts_advanced = ts_lt (nd.timestamp d) ts },
        sp.s',
        sp.runs,
        record {
          after =
              node sp.idx p announced_flag
                (merge_ancestor nd (nd.apply_announce nd.default incoming ts) (nd.timestamp d)) top
                nil;
          ins = above_left sp.idx sp.fresh e;
          stored = (sp.value, sp.is_live, sp.below, tt);
          root = refl;
          valid = sp.valid';
          live = sp.live;
          values = λ j h away. sp.values j h;
          tally = sp.tally;
          space = omega (arith, sp.space);
          sweeps = sp.sweeps;
        },
      )
  splice_above-done (suc zero) fits small_bit e =
      let sp = splice_above-Splices 1 fits (omega (arith, hq.short)) e.2 in
      (
        record { new_subroot = sp.idx; target = sp.idx; ts_advanced = ts_lt (nd.timestamp d) ts },
        sp.s',
        sp.runs,
        record {
          after =
              node sp.idx p announced_flag
                (merge_ancestor nd (nd.apply_announce nd.default incoming ts) (nd.timestamp d)) nil
                top;
          ins = above_right sp.idx sp.fresh e;
          stored = (sp.value, sp.is_live, tt, sp.below);
          root = refl;
          valid = sp.valid';
          live = sp.live;
          values = λ j h away. sp.values j h;
          tally = sp.tally;
          space = omega (arith, sp.space);
          sweeps = sp.sweeps;
        },
      )
  splice_above-done (suc (suc b)) fits small_bit e = absurd (omega arith)
