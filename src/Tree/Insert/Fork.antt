-- ===== src/Tree/Insert/Fork.antt =====
-- The frame of `insert_recursive` that splits: the new leaf and the old node below a new node.
use slash.Base.{
  ℕ, zero, suc, ◌+◌, ◌^◌, ◌≤◌, ◌≡◌, ◌≢◌, ◌<◌, inl, inr, refl, false, some, arith, get_elem?, ◌∙◌,
  ◌==◌, ◌++◌, ◌∷◌, [], not_true→false, ==→eq, subst, ◌||◌,
}
use slash.Base.Outcome.{done}
use slash.Prefix
use slash.Prefix.{Prefix}
use slash.Prefix.Laws.{IsPrefix, IsTruncation, new-IsTruncation, bit_at-address_bit}
use slash.Timestamp.{Timestamp, ts_lt}
use slash.Node.{Node, NodeData, merge_ancestor, set_child}
use slash.Slab.Alloc.{IsSlab, IsLive, room}
use slash.Tree.Trie.{Trie, nil, node, has, Stored, size, not-has_fresh}
use slash.Tree.Trie.Insert.{fork_left, fork_right, IsFork, leaf_at, gain}
use slash.Tree.Monad.{State, with_slab, mark_dirty}
use slash.Tree.Monad.Laws.{get_node-done, update_node-done}
use slash.Tree.Insert.{InsertOutcome, announced_node, split_node, split}
use slash.Tree.Insert.Steps.{counted, alloc_announced_node-done, alloc_split_node-done}
use slash.Tree.Insert.Join.{Inserted, Dead, Stored-write, Stored-placed}

-- An index other than `a` is not in the leaf at `a`.
not-leaf :
    (D : Type 0) (a j : ℕ) → a ≢ j → ((a == j) || (has {D = D} nil j || has {D = D} nil j)) ≡ false
not-leaf D a j ne =
    not_true→false (((a == j) || (false || false))) (λ h. ne (ground (arith, ==→eq a j)))

module _ {D : Type 0} (nd : NodeData D) (p : Prefix) (incoming : D) (ts : Timestamp) (s : State D)
    (i f : ℕ) (q : Prefix) (d : D) (l r : Trie D) (st : Stored s.tree.slab (node i q f d l r))
    (valid : IsSlab s.tree.slab) (hp : IsPrefix p) (hq : IsPrefix q)
    (small : s.tree.announced_count + 1 < 2 ^ 32) (fits : 2 ≤ room s.tree.slab) where
  abbrev top : Trie D
  top = node i q f d l r

  -- The split node with the leaf `a` on one side and the old node on the other.
  abbrev forked : Prefix → ℕ → ℕ → ℕ → Node D
  forked m a bit bit' =
      let n = split_node nd m (nd.timestamp d) in
      let n' = set_child (set_child n bit (some a)) bit' (some i) in
      record n' { payload = merge_ancestor nd n'.payload ts }

  record Splits (c bit bit' : ℕ) : Type 0 where
    leaf_idx : ℕ
    split_idx : ℕ
    prefix : Prefix
    s' : State D
    runs :
        split nd p incoming ts i q c s
        ≡ done (
          record {
            new_subroot = split_idx;
            target = leaf_idx;
            ts_advanced = ts_lt (nd.timestamp d) ts;
          },
          s',
        )
    truncation : IsTruncation p.bits c prefix
    fresh : ¬ (IsLive s.tree.slab leaf_idx)
    fresh' : ¬ (IsLive s.tree.slab split_idx)
    differ : leaf_idx ≢ split_idx
    valid' : IsSlab s'.tree.slab
    value : get_elem? s'.tree.slab.entries split_idx ≡ some (forked prefix leaf_idx bit bit')
    is_live : IsLive s'.tree.slab split_idx
    leaf : Stored s'.tree.slab (leaf_at nd p incoming ts (Dead nd p incoming ts s) leaf_idx)
    below : Stored s'.tree.slab top
    live : (j : ℕ) → IsLive s.tree.slab j → IsLive s'.tree.slab j
    values :
        (j : ℕ)
        → IsLive s.tree.slab j
        → get_elem? s'.tree.slab.entries j ≡ get_elem? s.tree.slab.entries j
    tally : s'.tree.announced_count ≡ 1 + s.tree.announced_count
    space : room s.tree.slab ≡ 2 + room s'.tree.slab
    sweeps : s'.tree.sweep_count ≡ s.tree.sweep_count

  -- What `split` does once the split prefix is made.
  split-Splits :
      (c bit bit' : ℕ) (m : Prefix)
      → IsFork p q c bit bit'
      → bit ≢ bit'
      → Prefix.new p.bits c ≡ done m
      → IsTruncation p.bits c m
      → Splits c bit bit'
  unfolding split mark_dirty
  split-Splits c bit bit' m fork ne made tr =
      let al = alloc_announced_node-done nd p incoming ts s valid (omega arith) small in
      let a = al.0 in
      let pl = al.3 in
      let s1 = counted al.1 s in
      let al2 =
        alloc_split_node-done nd m (nd.timestamp d) s1 pl.valid (omega (arith, pl.room_left)) in
      let b = al2.0 in
      let pl2 = al2.3 in
      let s2 = with_slab al2.1 s1 in
      let w =
        update_node-done b
          (λ n.
            let n' = set_child (set_child n bit (some a)) bit' (some i) in
            record n' { payload = merge_ancestor nd n'.payload ts })
          s2 pl2.valid pl2.value in
      let fresh' : ¬ (IsLive s.tree.slab b) = λ h. pl2.fresh (pl.others b h) in
      let apart : a ≢ b = λ e. pl2.fresh (subst (λ k. IsLive al.1 k) e pl.live) in
      let away = not-has_fresh s.tree.slab top b st fresh' in
      let unequal : (bit == bit') ≡ false =
        not_true→false (bit == bit') (λ h. ne (==→eq bit bit' h)) in
      let leaf' = leaf_at nd p incoming ts (Dead nd p incoming ts s) a in
      record {
        leaf_idx = a;
        split_idx = b;
        prefix = m;
        s' = record s2 {
          tree = record (s2.tree) { slab = w.0 };
          dirty = (s2.dirty ++ b ∷ []) ++ a ∷ [];
        };
        runs =
            rw
              (
                get_node-done i s st.0,
                made,
                bit_at-address_bit p c (omega (arith, fork.shorter_left, hp.short)),
                fork.left_bit,
                bit_at-address_bit q c (omega (arith, fork.shorter_right, hq.short)),
                fork.right_bit,
                unequal,
                al.2,
                al2.2,
                w.1,
              )
              refl;
        truncation = tr;
        fresh = pl.fresh;
        fresh' = fresh';
        differ = apart;
        valid' = w.2.valid;
        value = w.2.value;
        is_live = w.2.live b pl2.live;
        leaf = Stored-write al2.1 w.0 b (forked m a bit bit') leaf' w.2 (not-leaf D a b apart) (
            Stored-placed al.1 al2.1 b (split_node nd m (nd.timestamp d)) leaf' pl2
              (pl.value, pl.live, tt, tt));
        below = Stored-write al2.1 w.0 b (forked m a bit bit') top w.2 away (
            Stored-placed al.1 al2.1 b (split_node nd m (nd.timestamp d)) top pl2
              (Stored-placed s.tree.slab al.1 a (announced_node nd p incoming ts) top pl st));
        live = λ j h. w.2.live j (pl2.others j (pl.others j h));
        values = λ j h.
            w.2.values j (λ e. fresh' (subst (λ k. IsLive s.tree.slab k) e h))
            ∙ pl2.values j (pl.others j h)
            ∙ pl.values j h;
        tally = omega arith;
        space = omega (arith, pl.room_left, pl2.room_left, w.2.room_same);
        sweeps = refl;
      }

  pub split-done :
      (c bit bit' : ℕ)
      → IsFork p q c bit bit'
      → bit < 2
      → bit' < 2
      → bit ≢ bit'
      → (out : InsertOutcome) × (s' : State D) × (split nd p incoming ts i q c s ≡ done (out, s'))
        × Inserted nd p incoming ts s top out s'
  unfolding gain size
  split-done c bit bit' fork h h' ne = elim (new-IsTruncation p.bits c hp.words) [
    | inr (big, panics) ↦ absurd (omega (arith, fork.shorter_left, hp.short))
    | inl (fine, m, made, tr) ↦
        sides bit bit' h h' ne fork (split-Splits c bit bit' m fork ne made tr)
  ]
    where
      sides :
          (bit bit' : ℕ)
          → bit < 2
          → bit' < 2
          → bit ≢ bit'
          → IsFork p q c bit bit'
          → Splits c bit bit'
          → (out : InsertOutcome) × (s' : State D) × (split nd p incoming ts i q c s
              ≡ done (out, s'))
            × Inserted nd p incoming ts s top out s'
      sides zero (suc zero) h h' ne fork sp = (
        record {
          new_subroot = sp.split_idx;
          target = sp.leaf_idx;
          ts_advanced = ts_lt (nd.timestamp d) ts;
        },
        sp.s',
        sp.runs,
        record {
          after = _;
          ins =
              fork_left sp.leaf_idx sp.split_idx c sp.prefix sp.fresh sp.fresh' sp.differ fork
                sp.truncation;
          stored = (sp.value, sp.is_live, sp.leaf, sp.below);
          root = refl;
          valid = sp.valid';
          live = sp.live;
          values = λ j k away. sp.values j k;
          tally = sp.tally;
          space = omega (arith, sp.space);
          sweeps = sp.sweeps;
        },
      )
      sides (suc zero) zero h h' ne fork sp = (
        record {
          new_subroot = sp.split_idx;
          target = sp.leaf_idx;
          ts_advanced = ts_lt (nd.timestamp d) ts;
        },
        sp.s',
        sp.runs,
        record {
          after = _;
          ins =
              fork_right sp.leaf_idx sp.split_idx c sp.prefix sp.fresh sp.fresh' sp.differ fork
                sp.truncation;
          stored = (sp.value, sp.is_live, sp.below, sp.leaf);
          root = refl;
          valid = sp.valid';
          live = sp.live;
          values = λ j k away. sp.values j k;
          tally = sp.tally;
          space = omega (arith, sp.space);
          sweeps = sp.sweeps;
        },
      )
      sides zero zero h h' ne fork sp = absurd (ne refl)
      sides (suc zero) (suc zero) h h' ne fork sp = absurd (ne refl)
      sides (suc (suc b)) b' h h' ne fork sp = absurd (omega arith)
      sides b (suc (suc b')) h h' ne fork sp = absurd (omega arith)
