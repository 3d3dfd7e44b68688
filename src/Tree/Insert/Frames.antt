-- ===== src/Tree/Insert/Frames.antt =====
-- The frames of `insert_recursive` that create no node above: announce again, and come back from
-- a child or from a new leaf.
use slash.Base.{
  ℕ, ◌+◌, ◌^◌, ◌≡◌, ◌<◌, inl, inr, refl, Bool, true, false, some, if◌then◌else◌, arith, get_elem?,
  ◌∙◌, Bool-cases, bit_or, not, ◌&&◌, ◌||◌, ◌==◌, ==→eq, List, ◌++◌, ◌∷◌, [],
}
use slash.Base.Outcome.{done}
use slash.Prefix.{Prefix}
use slash.Timestamp.{Timestamp, ts_lt}
use slash.Node.{Node, NodeData, announced_flag, is_announced, set_announced, set_child}
use slash.Slab.{VecSlab}
use slash.Slab.Alloc.{IsSlab, IsLive, room}
use slash.Slab.Free.{IsWrite, IsWrite-refl, IsWrite-trans}
use slash.Tree.Trie.{Trie, nil, node, slab_node, IsSeparate, Stored, flagged, size}
use slash.Tree.Trie.Insert.{leaf, again, advances, gain}
use slash.Tree.Monad.{State, pure, with_slab, update_node, mark_dirty, count_up}
use slash.Tree.Monad.Laws.{get_node-done, update_node-done, count_up-done}
use slash.Tree.Insert.{InsertOutcome, announced_node, reannounce, after_descent, graft_leaf}
use slash.Tree.Insert.Steps.{
  IsPlaced, counted, alloc_announced_node-done, changes, propagate-done, propagate_if,
}
use slash.Tree.Insert.Join.{Inserted, joined, Stored-write, outside}

module _ {D : Type 0} where
  -- A report that depends on a test changes the log alone.
  pub mark_if :
      (b : Bool) (i : ℕ) (s : State D)
      → (log : List ℕ) × ((if b then mark_dirty i else pure tt) s
          ≡ done (tt, record s { dirty = log }))
  unfolding mark_dirty
  mark_if true i s = (s.dirty ++ i ∷ [], refl)
  mark_if false i s = (s.dirty, refl)

  -- The link to the child is written where the child changed.
  pub link_if :
      (c new bit i : ℕ) (s : State D) (n : Node D)
      → IsSlab s.tree.slab
      → get_elem? s.tree.slab.entries i ≡ some n
      → set_child n bit (some c) ≡ n
      → (slab : VecSlab (Node D)) × ((if not (new == c)
              then update_node i (λ n. set_child n bit (some new))
              else pure tt)
            s
          ≡ done (tt, with_slab slab s))
        × IsWrite s.tree.slab slab i (set_child n bit (some new))
  link_if c new bit i s n valid e linked = elim (Bool-cases (new == c)) [
    | inl same ↦
        let eq : new ≡ c = ==→eq new c same in
        (s.tree.slab, rw same refl, rw (eq, linked) (IsWrite-refl s.tree.slab i n valid e))
    | inr other ↦
        let w = update_node-done i (λ n. set_child n bit (some new)) s valid e in
        (w.0, rw (other, w.1) refl, w.2)
  ]

  -- An announcement counts where the node was not announced.
  abbrev pub plus : ℕ → State D → State D
  plus k s = record s { tree = record (s.tree) { announced_count = k + s.tree.announced_count } }

  count_if :
      (b : Bool) (s : State D)
      → s.tree.announced_count + 1 < 2 ^ 32
      → (if b then pure tt else count_up) s ≡ done (tt, plus (if b then 0 else 1) s)
  count_if true s small =
      let same : 0 + s.tree.announced_count ≡ s.tree.announced_count = omega arith in rw same refl
  count_if false s small =
      let flip : s.tree.announced_count + 1 ≡ 1 + s.tree.announced_count = omega arith in
      rw (count_up-done s small, flip) refl

module _ {D : Type 0} (nd : NodeData D) (p : Prefix) (incoming : D) (ts : Timestamp) where
  pub after_descent-done :
      (i bit c : ℕ) (sub : InsertOutcome) (s : State D) (n : Node D)
      → IsSlab s.tree.slab
      → get_elem? s.tree.slab.entries i ≡ some n
      → set_child n bit (some c) ≡ n
      → (s' : State D) × (after_descent nd p incoming ts i bit c sub s
          ≡ done (
            record {
              new_subroot = i;
              target = sub.target;
              ts_advanced =
                  advances nd p incoming ts
                    (λ j. ⊥)
                    sub.ts_advanced
                    (set_child n bit (some sub.new_subroot)).payload;
            },
            s',
          ))
        × IsWrite s.tree.slab s'.tree.slab i (joined nd p incoming ts n bit sub)
        × (s'.tree.announced_count ≡ s.tree.announced_count)
        × (s'.tree.sweep_count ≡ s.tree.sweep_count)
  unfolding after_descent
  after_descent-done i bit c sub s n valid e linked =
      let w1 = link_if c sub.new_subroot bit i s n valid e linked in
      let s1 = with_slab w1.0 s in
      let n1 = set_child n bit (some sub.new_subroot) in
      let w2 = propagate_if nd sub.ts_advanced i ts s1 n1 w1.2.valid w1.2.value in
      let s2 = with_slab w2.0 s1 in
      let m =
        mark_if (not (sub.new_subroot == c) || (sub.ts_advanced && changes nd n1.payload ts)) i
          s2 in
      (
        record s2 { dirty = m.0 },
        rw (w1.1, w2.1, m.1) refl,
        IsWrite-trans s.tree.slab w1.0 w2.0 i n1 (joined nd p incoming ts n bit sub) w1.2 w2.2,
        refl,
        refl,
      )

  -- A new leaf, where no trie was.
  pub leaf-Inserted :
      (s : State D) (slab : VecSlab (Node D)) (a : ℕ)
      → IsPlaced s.tree.slab slab a (announced_node nd p incoming ts)
      → Inserted nd p incoming ts s nil
          (record { new_subroot = a; target = a; ts_advanced = true })
          (counted slab s)
  unfolding gain size
  leaf-Inserted s slab a pl = record {
    after = node a p announced_flag (nd.apply_announce nd.default incoming ts) nil nil;
    ins = leaf a pl.fresh;
    stored = (pl.value, pl.live, tt, tt);
    root = refl;
    valid = pl.valid;
    live = pl.others;
    values = λ j h away. pl.values j h;
    tally = omega arith;
    space = omega (arith, pl.room_left);
    sweeps = refl;
  }

  pub graft_leaf-done :
      (i bit : ℕ) (s : State D) (n : Node D)
      → IsSlab s.tree.slab
      → IsLive s.tree.slab i
      → 0 < room s.tree.slab
      → s.tree.announced_count + 1 < 2 ^ 32
      → get_elem? s.tree.slab.entries i ≡ some n
      → (s1 : State D) × (s' : State D) × (sub : InsertOutcome) × (graft_leaf nd p incoming ts i bit
            s
          ≡ done (
            record {
              new_subroot = i;
              target = sub.target;
              ts_advanced =
                  advances nd p incoming ts
                    (λ j. ⊥)
                    sub.ts_advanced
                    (set_child n bit (some sub.new_subroot)).payload;
            },
            s',
          ))
        × Inserted nd p incoming ts s nil sub s1
        × IsWrite s1.tree.slab s'.tree.slab i (joined nd p incoming ts n bit sub)
        × (s'.tree.announced_count ≡ s1.tree.announced_count)
        × (s'.tree.sweep_count ≡ s1.tree.sweep_count)
  unfolding graft_leaf mark_dirty
  graft_leaf-done i bit s n valid live fits small e =
      let al = alloc_announced_node-done nd p incoming ts s valid fits small in
      let a = al.0 in
      let pl = al.3 in
      let s1 = counted al.1 s in
      let e1 = pl.values i live ∙ e in
      let n1 = set_child n bit (some a) in
      let w1 = update_node-done i (λ n. set_child n bit (some a)) s1 pl.valid e1 in
      let s2 : State D = record s1 {
        tree = record (s1.tree) { slab = w1.0 };
        dirty = s1.dirty ++ a ∷ [];
      } in
      let w2 = propagate-done nd i ts s2 n1 w1.2.valid w1.2.value in
      let s3 : State D = record s2 {
        tree = record (s2.tree) { slab = w2.0 };
        dirty = s2.dirty ++ i ∷ [];
      } in
      let sub : InsertOutcome = record { new_subroot = a; target = a; ts_advanced = true } in
      (
        s1,
        s3,
        sub,
        rw (al.2, w1.1, w2.1) refl,
        leaf-Inserted s al.1 a pl,
        IsWrite-trans s1.tree.slab w1.0 w2.0 i n1 (joined nd p incoming ts n bit sub) w1.2 w2.2,
        refl,
        refl,
      )

  module _ (s : State D) (i f : ℕ) (q : Prefix) (d : D) (l r : Trie D)
      (st : Stored s.tree.slab (node i q f d l r)) (separate : IsSeparate (node i q f d l r))
      (valid : IsSlab s.tree.slab) (small : s.tree.announced_count + 1 < 2 ^ 32) where
    -- The node with the announcement.
    abbrev again_node : Node D
    again_node = slab_node q (bit_or f announced_flag) (nd.apply_announce d incoming ts) l r

    abbrev again_outcome : InsertOutcome
    again_outcome = record { new_subroot = i; target = i; ts_advanced = ts_lt (nd.timestamp d) ts }

    pub reannounce-done :
        q ≡ p
        → (out : InsertOutcome) × (s' : State D) × (reannounce nd p incoming ts i s
            ≡ done (out, s'))
          × Inserted nd p incoming ts s (node i q f d l r) out s'
    unfolding reannounce set_announced is_announced mark_dirty gain size
    reannounce-done same =
        let set : Node D → Node D = λ n.
          let n' = set_announced n true in
          record n' { payload = nd.apply_announce n'.payload incoming ts } in
        let w = update_node-done i set s valid st.0 in
        let s1 = with_slab w.0 s in
        let s2 = plus (if flagged f then 0 else 1) s1 in
        (
          again_outcome,
          record s2 { dirty = s2.dirty ++ i ∷ [] },
          rw (get_node-done i s st.0, w.1, count_if (flagged f) s1 small) refl,
          record {
            after = node i q (bit_or f announced_flag) (nd.apply_announce d incoming ts) l r;
            ins = again same;
            stored = (
              w.2.value,
              w.2.live i st.1,
              Stored-write s.tree.slab w.0 i again_node l w.2 separate.0 st.2,
              Stored-write s.tree.slab w.0 i again_node r w.2 separate.1 st.3,
            );
            root = refl;
            valid = w.2.valid;
            live = w.2.live;
            values = λ j h away. w.2.values j (outside i j l r away).0;
            tally = refl;
            space = omega (arith, w.2.room_same);
            sweeps = refl;
          },
        )
