-- ===== src/Tree/Withdraw/Run.antt =====
-- `withdraw_recursive` runs as the relation `Withdraws` says where the prefix is announced, and
-- changes nothing where it is not.
pub mod Descent
use slash.Base.{
  ℕ, zero, suc, ◌-◌, ◌^◌, ◌≤◌, ◌≡◌, ◌≢◌, ◌<◌, ◌⊎◌, inl, inr, refl, Bool, false, some, ltb, bit_and,
  arith, get_elem?, sym, ◌∙◌, ap, subst, Bool-cases, min, ◌++◌, ◌∷◌, [],
}
use slash.Base.Outcome.{Outcome, done}
use slash.Address.Agree.{address_bit, address_bit-lt, Agree, IsCommonLen}
use slash.Prefix
use slash.Prefix.{Prefix, prefix_eq}
use slash.Prefix.Laws.{
  IsPrefix, bit_at-address_bit, prefix_eq_iff, shorter_of-ne, common_prefix_len-lem,
}
use slash.Timestamp.{Timestamp, ts_lt}
use slash.Node.{Node, NodeData, announced_flag, is_announced, set_announced}
use slash.Slab.Alloc.{IsSlab, IsLive, room}
use slash.Tree.Trie.{
  Trie, nil, node, root_of, slab_node, has, IsSeparate, Stored, Stored-frame, IsTrie, IsEnough,
  IsEnough-child, Announced, flagged, count_announced,
}
use slash.Tree.Trie.Insert.{Extends}
use slash.Tree.Trie.Withdraw.{
  Withdraws, here, left, right, raised, raises, root-Withdraws, has-Withdraws, Announced-Extends,
}
use slash.Tree.Monad.{State, and_then, with_slab, count_down, count_down_from, mark_dirty}
use slash.Tree.Monad.Laws.{get_node-done, update_node-done}
use slash.Tree.Insert.Steps.{propagate_if}
use slash.Tree.Insert.Frames.{mark_if}
use slash.Tree.Insert.Join.{Stored-write, Apart-sym, outside}
use slash.Tree.Withdraw.{
  WithdrawOutcome, not_found, withdrew, withdraw_here, after_withdraw, withdraw_recursive,
}

module _ {D : Type 0} (nd : NodeData D) (p : Prefix) (ts : Timestamp) where
  -- What a successful withdrawal leaves.
  pub record Withdrawn (s : State D) (t : Trie D) (adv : Bool) (s' : State D) : Type 0 where
    pub after : Trie D
    pub wd : Withdraws nd p ts t after adv
    pub stored : Stored s'.tree.slab after
    pub valid : IsSlab s'.tree.slab
    pub live : (j : ℕ) → IsLive s.tree.slab j → IsLive s'.tree.slab j
    pub values :
        (j : ℕ)
        → has t j ≡ false
        → get_elem? s'.tree.slab.entries j ≡ get_elem? s.tree.slab.entries j
    pub root_same : s'.tree.root ≡ s.tree.root
    pub tally : s.tree.announced_count ≡ suc s'.tree.announced_count
    pub room_same : room s'.tree.slab ≡ room s.tree.slab
    pub sweeps : s'.tree.sweep_count ≡ s.tree.sweep_count

  -- Either way for the run `o` of a frame.
  abbrev pub Ends : State D → Trie D → Outcome (WithdrawOutcome × State D) → Type 0
  Ends s t o =
      ((o ≡ done (not_found, s)) × ¬ (Announced t p))
      ⊎ ((adv : Bool) × (s' : State D) × (o ≡ done (withdrew adv, s')) × Withdrawn s t adv s')

  count_down-done :
      (s : State D)
      → 0 < s.tree.announced_count
      → (n : ℕ) × (s.tree.announced_count ≡ suc n)
        × (count_down s ≡ done (tt, record s { tree = record (s.tree) { announced_count = n } }))
  unfolding count_down count_down_from
  count_down-done s h = go s.tree.announced_count refl h
    where
      go :
          (c : ℕ)
          → s.tree.announced_count ≡ c
          → 0 < c
          → (n : ℕ) × (s.tree.announced_count ≡ suc n)
            × (count_down s
                ≡ done (tt, record s { tree = record (s.tree) { announced_count = n } }))
      go zero e h = absurd (omega arith)
      go (suc n) e h = (n, e, ap (λ c. count_down_from c s) e)

  module _ (s : State D) (i f : ℕ) (q : Prefix) (d : D) (l r : Trie D)
      (st : Stored s.tree.slab (node i q f d l r)) (sep : IsSeparate (node i q f d l r))
      (valid : IsSlab s.tree.slab) (shape : IsTrie (node i q f d l r)) where
    abbrev top : Trie D
    top = node i q f d l r

    same_len : {x y : Prefix} → x ≡ y → x.len ≡ y.len
    same_len e = ap (λ (z : Prefix). z.len) e

    outside_of : (b : ℕ) → Extends q b p → Prefix.common_prefix_len p q < q.len → IsPrefix p → ⊥
    outside_of b e short hp =
        let cl : IsCommonLen p.bits q.bits (min p.len q.len) (Prefix.common_prefix_len p q) =
          common_prefix_len-lem p q hp shape.0 in
        cl.differ (omega (arith, e.0)) (sym (e.1 (Prefix.common_prefix_len p q) short))

    -- Where the prefix is not announced.
    absent_here : q ≡ p → flagged f ≡ false → ¬ (Announced top p)
    absent_here same off (inl (e, on)) = cc
    absent_here same off (inr (inl h)) =
        let below = Announced-Extends q 0 l p shape.1 shape.3 h in
        omega (arith, same_len same, below.0)
    absent_here same off (inr (inr h)) =
        let below = Announced-Extends q 1 r p shape.2 shape.4 h in
        omega (arith, same_len same, below.0)

    pub absent_left : Extends q 0 p → ¬ (Announced l p) → ¬ (Announced top p)
    absent_left e nothing (inl (same, on)) = omega (arith, same_len same, e.0)
    absent_left e nothing (inr (inl h)) = nothing h
    absent_left e nothing (inr (inr h)) =
        let below = Announced-Extends q 1 r p shape.2 shape.4 h in omega (arith, e.2, below.2)

    pub absent_right : Extends q 1 p → ¬ (Announced r p) → ¬ (Announced top p)
    absent_right e nothing (inl (same, on)) = omega (arith, same_len same, e.0)
    absent_right e nothing (inr (inr h)) = nothing h
    absent_right e nothing (inr (inl h)) =
        let below = Announced-Extends q 0 l p shape.1 shape.3 h in omega (arith, e.2, below.2)

    pub absent_outside :
        q ≢ p → Prefix.common_prefix_len p q < q.len → IsPrefix p → ¬ (Announced top p)
    absent_outside differs short hp (inl (same, on)) = differs same
    absent_outside differs short hp (inr (inl h)) =
        outside_of 0 (Announced-Extends q 0 l p shape.1 shape.3 h) short hp
    absent_outside differs short hp (inr (inr h)) =
        outside_of 1 (Announced-Extends q 1 r p shape.2 shape.4 h) short hp

    -- The prefix of the node itself.
    pub withdraw_here-Ends :
        q ≡ p
        → count_announced top ≤ s.tree.announced_count
        → Ends s top (withdraw_here nd p ts i (slab_node q f d l r) s)
    unfolding withdraw_here is_announced set_announced mark_dirty count_announced
    withdraw_here-Ends same tally = elim (Bool-cases (flagged f)) [
      | inr off ↦ inl (rw off refl, absent_here same off)
      | inl on ↦
          let dead : Node D =
            slab_node q (bit_and f (2 ^ 32 - 1 - announced_flag)) (nd.apply_withdraw d ts) l r in
          let w =
            update_node-done i
              (λ n.
                let n' = set_announced n false in
                record n' { payload = nd.apply_withdraw n'.payload ts })
              s valid st.0 in
          let s1 = with_slab w.0 s in
          let (n, e, runs) = count_down-done s1 (ground arith) in
          let s2 : State D = record s1 { tree = record (s1.tree) { announced_count = n } } in
          inr (
            ts_lt (nd.timestamp d) ts,
            record s2 { dirty = s2.dirty ++ i ∷ [] },
            rw (on, w.1, runs) refl,
            record {
              after =
                  node i q (bit_and f (2 ^ 32 - 1 - announced_flag)) (nd.apply_withdraw d ts) l r;
              wd = here same on;
              stored = (
                w.2.value,
                w.2.live i st.1,
                Stored-write s.tree.slab w.0 i dead l w.2 sep.0 st.2,
                Stored-write s.tree.slab w.0 i dead r w.2 sep.1 st.3,
              );
              valid = w.2.valid;
              live = w.2.live;
              values = λ j away. w.2.values j (outside i j l r away).0;
              root_same = refl;
              tally = e;
              room_same = w.2.room_same;
              sweeps = refl;
            },
          )
    ]

    -- Back from the left child `c`.
    pub ascend_left :
        (c : ℕ) (o : Outcome (WithdrawOutcome × State D))
        → root_of l ≡ some c
        → Extends q 0 p
        → Ends s l o
        → Ends s top (and_then o (λ sub. after_withdraw nd p ts i sub))
    unfolding after_withdraw
    ascend_left c o linked e (inl (runs, absent)) = inl (rw runs refl, absent_left e absent)
    ascend_left c o linked e (inr (adv, s1, runs, below)) =
        let n = slab_node q f d l r in
        let value = below.values i sep.0 ∙ st.0 in
        let w = propagate_if nd adv i ts s1 n below.valid value in
        let s2 = with_slab w.0 s1 in
        let m = mark_if (raises nd p ts adv d) i s2 in
        let n' : Node D = slab_node q f (raised nd p ts adv d) l r in
        inr (
          raises nd p ts adv d,
          record s2 { dirty = m.0 },
          rw (runs, w.1, m.1) refl,
          record {
            after = node i q f (raised nd p ts adv d) below.after r;
            wd = left e below.wd;
            stored = (
              rw (root-Withdraws nd p ts below.wd) w.2.value,
              w.2.live i (below.live i st.1),
              Stored-write s1.tree.slab w.0 i n' below.after w.2
                  (has-Withdraws nd p ts i below.wd ∙ sep.0) below.stored,
              Stored-write s1.tree.slab w.0 i n' r w.2 sep.1 (
                  Stored-frame s.tree.slab s1.tree.slab r st.3
                    (λ j h alive. (below.values j (Apart-sym l r j sep.2 h), below.live j alive))),
            );
            valid = w.2.valid;
            live = λ j h. w.2.live j (below.live j h);
            values = λ j away.
                let (differs, aside, _) = outside i j l r away in
                w.2.values j differs ∙ below.values j aside;
            root_same = below.root_same;
            tally = below.tally;
            room_same = w.2.room_same ∙ below.room_same;
            sweeps = below.sweeps;
          },
        )

    -- Back from the right child `c`.
    pub ascend_right :
        (c : ℕ) (o : Outcome (WithdrawOutcome × State D))
        → root_of r ≡ some c
        → Extends q 1 p
        → Ends s r o
        → Ends s top (and_then o (λ sub. after_withdraw nd p ts i sub))
    unfolding after_withdraw
    ascend_right c o linked e (inl (runs, absent)) = inl (rw runs refl, absent_right e absent)
    ascend_right c o linked e (inr (adv, s1, runs, below)) =
        let n = slab_node q f d l r in
        let value = below.values i sep.1 ∙ st.0 in
        let w = propagate_if nd adv i ts s1 n below.valid value in
        let s2 = with_slab w.0 s1 in
        let m = mark_if (raises nd p ts adv d) i s2 in
        let n' : Node D = slab_node q f (raised nd p ts adv d) l r in
        inr (
          raises nd p ts adv d,
          record s2 { dirty = m.0 },
          rw (runs, w.1, m.1) refl,
          record {
            after = node i q f (raised nd p ts adv d) l below.after;
            wd = right e below.wd;
            stored = (
              rw (root-Withdraws nd p ts below.wd) w.2.value,
              w.2.live i (below.live i st.1),
              Stored-write s1.tree.slab w.0 i n' l w.2 sep.0 (
                  Stored-frame s.tree.slab s1.tree.slab l st.2
                    (λ j h alive. (below.values j (sep.2 j h), below.live j alive))),
              Stored-write s1.tree.slab w.0 i n' below.after w.2
                  (has-Withdraws nd p ts i below.wd ∙ sep.1) below.stored,
            );
            valid = w.2.valid;
            live = λ j h. w.2.live j (below.live j h);
            values = λ j away.
                let (differs, _, aside) = outside i j l r away in
                w.2.values j differs ∙ below.values j aside;
            root_same = below.root_same;
            tally = below.tally;
            room_same = w.2.room_same ∙ below.room_same;
            sweeps = below.sweeps;
          },
        )
