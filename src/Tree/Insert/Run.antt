-- ===== src/Tree/Insert/Run.antt =====
-- `insert_recursive` runs as the relation `Inserts` says, on every well-formed trie.
use slash.Base.{
  ℕ, zero, suc, ◌+◌, ◌^◌, ◌≤◌, ◌≡◌, ◌≢◌, ◌<◌, ◌⊎◌, inl, inr, refl, true, false, some, arith, sym,
  ◌∙◌, ◌==◌, Bool-cases, ==→eq, eq→==, min, subst,
}
use slash.Base.Outcome.{done}
use slash.Address.Agree.{address_bit, address_bit-lt, Agree, IsCommonLen}
use slash.Prefix
use slash.Prefix.{Prefix, prefix_eq}
use slash.Prefix.Laws.{
  IsPrefix, bit_at-address_bit, prefix_eq_iff, shorter_of-ne, common_prefix_len-lem,
}
use slash.Timestamp.{Timestamp}
use slash.Node.{NodeData}
use slash.Slab.Alloc.{IsSlab, room}
use slash.Tree.Trie.{
  Trie, nil, node, root_of, slab_node, IsSeparate, Stored, IsTrie, IsEnough, IsEnough-child,
}
use slash.Tree.Trie.Insert.{IsFork, Extends}
use slash.Tree.Monad.{State}
use slash.Tree.Monad.Laws.{get_node-done}
use slash.Tree.Insert.{InsertOutcome, insert_recursive}
use slash.Tree.Insert.Join.{Inserted, rise, join_left, join_right}
use slash.Tree.Insert.Frames.{after_descent-done, graft_leaf-done, reannounce-done}
use slash.Tree.Insert.Above.{splice_above-done}
use slash.Tree.Insert.Fork.{split-done}

module _ {D : Type 0} (nd : NodeData D) (p : Prefix) (incoming : D) (ts : Timestamp) where
  -- The call returns, and leaves the insertion.
  abbrev pub Returns : ℕ → State D → ℕ → Trie D → Type 0
  Returns fuel s i t =
      (out : InsertOutcome) × (s' : State D) × (insert_recursive nd p incoming ts fuel i s
        ≡ done (out, s'))
      × Inserted nd p incoming ts s t out s'

  module _ (fuel : ℕ) (s : State D) (i f : ℕ) (q : Prefix) (d : D) (valid : IsSlab s.tree.slab)
      (fits : 2 ≤ room s.tree.slab) (small : s.tree.announced_count + 1 < 2 ^ 32) (hp : IsPrefix p)
      (unequal : prefix_eq q p ≡ false)
      (begins : (Prefix.common_prefix_len p q == q.len) ≡ true) where
    -- The frame goes to its left child, or puts a leaf there.
    descend_left :
        (l r : Trie D)
        → Stored s.tree.slab (node i q f d l r)
        → IsSeparate (node i q f d l r)
        → Extends q 0 p
        → ((c : ℕ) → root_of l ≡ some c → Returns fuel s c l)
        → Returns (suc fuel) s i (node i q f d l r)
    unfolding insert_recursive
    descend_left nil r st separate e ih =
        let here = get_node-done i s st.0 in
        let bit = bit_at-address_bit p q.len (omega (arith, e.0, hp.short)) in
        let (s1, s', sub, runs, below, w, count, kept) =
          graft_leaf-done nd p incoming ts i 0 s (slab_node q f d nil r) valid st.1 (omega arith)
            small st.0 in
        (
          rise nd p incoming ts s s1 s' sub i f q d nil r st separate (count, kept),
          s',
          rw (here, unequal, begins, bit, e.2, runs) refl,
          join_left nd p incoming ts s s1 s' sub i f q d nil r st separate (count, kept) below w e,
        )
    descend_left (node j x g y a b) r st separate e ih =
        let l : Trie D = node j x g y a b in
        let here = get_node-done i s st.0 in
        let bit = bit_at-address_bit p q.len (omega (arith, e.0, hp.short)) in
        let (sub, s1, runs, below) = ih j refl in
        let value = below.values i st.1 separate.0 ∙ st.0 in
        let (s', runs', w, count, kept) =
          after_descent-done nd p incoming ts i 0 j sub s1 (slab_node q f d l r) below.valid value
            refl in
        (
          rise nd p incoming ts s s1 s' sub i f q d l r st separate (count, kept),
          s',
          rw (here, unequal, begins, bit, e.2, runs, runs') refl,
          join_left nd p incoming ts s s1 s' sub i f q d l r st separate (count, kept) below w e,
        )

    -- The frame goes to its right child, or puts a leaf there.
    descend_right :
        (l r : Trie D)
        → Stored s.tree.slab (node i q f d l r)
        → IsSeparate (node i q f d l r)
        → Extends q 1 p
        → ((c : ℕ) → root_of r ≡ some c → Returns fuel s c r)
        → Returns (suc fuel) s i (node i q f d l r)
    unfolding insert_recursive
    descend_right l nil st separate e ih =
        let here = get_node-done i s st.0 in
        let bit = bit_at-address_bit p q.len (omega (arith, e.0, hp.short)) in
        let (s1, s', sub, runs, below, w, count, kept) =
          graft_leaf-done nd p incoming ts i 1 s (slab_node q f d l nil) valid st.1 (omega arith)
            small st.0 in
        (
          rise nd p incoming ts s s1 s' sub i f q d l nil st separate (count, kept),
          s',
          rw (here, unequal, begins, bit, e.2, runs) refl,
          join_right nd p incoming ts s s1 s' sub i f q d l nil st separate (count, kept) below w e,
        )
    descend_right l (node j x g y a b) st separate e ih =
        let r : Trie D = node j x g y a b in
        let here = get_node-done i s st.0 in
        let bit = bit_at-address_bit p q.len (omega (arith, e.0, hp.short)) in
        let (sub, s1, runs, below) = ih j refl in
        let value = below.values i st.1 separate.1 ∙ st.0 in
        let (s', runs', w, count, kept) =
          after_descent-done nd p incoming ts i 1 j sub s1 (slab_node q f d l r) below.valid value
            refl in
        (
          rise nd p incoming ts s s1 s' sub i f q d l r st separate (count, kept),
          s',
          rw (here, unequal, begins, bit, e.2, runs, runs') refl,
          join_right nd p incoming ts s s1 s' sub i f q d l r st separate (count, kept) below w e,
        )

  -- A frame returns where the frames below it do.
  frame :
      (fuel : ℕ) (s : State D) (i f : ℕ) (q : Prefix) (d : D) (l r : Trie D)
      → Stored s.tree.slab (node i q f d l r)
      → IsSeparate (node i q f d l r)
      → IsSlab s.tree.slab
      → 2 ≤ room s.tree.slab
      → s.tree.announced_count + 1 < 2 ^ 32
      → IsPrefix p
      → IsPrefix q
      → ((c : ℕ) → root_of l ≡ some c → Returns fuel s c l)
      → ((c : ℕ) → root_of r ≡ some c → Returns fuel s c r)
      → Returns (suc fuel) s i (node i q f d l r)
  unfolding insert_recursive
  frame fuel s i f q d l r st sep valid fits small hp hq left right =
      let here = get_node-done i s st.0 in
      let c = Prefix.common_prefix_len p q in
      let cl : IsCommonLen p.bits q.bits (min p.len q.len) c = common_prefix_len-lem p q hp hq in
      elim (Bool-cases (prefix_eq q p)) [
        | inl equal ↦
            let (out, s', runs, res) =
              reannounce-done nd p incoming ts s i f q d l r st sep valid small
                ((prefix_eq_iff q p).0 equal) in
            (out, s', rw (here, equal, runs) refl, res)
        | inr unequal ↦ elim (Bool-cases (c == q.len)) [
          | inl begins ↦
              let k : c ≡ q.len = ==→eq c q.len begins in
              let agree : Agree q.len q.bits p.bits = λ j h. sym (cl.agree j (omega arith)) in
              let differs : q ≢ p = λ e. let t = (prefix_eq_iff q p).1 e in cc in
              let shorter = shorter_of-ne q p hq hp (omega (arith, cl.bounded)) agree differs in
              elim (address_bit-cases q) [
                | inl e ↦
                    descend_left fuel s i f q d valid fits small hp unequal begins l r st sep
                      (shorter, agree, e) left
                | inr e ↦
                    descend_right fuel s i f q d valid fits small hp unequal begins l r st sep
                      (shorter, agree, e) right
              ]
          | inr ends ↦ elim (Bool-cases (c == p.len)) [
            | inl above ↦
                let k : c ≡ p.len = ==→eq c p.len above in
                let k' : c ≢ q.len = λ e. let t = eq→== c q.len e in cc in
                let agree : Agree p.len p.bits q.bits = λ j h. cl.agree j (omega arith) in
                let shorter : p.len < q.len = omega (arith, cl.bounded) in
                let (out, s', runs, res) =
                  splice_above-done nd p incoming ts s i f q d l r st valid hp hq small
                    (address_bit q.bits p.len) (omega arith) (address_bit-lt q.bits p.len)
                    (shorter, agree, refl) in
                (out, s', rw (here, unequal, ends, above, runs) refl, res)
            | inr below ↦
                let k : c ≢ p.len = λ e. let t = eq→== c p.len e in cc in
                let k' : c ≢ q.len = λ e. let t = eq→== c q.len e in cc in
                let inside : c < min p.len q.len = omega (arith, cl.bounded) in
                let fork : IsFork p q c (address_bit p.bits c) (address_bit q.bits c) = record {
                  shorter_left = omega arith;
                  shorter_right = omega arith;
                  agree = cl.agree;
                  left_bit = refl;
                  right_bit = refl;
                } in
                let (out, s', runs, res) =
                  split-done nd p incoming ts s i f q d l r st valid hp hq small fits c
                    (address_bit p.bits c) (address_bit q.bits c) fork (address_bit-lt p.bits c)
                    (address_bit-lt q.bits c) (cl.differ inside) in
                (out, s', rw (here, unequal, ends, below, runs) refl, res)
          ]
        ]
      ]
    where
      address_bit-cases :
          (q : Prefix) → (address_bit p.bits q.len ≡ 0) ⊎ (address_bit p.bits q.len ≡ 1)
      address_bit-cases q = ground (arith, address_bit-lt p.bits q.len)

  -- On every stored trie, with fuel for its depth and room for two nodes, the call returns and
  -- leaves the insertion.
  pub insert_recursive-Returns :
      (fuel : ℕ) (s : State D) (i : ℕ) (t : Trie D)
      → root_of t ≡ some i
      → IsEnough fuel t
      → Stored s.tree.slab t
      → IsSeparate t
      → IsTrie t
      → IsSlab s.tree.slab
      → 2 ≤ room s.tree.slab
      → s.tree.announced_count + 1 < 2 ^ 32
      → IsPrefix p
      → Returns fuel s i t
  insert_recursive-Returns fuel s i nil e enough st sep shape valid fits small hp = cc
  insert_recursive-Returns zero s i (node i' q f d l r) e enough st sep shape valid fits small hp =
      absurd (omega (arith, shape.0.short))
  insert_recursive-Returns (suc fuel) s i (node i' q f d l r) e enough st sep shape valid fits small
        hp =
      let same : i' ≡ i = cc in
      subst (λ k. Returns (suc fuel) s k (node i' q f d l r)) same
        (frame fuel s i' f q d l r st sep valid fits small hp shape.0
          (λ c e.
            insert_recursive-Returns fuel s c l e (IsEnough-child fuel 0 q l enough shape.1) st.2
              sep.3 shape.3 valid fits small hp)
          (λ c e.
            insert_recursive-Returns fuel s c r e (IsEnough-child fuel 1 q r enough shape.2) st.3
              sep.4 shape.4 valid fits small hp))
