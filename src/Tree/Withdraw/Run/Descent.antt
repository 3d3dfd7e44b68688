-- ===== src/Tree/Withdraw/Run/Descent.antt =====
-- `withdraw_recursive` from a node down and back, with fuel for the depth of the trie.
use slash.Base.{
  ℕ, zero, suc, ◌≤◌, ◌≡◌, ◌≢◌, ◌⊎◌, inl, inr, refl, false, some, ltb, arith, sym, subst, Bool-cases,
  min,
}
use slash.Address.Agree.{address_bit, address_bit-lt, Agree, IsCommonLen}
use slash.Prefix
use slash.Prefix.{Prefix, prefix_eq}
use slash.Prefix.Laws.{
  IsPrefix, bit_at-address_bit, prefix_eq_iff, shorter_of-ne, common_prefix_len-lem,
}
use slash.Timestamp.{Timestamp}
use slash.Node.{NodeData}
use slash.Slab.Alloc.{IsSlab}
use slash.Tree.Trie.{
  Trie, nil, node, root_of, slab_node, IsSeparate, Stored, IsTrie, IsEnough, IsEnough-child,
  count_announced,
}
use slash.Tree.Trie.Insert.{Extends}
use slash.Tree.Monad.{State, and_then}
use slash.Tree.Monad.Laws.{get_node-done}
use slash.Tree.Withdraw.{withdraw_here, after_withdraw, withdraw_recursive}
use slash.Tree.Withdraw.Run.{
  Ends, absent_left, absent_right, absent_outside, withdraw_here-Ends, ascend_left, ascend_right,
}

module _ {D : Type 0} (nd : NodeData D) (p : Prefix) (ts : Timestamp) where
  module _ (fuel : ℕ) (s : State D) (i f : ℕ) (q : Prefix) (d : D) (valid : IsSlab s.tree.slab)
      (hp : IsPrefix p) (unequal : prefix_eq q p ≡ false)
      (begins : ltb (Prefix.common_prefix_len p q) q.len ≡ false) where
    -- The frame goes on with its left child, if there is one.
    descend_left :
        (l r : Trie D)
        → Stored s.tree.slab (node i q f d l r)
        → IsSeparate (node i q f d l r)
        → IsTrie (node i q f d l r)
        → Extends q 0 p
        → ((c : ℕ) → root_of l ≡ some c → Ends nd p ts s l (withdraw_recursive nd p ts fuel c s))
        → Ends nd p ts s (node i q f d l r) (withdraw_recursive nd p ts (suc fuel) i s)
    unfolding withdraw_recursive
    descend_left nil r st sep shape e ih =
        let at = get_node-done i s st.0 in
        let bit = bit_at-address_bit p q.len (omega (arith, e.0, hp.short)) in
        inl (
          rw (at, unequal, begins, bit, e.2) refl,
          absent_left nd p ts s i f q d nil r st sep valid shape e (λ h. h),
        )
    descend_left (node j x g y a b) r st sep shape e ih =
        let l : Trie D = node j x g y a b in
        let at = get_node-done i s st.0 in
        let bit = bit_at-address_bit p q.len (omega (arith, e.0, hp.short)) in
        let same : withdraw_recursive nd p ts (suc fuel) i s
            ≡ and_then (withdraw_recursive nd p ts fuel j s) (λ sub. after_withdraw nd p ts i sub) =
          rw (at, unequal, begins, bit, e.2) refl in
        subst (λ o. Ends nd p ts s (node i q f d l r) o) (sym same)
          (ascend_left nd p ts s i f q d l r st sep valid shape j
            (withdraw_recursive nd p ts fuel j s) refl e (ih j refl))

    descend_right :
        (l r : Trie D)
        → Stored s.tree.slab (node i q f d l r)
        → IsSeparate (node i q f d l r)
        → IsTrie (node i q f d l r)
        → Extends q 1 p
        → ((c : ℕ) → root_of r ≡ some c → Ends nd p ts s r (withdraw_recursive nd p ts fuel c s))
        → Ends nd p ts s (node i q f d l r) (withdraw_recursive nd p ts (suc fuel) i s)
    unfolding withdraw_recursive
    descend_right l nil st sep shape e ih =
        let at = get_node-done i s st.0 in
        let bit = bit_at-address_bit p q.len (omega (arith, e.0, hp.short)) in
        inl (
          rw (at, unequal, begins, bit, e.2) refl,
          absent_right nd p ts s i f q d l nil st sep valid shape e (λ h. h),
        )
    descend_right l (node j x g y a b) st sep shape e ih =
        let r : Trie D = node j x g y a b in
        let at = get_node-done i s st.0 in
        let bit = bit_at-address_bit p q.len (omega (arith, e.0, hp.short)) in
        let same : withdraw_recursive nd p ts (suc fuel) i s
            ≡ and_then (withdraw_recursive nd p ts fuel j s) (λ sub. after_withdraw nd p ts i sub) =
          rw (at, unequal, begins, bit, e.2) refl in
        subst (λ o. Ends nd p ts s (node i q f d l r) o) (sym same)
          (ascend_right nd p ts s i f q d l r st sep valid shape j
            (withdraw_recursive nd p ts fuel j s) refl e (ih j refl))

  frame :
      (fuel : ℕ) (s : State D) (i f : ℕ) (q : Prefix) (d : D) (l r : Trie D)
      → Stored s.tree.slab (node i q f d l r)
      → IsSeparate (node i q f d l r)
      → IsSlab s.tree.slab
      → IsTrie (node i q f d l r)
      → count_announced (node i q f d l r) ≤ s.tree.announced_count
      → IsPrefix p
      → ((c : ℕ) → root_of l ≡ some c → Ends nd p ts s l (withdraw_recursive nd p ts fuel c s))
      → ((c : ℕ) → root_of r ≡ some c → Ends nd p ts s r (withdraw_recursive nd p ts fuel c s))
      → Ends nd p ts s (node i q f d l r) (withdraw_recursive nd p ts (suc fuel) i s)
  unfolding withdraw_recursive
  frame fuel s i f q d l r st sep valid shape tally hp down_left down_right =
      let at = get_node-done i s st.0 in
      let cl : IsCommonLen p.bits q.bits (min p.len q.len) (Prefix.common_prefix_len p q) =
        common_prefix_len-lem p q hp shape.0 in
      elim (Bool-cases (prefix_eq q p)) [
        | inl equal ↦
            let same : withdraw_recursive nd p ts (suc fuel) i s
                ≡ withdraw_here nd p ts i (slab_node q f d l r) s =
              rw (at, equal) refl in
            subst (λ o. Ends nd p ts s (node i q f d l r) o) (sym same)
              (withdraw_here-Ends nd p ts s i f q d l r st sep valid shape
                ((prefix_eq_iff q p).0 equal) tally)
        | inr unequal ↦
            let differs : q ≢ p = λ e. let t = (prefix_eq_iff q p).1 e in cc in
            elim (Bool-cases (ltb (Prefix.common_prefix_len p q) q.len)) [
              | inl parts ↦ inl (
                rw (at, unequal, parts) refl,
                absent_outside nd p ts s i f q d l r st sep valid shape differs (ground arith) hp,
              )
              | inr begins ↦
                  let agree : Agree q.len q.bits p.bits = λ j h. sym (cl.agree j (ground arith)) in
                  let shorter =
                    shorter_of-ne q p shape.0 hp (ground (arith, cl.bounded)) agree differs in
                  elim (zero_or_one q) [
                    | inl e ↦
                        descend_left fuel s i f q d valid hp unequal begins l r st sep shape
                          (shorter, agree, e) down_left
                    | inr e ↦
                        descend_right fuel s i f q d valid hp unequal begins l r st sep shape
                          (shorter, agree, e) down_right
                  ]
            ]
      ]
    where
      zero_or_one : (q : Prefix) → (address_bit p.bits q.len ≡ 0) ⊎ (address_bit p.bits q.len ≡ 1)
      zero_or_one q = ground (arith, address_bit-lt p.bits q.len)

  -- With fuel for the depth of the trie the call returns.
  pub withdraw_recursive-Ends :
      (fuel : ℕ) (s : State D) (i : ℕ) (t : Trie D)
      → root_of t ≡ some i
      → IsEnough fuel t
      → Stored s.tree.slab t
      → IsSeparate t
      → IsTrie t
      → IsSlab s.tree.slab
      → count_announced t ≤ s.tree.announced_count
      → IsPrefix p
      → Ends nd p ts s t (withdraw_recursive nd p ts fuel i s)
  unfolding count_announced
  withdraw_recursive-Ends fuel s i nil e enough st sep shape valid tally hp = cc
  withdraw_recursive-Ends zero s i (node i' q f d l r) e enough st sep shape valid tally hp =
      absurd (omega (arith, shape.0.short))
  withdraw_recursive-Ends (suc fuel) s i (node i' q f d l r) e enough st sep shape valid tally hp =
      let same : i' ≡ i = cc in
      subst (λ k. Ends nd p ts s (node i' q f d l r) (withdraw_recursive nd p ts (suc fuel) k s))
        same
        (frame fuel s i' f q d l r st sep valid shape tally hp
          (λ c e.
            withdraw_recursive-Ends fuel s c l e (IsEnough-child fuel 0 q l enough shape.1) st.2
              sep.3 shape.3 valid (omega arith) hp)
          (λ c e.
            withdraw_recursive-Ends fuel s c r e (IsEnough-child fuel 1 q r enough shape.2) st.3
              sep.4 shape.4 valid (omega arith) hp))
