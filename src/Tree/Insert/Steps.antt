-- ===== src/Tree/Insert/Steps.antt =====
-- The parts of `insert_recursive` that its frames share: new nodes and the time of an ancestor.
use slash.Base.{
  ℕ, suc, ◌+◌, ◌^◌, ◌<◌, ◌≡◌, ◌≢◌, refl, Bool, true, false, not, ◌&&◌, some, arith, if◌then◌else◌,
  get_elem?, ◌∙◌, subst,
}
use slash.Base.Outcome.{done}
use slash.Timestamp.{Timestamp, ts_eq}
use slash.Prefix.{Prefix}
use slash.Node.{Node, NodeData, merge_ancestor}
use slash.Slab.{VecSlab}
use slash.Slab.Alloc.{IsSlab, IsLive, IsAlloc, room}
use slash.Slab.Free.{IsWrite, IsWrite-refl}
use slash.Tree.Monad.{State, pure, with_slab}
use slash.Tree.Monad.Laws.{get_node-done, update_node-done, alloc_node-done, count_up-done}
use slash.Tree.Insert.{
  default_node, announced_node, split_node, alloc_announced_node, alloc_split_node, propagate,
}

-- A new node: its index was not live, and nothing else changes.
pub record IsPlaced {D : Type 0} (s s' : VecSlab (Node D)) (idx : ℕ) (v : Node D) : Type 0 where
  pub valid : IsSlab s'
  pub fresh : ¬ (IsLive s idx)
  pub live : IsLive s' idx
  pub value : get_elem? s'.entries idx ≡ some v
  pub others : (j : ℕ) → IsLive s j → IsLive s' j
  pub values : (j : ℕ) → IsLive s j → get_elem? s'.entries j ≡ get_elem? s.entries j
  pub room_left : room s ≡ suc (room s')

-- The state with another slab and one more announced node.
abbrev pub counted : {D : Type 0} → VecSlab (Node D) → State D → State D
counted slab s = record s {
  tree = record (s.tree) { slab = slab; announced_count = s.tree.announced_count + 1 };
}

IsPlaced-write :
    {D : Type 0} (default : Node D) (s s' s'' : VecSlab (Node D)) (i : ℕ) (v : Node D)
    → IsAlloc default s s' i
    → IsWrite s' s'' i v
    → IsPlaced s s'' i v
IsPlaced-write default s s' s'' i v al w = record {
  valid = w.valid;
  fresh = al.fresh;
  live = w.live i al.live;
  value = w.value;
  others = λ j h. w.live j (al.others j (differs j h) h);
  values = λ j h. w.values j (differs j h) ∙ al.values j h;
  room_left = omega (arith, al.room_left, w.room_same);
}
  where
    differs : (j : ℕ) → IsLive s j → j ≢ i
    differs j h e = al.fresh (subst (λ k. IsLive s k) e h)

module _ {D : Type 0} (nd : NodeData D) where
  pub alloc_announced_node-done :
      (p : Prefix) (incoming : D) (ts : Timestamp) (s : State D)
      → IsSlab s.tree.slab
      → 0 < room s.tree.slab
      → s.tree.announced_count + 1 < 2 ^ 32
      → (i : ℕ) × (slab : VecSlab (Node D)) × (alloc_announced_node nd p incoming ts s
          ≡ done (i, counted slab s))
        × IsPlaced s.tree.slab slab i (announced_node nd p incoming ts)
  unfolding alloc_announced_node
  alloc_announced_node-done p incoming ts s valid fits small =
      let al = alloc_node-done (default_node nd) s valid fits in
      let s1 = with_slab al.1 s in
      let w =
        update_node-done al.0 (λ _. announced_node nd p incoming ts) s1 al.3.valid al.3.holds.1 in
      (
        al.0,
        w.0,
        rw (al.2, w.1, count_up-done (with_slab w.0 s1) small) refl,
        IsPlaced-write (default_node nd) s.tree.slab al.1 w.0 al.0 (announced_node nd p incoming ts)
            al.3 w.2,
      )

  pub alloc_split_node-done :
      (p : Prefix) (subtree_ts : Timestamp) (s : State D)
      → IsSlab s.tree.slab
      → 0 < room s.tree.slab
      → (i : ℕ) × (slab : VecSlab (Node D)) × (alloc_split_node nd p subtree_ts s
          ≡ done (i, with_slab slab s))
        × IsPlaced s.tree.slab slab i (split_node nd p subtree_ts)
  unfolding alloc_split_node
  alloc_split_node-done p subtree_ts s valid fits =
      let al = alloc_node-done (default_node nd) s valid fits in
      let s1 = with_slab al.1 s in
      let w = update_node-done al.0 (λ _. split_node nd p subtree_ts) s1 al.3.valid al.3.holds.1 in
      (
        al.0,
        w.0,
        rw (al.2, w.1) refl,
        IsPlaced-write (default_node nd) s.tree.slab al.1 w.0 al.0 (split_node nd p subtree_ts) al.3
            w.2,
      )

  -- Whether merging the time into a payload changes its time.
  abbrev pub changes : D → Timestamp → Bool
  changes d ts = not (ts_eq (nd.timestamp (merge_ancestor nd d ts)) (nd.timestamp d))

  pub propagate-done :
      (i : ℕ) (ts : Timestamp) (s : State D) (n : Node D)
      → IsSlab s.tree.slab
      → get_elem? s.tree.slab.entries i ≡ some n
      → let n' : Node D = record n { payload = merge_ancestor nd n.payload ts } in
        (slab : VecSlab (Node D)) × (propagate nd i ts s
          ≡ done (changes n.payload ts, with_slab slab s))
        × IsWrite s.tree.slab slab i n'
  unfolding propagate
  propagate-done i ts s n valid e =
      let w =
        update_node-done i (λ n. record n { payload = merge_ancestor nd n.payload ts }) s valid e in
      (w.0, rw (get_node-done i s e, w.1, get_node-done i (with_slab w.0 s) w.2.value) refl, w.2)

  -- The same where the frame below may not have advanced.
  pub propagate_if :
      (adv : Bool) (i : ℕ) (ts : Timestamp) (s : State D) (n : Node D)
      → IsSlab s.tree.slab
      → get_elem? s.tree.slab.entries i ≡ some n
      → let n' : Node D = record n {
        payload = if adv then merge_ancestor nd n.payload ts else n.payload;
      } in
        (slab : VecSlab (Node D)) × ((if adv then propagate nd i ts else pure false) s
          ≡ done (adv && changes n.payload ts, with_slab slab s))
        × IsWrite s.tree.slab slab i n'
  propagate_if true i ts s n valid e = propagate-done i ts s n valid e
  propagate_if false i ts s n valid e = (s.tree.slab, refl, IsWrite-refl s.tree.slab i n valid e)
