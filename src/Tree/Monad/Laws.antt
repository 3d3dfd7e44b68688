-- ===== src/Tree/Monad/Laws.antt =====
-- What each step of the mutations does where it succeeds.
use slash.Base.{
  ℕ, ◌+◌, ◌^◌, ◌<◌, ◌≡◌, inl, inr, refl, some, List, arith, get_elem?, length, ap, lt→ltb,
}
use slash.Base.Outcome.{done}
use slash.Node.{Node}
use slash.Slab
use slash.Slab.{VecSlab}
use slash.Slab.Alloc.{IsSlab, IsAlloc, alloc-IsAlloc, room}
use slash.Slab.Free.{IsWrite, write-IsWrite}
use slash.Tree.Monad.{State, with_slab, get_node, update_node, alloc_node, count_up}

module _ {D : Type 0} where
  pub get_node-done :
      (i : ℕ) (s : State D) {n : Node D}
      → get_elem? s.tree.slab.entries i ≡ some n
      → get_node i s ≡ done (n, s)
  unfolding get_node Slab.get
  get_node-done i s e = rw e refl

  pub update_node-done :
      (i : ℕ) (f : Node D → Node D) (s : State D) {n : Node D}
      → IsSlab s.tree.slab
      → get_elem? s.tree.slab.entries i ≡ some n
      → (slab : VecSlab (Node D)) × (update_node i f s ≡ done (tt, with_slab slab s))
        × IsWrite s.tree.slab slab i (f n)
  unfolding update_node
  update_node-done i f s {n} valid e =
      let w = write-IsWrite s.tree.slab i n (f n) valid e in
      (w.0, rw (get_node-done i s e, w.1) refl, w.2)

  pub alloc_node-done :
      (default : Node D) (s : State D)
      → IsSlab s.tree.slab
      → 0 < room s.tree.slab
      → (i : ℕ) × (slab : VecSlab (Node D)) × (alloc_node default s ≡ done (i, with_slab slab s))
        × IsAlloc default s.tree.slab slab i
  unfolding alloc_node
  alloc_node-done default s valid fits = elim (alloc-IsAlloc default s.tree.slab valid) [
    | inl (i, slab, e, al) ↦ (i, slab, rw e refl, al)
    | inr (e, none_freed, full) ↦ absurd (omega (arith, ap (λ (l : List ℕ). length l) none_freed))
  ]

  pub count_up-done :
      (s : State D)
      → s.tree.announced_count + 1 < 2 ^ 32
      → count_up s
        ≡ done (
          tt,
          record s { tree = record (s.tree) { announced_count = s.tree.announced_count + 1 } },
        )
  unfolding count_up
  count_up-done s h = rw (lt→ltb (s.tree.announced_count + 1) (2 ^ 32) h) refl
