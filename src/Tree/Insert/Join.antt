-- ===== src/Tree/Insert/Join.antt =====
-- What a frame of `insert_recursive` leaves: the trie below it after the insertion, stored in the
-- new slab, with the other nodes as they were; and how a frame joins the result of the one below.
use slash.Base.{
  ℕ, ◌+◌, ◌≡◌, ◌≢◌, inl, inr, refl, true, false, some, arith, get_elem?, sym, ◌∙◌, subst,
  not_true→false, ◌||◌, ◌==◌, eq→==,
}
use slash.Prefix.{Prefix}
use slash.Timestamp.{Timestamp}
use slash.Node.{Node, NodeData, set_child}
use slash.Slab.{VecSlab}
use slash.Slab.Alloc.{IsSlab, IsLive, room}
use slash.Slab.Free.{IsWrite}
use slash.Tree.Trie.{
  Trie, node, root_of, slab_node, has, Apart, IsSeparate, Stored, Stored-frame, size,
}
use slash.Tree.Trie.Insert.{Inserts, left, right, Extends, bumped, advances, gain}
use slash.Tree.Trie.Insert.Separate.{Inserts-has}
use slash.Tree.Monad.{State}
use slash.Tree.Insert.{InsertOutcome}
use slash.Tree.Insert.Steps.{IsPlaced}

module _ {D : Type 0} where
  -- A trie stays stored under a write elsewhere, and beside a new node.
  pub Stored-write :
      (s s' : VecSlab (Node D)) (i : ℕ) (v : Node D) (t : Trie D)
      → IsWrite s s' i v
      → has t i ≡ false
      → Stored s t
      → Stored s' t
  Stored-write s s' i v t w away st =
      Stored-frame s s' t st (λ j h live. (w.values j (λ e. differs j h e), w.live j live))
    where
      differs : (j : ℕ) → has t j ≡ true → j ≢ i
      differs j h e = let h' : has t i ≡ true = subst (λ k. has t k ≡ true) e h in cc

  pub Stored-placed :
      (s s' : VecSlab (Node D)) (i : ℕ) (v : Node D) (t : Trie D)
      → IsPlaced s s' i v
      → Stored s t
      → Stored s' t
  Stored-placed s s' i v t w st =
      Stored-frame s s' t st (λ j h live. (w.values j live, w.others j live))

  pub Apart-sym : (l r : Trie D) (j : ℕ) → Apart l r → has r j ≡ true → has l j ≡ false
  Apart-sym l r j apart h =
      not_true→false (has l j) (λ k. let e : has r j ≡ false = apart j k in cc)

  pub outside :
      (i j : ℕ) (l r : Trie D)
      → ((i == j) || (has l j || has r j)) ≡ false
      → (j ≢ i) × (has l j ≡ false) × (has r j ≡ false)
  outside i j l r h = ((λ e. differs e), ground arith, ground arith)
    where
      differs : j ≢ i
      differs e = let k = eq→== i j (sym e) in ground arith

module _ {D : Type 0} (nd : NodeData D) (p : Prefix) (incoming : D) (ts : Timestamp) where
  abbrev pub Dead : State D → ℕ → Type 0
  Dead s j = ¬ (IsLive s.tree.slab j)

  pub record Inserted (s : State D) (t : Trie D) (out : InsertOutcome) (s' : State D) : Type 0 where
    pub after : Trie D
    pub ins : Inserts nd p incoming ts (Dead s) t after out.ts_advanced out.target
    pub stored : Stored s'.tree.slab after
    pub root : root_of after ≡ some out.new_subroot
    pub valid : IsSlab s'.tree.slab
    pub live : (j : ℕ) → IsLive s.tree.slab j → IsLive s'.tree.slab j
    pub values :
        (j : ℕ)
        → IsLive s.tree.slab j
        → has t j ≡ false
        → get_elem? s'.tree.slab.entries j ≡ get_elem? s.tree.slab.entries j
    pub tally :
        s'.tree.announced_count ≡ gain nd p incoming ts (Dead s) ins + s.tree.announced_count
    pub space : room s.tree.slab + size t ≡ room s'.tree.slab + size after
    pub sweeps : s'.tree.sweep_count ≡ s.tree.sweep_count

  -- The node `i` after the frame below it returned `sub`.
  abbrev pub joined : Node D → ℕ → InsertOutcome → Node D
  joined n bit sub =
      let n' = set_child n bit (some sub.new_subroot) in
      record n' { payload = bumped nd p incoming ts (λ j. ⊥) sub.ts_advanced n'.payload }

  module _ (s s1 s' : State D) (sub : InsertOutcome) (i f : ℕ) (q : Prefix) (d : D) (l r : Trie D)
      (st : Stored s.tree.slab (node i q f d l r)) (separate : IsSeparate (node i q f d l r))
      (same_counts : (s'.tree.announced_count ≡ s1.tree.announced_count)
        × (s'.tree.sweep_count ≡ s1.tree.sweep_count)) where
    -- The outcome of the frame.
    abbrev pub rise : InsertOutcome
    rise = record {
      new_subroot = i;
      target = sub.target;
      ts_advanced = advances nd p incoming ts (λ j. ⊥) sub.ts_advanced d;
    }

    untouched :
        (t t' o : Trie D)
        → Inserts nd p incoming ts (Dead s) t t' sub.ts_advanced sub.target
        → has t i ≡ false
        → has t' i ≡ false
    untouched t t' o ins away = not_true→false (has t' i) (λ h.
        elim (Inserts-has nd p incoming ts (Dead s) i ins h) [
          | inl k ↦ cc
          | inr dead ↦ absurd (dead st.1)
        ])

    pub join_left :
        (below : Inserted s l sub s1)
        → IsWrite s1.tree.slab s'.tree.slab i (joined (slab_node q f d l r) 0 sub)
        → Extends q 0 p
        → Inserted s (node i q f d l r) rise s'
    unfolding gain size
    join_left below w e =
        let away = untouched l below.after r below.ins separate.0 in
        record {
          after = node i q f (bumped nd p incoming ts (λ j. ⊥) sub.ts_advanced d) below.after r;
          ins = left e below.ins;
          stored = (
            rw below.root w.value,
            w.live i (below.live i st.1),
            Stored-write s1.tree.slab s'.tree.slab i (joined (slab_node q f d l r) 0 sub)
                below.after w away below.stored,
            Stored-write s1.tree.slab s'.tree.slab i (joined (slab_node q f d l r) 0 sub) r w
                separate.1
                (Stored-frame s.tree.slab s1.tree.slab r st.3 (λ j h live.
                  (below.values j live (Apart-sym l r j separate.2 h), below.live j live))),
          );
          root = refl;
          valid = w.valid;
          live = λ j h. w.live j (below.live j h);
          values = λ j h away.
              let (differs, aside, _) = outside i j l r away in
              w.values j differs ∙ below.values j h aside;
          tally = same_counts.0 ∙ below.tally;
          space = omega (arith, below.space, w.room_same);
          sweeps = same_counts.1 ∙ below.sweeps;
        }

    pub join_right :
        (below : Inserted s r sub s1)
        → IsWrite s1.tree.slab s'.tree.slab i (joined (slab_node q f d l r) 1 sub)
        → Extends q 1 p
        → Inserted s (node i q f d l r) rise s'
    unfolding gain size
    join_right below w e =
        let away = untouched r below.after l below.ins separate.1 in
        record {
          after = node i q f (bumped nd p incoming ts (λ j. ⊥) sub.ts_advanced d) l below.after;
          ins = right e below.ins;
          stored = (
            rw below.root w.value,
            w.live i (below.live i st.1),
            Stored-write s1.tree.slab s'.tree.slab i (joined (slab_node q f d l r) 1 sub) l w
                separate.0
                (Stored-frame s.tree.slab s1.tree.slab l st.2
                  (λ j h live. (below.values j live (separate.2 j h), below.live j live))),
            Stored-write s1.tree.slab s'.tree.slab i (joined (slab_node q f d l r) 1 sub)
                below.after w away below.stored,
          );
          root = refl;
          valid = w.valid;
          live = λ j h. w.live j (below.live j h);
          values = λ j h away.
              let (differs, _, aside) = outside i j l r away in
              w.values j differs ∙ below.values j h aside;
          tally = same_counts.0 ∙ below.tally;
          space = omega (arith, below.space, w.room_same);
          sweeps = same_counts.1 ∙ below.sweeps;
        }
