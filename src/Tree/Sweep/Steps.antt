-- ===== src/Tree/Sweep/Steps.antt =====
-- What the steps of `collapse` do where they succeed: the slot above a node is set, and the node is
-- freed.
use slash.Base.{
  ℕ, ◌+◌, ◌≡◌, ◌⊎◌, inl, inr, refl, true, false, Option, none, some, ◌==◌, ◌∷◌, ◌++◌, [], arith,
  get_elem?, sym, ◌∙◌, subst, Bool-cases, not_true→false,
}
use slash.Base.Outcome.{done}
use slash.Node.{Node, set_child}
use slash.Slab.Alloc.{IsSlab, IsLive, room}
use slash.Slab.Free.{free-IsFree}
use slash.Tree.Trie.{Trie, root_of, has, Stored, Stored-frame, size}
use slash.Tree.Monad.{State, ◌>>◌, free_node, with_slab, mark_dirty, set_root}
use slash.Tree.Monad.Laws.{update_node-done}
use slash.Tree.Sweep.{set_parent_slot}

-- The node that the slot is in.
abbrev pub IsParent : Option (ℕ × ℕ) → ℕ → Type 0
IsParent none j = ⊥
IsParent (some (parent, bit)) j = parent ≡ j

module _ {D : Type 0} where
  -- The slot above a subtree, in the root or in the parent `n`, holds `v`.
  abbrev pub Linked : Option (ℕ × ℕ) → Node D → State D → Option ℕ → Type 0
  Linked none n s v = s.tree.root ≡ v
  Linked (some (parent, bit)) n s v =
      get_elem? s.tree.slab.entries parent ≡ some (set_child n bit v)

  -- What the pass over the subtree `t` leaves, which becomes `t'`.
  pub record Sweeps (slot : Option (ℕ × ℕ)) (n : Node D) (s : State D) (t t' : Trie D)
      (s' : State D) : Type 0 where
    pub stored : Stored s'.tree.slab t'
    pub valid : IsSlab s'.tree.slab
    pub live : (j : ℕ) → IsLive s.tree.slab j → has t j ≡ false → IsLive s'.tree.slab j
    pub no_more :
        (j : ℕ)
        → IsLive s'.tree.slab j
        → IsLive s.tree.slab j × ((has t j ≡ false) ⊎ (has t' j ≡ true))
    pub values :
        (j : ℕ)
        → has t j ≡ false
        → ¬ (IsParent slot j)
        → get_elem? s'.tree.slab.entries j ≡ get_elem? s.tree.slab.entries j
    pub linked : Linked slot n s' (root_of t')
    pub root_same : (slot ≡ none) ⊎ (s'.tree.root ≡ s.tree.root)
    pub tally : s'.tree.announced_count ≡ s.tree.announced_count
    pub space : room s.tree.slab + size t ≡ room s'.tree.slab + size t'
    pub sweeps : s'.tree.sweep_count ≡ s.tree.sweep_count

  -- A pass that does nothing.
  pub Sweeps-refl :
      (slot : Option (ℕ × ℕ)) (n : Node D) (s : State D) (t : Trie D)
      → Stored s.tree.slab t
      → IsSlab s.tree.slab
      → Linked slot n s (root_of t)
      → Sweeps slot n s t t s
  Sweeps-refl slot n s t st valid at = record {
    stored = st;
    valid = valid;
    live = λ j h away. h;
    no_more = λ j h. (h, elim (Bool-cases (has t j)) [ inl e ↦ inr e | inr e ↦ inl e ]);
    values = λ j away other. refl;
    linked = at;
    root_same = inr refl;
    tally = refl;
    space = refl;
    sweeps = refl;
  }

  pub Sweeps-trans :
      (slot : Option (ℕ × ℕ)) (n : Node D) (s : State D) (t : Trie D) (s1 : State D) (t1 : Trie D)
      (s' : State D) (t' : Trie D)
      → ((j : ℕ) → has t1 j ≡ true → has t j ≡ true)
      → Sweeps slot n s t t1 s1
      → Sweeps slot n s1 t1 t' s'
      → Sweeps slot n s t t' s'
  Sweeps-trans slot n s t s1 t1 s' t' less a b = record {
    stored = b.stored;
    valid = b.valid;
    live = λ j h away. b.live j (a.live j h away) (smaller j away);
    no_more = λ j h.
        let k = b.no_more j h in
        let k' = a.no_more j k.0 in
        (
          k'.0,
          elim k.1 [
            | inr in_t' ↦ inr in_t'
            | inl out_t1 ↦ elim k'.1 [ inl out_t ↦ inl out_t | inr in_t1 ↦ absurd (cc) ]
          ],
        );
    values = λ j away other. b.values j (smaller j away) other ∙ a.values j away other;
    linked = b.linked;
    root_same = elim b.root_same [
      | inl e ↦ inl e
      | inr e ↦ elim a.root_same [ inl e' ↦ inl e' | inr e' ↦ inr (e ∙ e') ]
    ];
    tally = b.tally ∙ a.tally;
    space = omega (arith, a.space, b.space);
    sweeps = b.sweeps ∙ a.sweeps;
  }
    where
      smaller : (j : ℕ) → has t j ≡ false → has t1 j ≡ false
      smaller j away = not_true→false (has t1 j) (λ h. let k = less j h in cc)

  -- What `set_parent_slot` leaves.
  record Relinked (slot : Option (ℕ × ℕ)) (n : Node D) (s : State D) (v : Option ℕ) (s' : State D)
      : Type 0 where
    valid : IsSlab s'.tree.slab
    live : (j : ℕ) → IsLive s.tree.slab j → IsLive s'.tree.slab j
    no_more : (j : ℕ) → IsLive s'.tree.slab j → IsLive s.tree.slab j
    values :
        (j : ℕ)
        → ¬ (IsParent slot j)
        → get_elem? s'.tree.slab.entries j ≡ get_elem? s.tree.slab.entries j
    linked : Linked slot n s' v
    root_same : (slot ≡ none) ⊎ (s'.tree.root ≡ s.tree.root)
    tally : s'.tree.announced_count ≡ s.tree.announced_count
    room_same : room s'.tree.slab ≡ room s.tree.slab
    sweeps : s'.tree.sweep_count ≡ s.tree.sweep_count

  set_child-set_child :
      (n : Node D) (bit : ℕ) (u v : Option ℕ)
      → set_child (set_child n bit u) bit v ≡ set_child n bit v
  set_child-set_child n bit u v = elim (Bool-cases (bit == 0)) [
    | inl e ↦ rw e refl
    | inr e ↦ rw e refl
  ]

  set_parent_slot-done :
      (slot : Option (ℕ × ℕ)) (n : Node D) (s : State D) (u v : Option ℕ)
      → IsSlab s.tree.slab
      → Linked slot n s u
      → (s' : State D) × (set_parent_slot slot v s ≡ done (tt, s')) × Relinked slot n s v s'
  unfolding set_parent_slot set_root mark_dirty
  set_parent_slot-done none n s u v valid at = (
    record s { tree = record (s.tree) { root = v } },
    refl,
    record {
      valid = valid;
      live = λ j h. h;
      no_more = λ j h. h;
      values = λ j other. refl;
      linked = refl;
      root_same = inl refl;
      tally = refl;
      room_same = refl;
      sweeps = refl;
    },
  )
  set_parent_slot-done (some (parent, bit)) n s u v valid at =
      let (slab, runs, w) = update_node-done parent (λ n. set_child n bit v) s valid at in
      let s1 : State D = with_slab slab s in
      (
        record s1 { dirty = s1.dirty ++ parent ∷ [] },
        rw runs refl,
        record {
          valid = w.valid;
          live = w.live;
          no_more = w.no_more;
          values = λ j other. w.values j (λ e. other (sym e));
          linked = rw (set_child-set_child n bit u v) at w.value;
          root_same = inr refl;
          tally = refl;
          room_same = w.room_same;
          sweeps = refl;
        },
      )

  pub Linked-frame :
      (slot : Option (ℕ × ℕ)) (n : Node D) (s s' : State D) (v : Option ℕ)
      → s'.tree.root ≡ s.tree.root
      → ((j : ℕ)
          → IsParent slot j
          → get_elem? s'.tree.slab.entries j ≡ get_elem? s.tree.slab.entries j)
      → Linked slot n s v
      → Linked slot n s' v
  Linked-frame none n s s' v same_root same at = same_root ∙ at
  Linked-frame (some (parent, bit)) n s s' v same_root same at = same parent refl ∙ at

  -- The node `i` is unlinked, `t'` takes its place, and it is freed.
  pub unlink-Sweeps :
      (slot : Option (ℕ × ℕ)) (n : Node D) (s : State D) (i : ℕ) (t t' : Trie D) (e : Node D)
      → has t i ≡ true
      → size t ≡ 1 + size t'
      → IsSlab s.tree.slab
      → IsLive s.tree.slab i
      → Stored s.tree.slab t'
      → has t' i ≡ false
      → ((j : ℕ) → has t' j ≡ true → has t j ≡ true)
      → ((j : ℕ) → has t j ≡ true → (i ≡ j) ⊎ (has t' j ≡ true))
      → ((j : ℕ) → IsParent slot j → has t j ≡ false)
      → Linked slot n s (some i)
      → (s' : State D) × ((set_parent_slot slot (root_of t') >> free_node i) s ≡ done (tt, s'))
        × Sweeps slot n s t t' s'
  unfolding free_node
  unlink-Sweeps slot n s i t t' e here bigger valid live st gone less split_t above at =
      let (s1, runs, re) = set_parent_slot-done slot n s (some i) (root_of t') valid at in
      let (slab, freed, fr, _) = free-IsFree e s1.tree.slab i re.valid (re.live i live) in
      (
        with_slab slab s1,
        rw (runs, freed) refl,
        record {
          stored = Stored-frame s.tree.slab slab t' st (λ j h alive. (
            fr.values j ∙ re.values j (λ p. let k = above j p in let k' = less j h in cc),
            fr.others j (λ p. let h' : has t' i ≡ true = subst (λ k. has t' k ≡ true) p h in cc)
                (re.live j alive),
          ));
          valid = fr.valid;
          live = λ j h away.
              fr.others j
                (λ p. let out : has t i ≡ false = subst (λ k. has t k ≡ false) p away in cc)
                (re.live j h);
          no_more = λ j h. (
            re.no_more j (fr.no_others j h),
            elim (Bool-cases (has t j)) [
              | inr away ↦ inl away
              | inl in_t ↦ inr (elim (split_t j in_t) [
                | inl p ↦ absurd (fr.dead (subst (IsLive slab) (sym p) h))
                | inr k ↦ k
              ])
            ],
          );
          values = λ j away other. fr.values j ∙ re.values j other;
          linked =
              Linked-frame slot n s1 (with_slab slab s1) (root_of t') refl (λ j e. fr.values j)
                re.linked;
          root_same = re.root_same;
          tally = re.tally;
          space = omega (arith, fr.room_more, re.room_same, bigger);
          sweeps = re.sweeps;
        },
      )
