-- ===== src/Tree/Sweep/Keeps.antt =====
-- What a sweep leaves: every node's prefix, flags and payload, and the tally; and what it frees.
use slash.Base.{
  ℕ, zero, suc, ◌+◌, ◌^◌, ◌≡◌, ◌⊎◌, ◌↔◌, inl, inr, refl, Bool, true, false, Option, none, some, [],
  ◌∷◌, ◌++◌, ◌==◌, ltb, get_elem?, set, contains, sym, ◌∙◌, subst, if◌then◌else◌, Bool-cases,
  or-cases, ==→eq, get_elem?-set_self, get_elem?-set_ne, lt-length_of_get,
}
use native.Mathlib.Decide.{ℕ_discrete}
use slash.Base.Outcome.{Outcome, done}
use slash.Node.{Node, is_announced, set_child}
use slash.Slab.{free}
use slash.Tree.{walk_fuel}
use slash.Tree.Monad.{
  State, M, pure, ◌>>◌, with_slab, get_node, update_node, free_node, mark_dirty, set_root,
  count_sweep,
}
use slash.Tree.Dirty.{entries_of, and_then-done, get_node-inv, written, update_node-inv}
use slash.Tree.Sweep.{set_parent_slot, collapse, sweep_recursive, sweep_tombstones}

module _ {D : Type 0} where
  -- The same entry but for its children.
  abbrev pub IsSameNode : Option (Node D) → Option (Node D) → Type 0
  IsSameNode none none = Unit
  IsSameNode (some n) (some n') =
      (n'.prefix ≡ n.prefix) × (n'.flags ≡ n.flags) × (n'.payload ≡ n.payload)
  IsSameNode none (some n') = ⊥
  IsSameNode (some n) none = ⊥

  IsSameNode-refl : (o : Option (Node D)) → IsSameNode o o
  IsSameNode-refl none = tt
  IsSameNode-refl (some n) = (refl, refl, refl)

  IsSameNode-trans : (a b c : Option (Node D)) → IsSameNode a b → IsSameNode b c → IsSameNode a c
  IsSameNode-trans none none none h k = tt
  IsSameNode-trans none none (some l) h k = absurd k
  IsSameNode-trans none (some m) c h k = absurd h
  IsSameNode-trans (some n) none c h k = absurd h
  IsSameNode-trans (some n) (some m) none h k = absurd k
  IsSameNode-trans (some n) (some m) (some l) h k = (k.0 ∙ h.0, k.1 ∙ h.1, k.2 ∙ h.2)

  abbrev pub IsStructural : Option (Node D) → Type 0
  IsStructural none = ⊥
  IsStructural (some n) = is_announced n ≡ false

  -- It is the same before and after.
  IsStructural-iff : (a b : Option (Node D)) → IsSameNode a b → IsStructural a ↔ IsStructural b
  unfolding is_announced
  IsStructural-iff none none h = (λ k. k, λ k. k)
  IsStructural-iff none (some m) h = absurd h
  IsStructural-iff (some n) none h = absurd h
  IsStructural-iff (some n) (some m) h = (λ k. rw h.1 k, λ k. rw (sym h.1) k)

  pub record IsSwept (s s' : State D) : Type 0 where
    pub nodes : (j : ℕ) → IsSameNode (get_elem? (entries_of s) j) (get_elem? (entries_of s') j)
    pub freed :
        (j : ℕ)
        → contains s'.tree.slab.free_list j ≡ true
        → (contains s.tree.slab.free_list j ≡ true) ⊎ IsStructural (get_elem? (entries_of s) j)
    pub tally : s'.tree.announced_count ≡ s.tree.announced_count

  IsSwept-trans : {s s' s'' : State D} → IsSwept s s' → IsSwept s' s'' → IsSwept s s''
  IsSwept-trans {s} {s'} {s''} h k = record {
    nodes = λ j. IsSameNode-trans _ _ _ (h.nodes j) (k.nodes j);
    freed = λ j f. elim (k.freed j f) [
      | inl old ↦ h.freed j old
      | inr free_now ↦ inr ((IsStructural-iff _ _ (h.nodes j)).1 free_now)
    ];
    tally = k.tally ∙ h.tally;
  }

  -- A step that leaves the slab and the tally alone.
  IsSwept-same :
      {s s' : State D}
      → s'.tree.slab ≡ s.tree.slab
      → s'.tree.announced_count ≡ s.tree.announced_count
      → IsSwept s s'
  IsSwept-same {s} {s'} same count = record {
    nodes = λ j. rw same (IsSameNode-refl (get_elem? (entries_of s) j));
    freed = λ j f. inl (rw same at f);
    tally = count;
  }

  IsSwept-written :
      (i bit : ℕ) (v : Option ℕ) (n : Node D) (s : State D)
      → get_elem? (entries_of s) i ≡ some n
      → IsSwept s (written i (set_child n bit v) s)
  IsSwept-written i bit v n s e = record {
    nodes = λ j. elim (ℕ_discrete j i) [
      | yes same ↦
          let put =
            get_elem?-set_self (entries_of s) i (set_child n bit v)
              (lt-length_of_get (entries_of s) i n e) in
          subst
            (λ k.
              IsSameNode (get_elem? (entries_of s) k)
                (get_elem? (set (entries_of s) i (set_child n bit v)) k))
            (sym same) (rw (e, put) (child_only (bit == 0)))
      | no ne ↦
          let kept = get_elem?-set_ne (entries_of s) i j (set_child n bit v) (λ p. ne (sym p)) in
          rw kept (IsSameNode-refl (get_elem? (entries_of s) j))
    ];
    freed = λ j f. inl f;
    tally = refl;
  }
    where
      child_only :
          (b : Bool)
          → IsSameNode
              (some n)
              (some (if b then record n { child0 = v } else record n { child1 = v }))
      child_only true = (refl, refl, refl)
      child_only false = (refl, refl, refl)

  IsSwept-set_parent_slot :
      (slot : Option (ℕ × ℕ)) (v : Option ℕ) (s s' : State D)
      → set_parent_slot slot v s ≡ done (tt, s')
      → IsSwept s s'
  unfolding set_parent_slot set_root mark_dirty
  IsSwept-set_parent_slot none v s s' e =
      let same : record s { tree = record (s.tree) { root = v } } ≡ s' = cc in
      subst (IsSwept s) same (IsSwept-same refl refl)
  IsSwept-set_parent_slot (some (parent, bit)) v s s' e =
      let (u, s1, e1, e2) =
        and_then-done (update_node parent (λ n. set_child n bit v) s) (λ _. mark_dirty parent) tt s'
          e in
      let (n, here, same1) = update_node-inv parent (λ n. set_child n bit v) s u s1 e1 in
      let same : record s1 { dirty = s1.dirty ++ parent ∷ [] } ≡ s' = cc in
      IsSwept-trans (subst (IsSwept s) same1 (IsSwept-written parent bit v n s here))
        (subst (IsSwept s1) same (IsSwept-same refl refl))

  IsSwept-free_node :
      (i : ℕ) (s s' : State D)
      → IsStructural (get_elem? (entries_of s) i)
      → free_node i s ≡ done (tt, s')
      → IsSwept s s'
  unfolding free_node free
  IsSwept-free_node i s s' structural e = elim (Bool-cases (contains s.tree.slab.free_list i)) [
    | inl twice ↦ let e' = rw twice at e in cc
    | inr once ↦
        let e' = rw once at e in
        let same : with_slab (record (s.tree.slab) { free_list = i ∷ s.tree.slab.free_list }) s
            ≡ s' =
          cc in
        subst (IsSwept s) same (record {
          nodes = λ j. IsSameNode-refl (get_elem? (entries_of s) j);
          freed = λ j f. elim (or-cases (i == j) (contains s.tree.slab.free_list j) f) [
            | inl e ↦
                inr
                  (subst (λ k. IsStructural (get_elem? (entries_of s) k)) (==→eq i j e) structural)
            | inr old ↦ inl old
          ];
          tally = refl;
        })
  ]

  -- A node that is not announced is unlinked and freed.
  IsSwept-unlink :
      (i : ℕ) (slot : Option (ℕ × ℕ)) (v : Option ℕ) (s s' : State D)
      → IsStructural (get_elem? (entries_of s) i)
      → (set_parent_slot slot v >> free_node i) s ≡ done (tt, s')
      → IsSwept s s'
  IsSwept-unlink i slot v s s' structural e =
      let (u, s1, e1, e2) = and_then-done (set_parent_slot slot v s) (λ _. free_node i) tt s' e in
      let first = IsSwept-set_parent_slot slot v s s1 e1 in
      IsSwept-trans first
        (IsSwept-free_node i s1 s' ((IsStructural-iff _ _ (first.nodes i)).0 structural) e2)

  IsSwept-collapse :
      (i : ℕ) (slot : Option (ℕ × ℕ)) (c0 c1 : Option ℕ) (s s' : State D)
      → IsStructural (get_elem? (entries_of s) i)
      → collapse i slot c0 c1 s ≡ done (tt, s')
      → IsSwept s s'
  unfolding collapse
  IsSwept-collapse i slot (some c) (some d) s s' structural e =
      let same : s ≡ s' = cc in subst (IsSwept s) same (IsSwept-same refl refl)
  IsSwept-collapse i slot none none s s' structural e = IsSwept-unlink i slot none s s' structural e
  IsSwept-collapse i slot (some c) none s s' structural e =
      IsSwept-unlink i slot (some c) s s' structural e
  IsSwept-collapse i slot none (some c) s s' structural e =
      IsSwept-unlink i slot (some c) s s' structural e

  IsSwept-each :
      (o : Option ℕ) (f : ℕ → M D (Unit {0})) (s s' : State D)
      → ((c : ℕ) (s s' : State D) → f c s ≡ done (tt, s') → IsSwept s s')
      → ◌≡◌ {A = Outcome (Unit {0} × State D)}
          (elim o as (λ o. M D (Unit {0})) [ some c ↦ f c | none ↦ pure tt ] s)
          (done (tt, s'))
      → IsSwept s s'
  IsSwept-each none f s s' h e =
      let same : s ≡ s' = cc in subst (IsSwept s) same (IsSwept-same refl refl)
  IsSwept-each (some c) f s s' h e = h c s s' e

  IsSwept-sweep_recursive :
      (fuel i : ℕ) (slot : Option (ℕ × ℕ)) (s s' : State D)
      → sweep_recursive fuel i slot s ≡ done (tt, s')
      → IsSwept s s'
  unfolding sweep_recursive
  IsSwept-sweep_recursive zero i slot s s' e = cc
  IsSwept-sweep_recursive (suc fuel) i slot s s' e =
      let (before, s0, e0, e1) = and_then-done (get_node i s) _ tt s' e in
      let (u1, s1, e2, e3) = and_then-done _ _ tt s' e1 in
      let (u2, s2, e4, e5) = and_then-done _ _ tt s' e3 in
      let (n, s3, e6, e7) = and_then-done (get_node i s2) _ tt s' e5 in
      let start = (get_node-inv i s before s0 e0).1 in
      let (here, same) = get_node-inv i s2 n s3 e6 in
      let first =
        IsSwept-each before.child0 _ s0 s1 (λ c. IsSwept-sweep_recursive fuel c (some (i, 0))) e2 in
      let second =
        IsSwept-each before.child1 _ s1 s2 (λ c. IsSwept-sweep_recursive fuel c (some (i, 1))) e4 in
      IsSwept-trans (subst (λ t. IsSwept t s2) (sym start) (IsSwept-trans first second)) (
        last n s2 here (
          subst
            (λ t.
              (if is_announced n then pure tt else collapse i slot n.child0 n.child1) t
              ≡ done (tt, s'))
            (sym same) e7))
    where
      last :
          (n : Node D) (s2 : State D)
          → get_elem? (entries_of s2) i ≡ some n
          → (if is_announced n then pure tt else collapse i slot n.child0 n.child1) s2
            ≡ done (tt, s')
          → IsSwept s2 s'
      last n s2 here e = elim (Bool-cases (is_announced n)) [
        | inl on ↦
            let e' = rw on at e in
            let same : s2 ≡ s' = cc in subst (IsSwept s2) same (IsSwept-same refl refl)
        | inr off ↦ IsSwept-collapse i slot n.child0 n.child1 s2 s' (rw here off) (rw off at e)
      ]

  -- A sweep that returns leaves the prefix, the flags and the payload of every entry of the slab as
  -- they were, makes no entry and drops none, leaves the tally of announced nodes as it was, and
  -- frees no index but those that were free and those of nodes that are not announced.
  pub sweep_tombstones-IsSwept :
      (s s' : State D) → sweep_tombstones s ≡ done (tt, s') → IsSwept s s'
  unfolding sweep_tombstones count_sweep
  sweep_tombstones-IsSwept s s' e = elim (Bool-cases (ltb (s.tree.sweep_count + 1) (2 ^ 32))) [
    | inr full ↦ let e' = rw full at e in cc
    | inl fits ↦
        let counted : State D = record s {
          tree = record (s.tree) { sweep_count = s.tree.sweep_count + 1 };
        } in
        IsSwept-trans {s' = counted} (IsSwept-same refl refl)
          (below s.tree.root counted (rw fits at e))
  ]
    where
      below :
          (root : Option ℕ) (t : State D)
          → ◌≡◌ {A = Outcome (Unit {0} × State D)}
              (elim root [ none ↦ pure tt t | some r ↦ sweep_recursive walk_fuel r none t ])
              (done (tt, s'))
          → IsSwept t s'
      below none t e = let same : t ≡ s' = cc in subst (IsSwept t) same (IsSwept-same refl refl)
      below (some r) t e = IsSwept-sweep_recursive walk_fuel r none t s' e
