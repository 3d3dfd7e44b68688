-- ===== src/Tree/Sweep/Run.antt =====
-- `sweep_recursive` turns the stored trie into the swept one, and gives back the nodes it drops.
use slash.Base.{
  ℕ, zero, suc, ◌≡◌, inl, inr, refl, true, false, Option, none, some, arith, get_elem?, sym, ◌∙◌,
  subst, Bool-cases, not_true→false, if◌then◌else◌,
}
use slash.Base.Outcome.{Outcome, done}
use slash.Prefix.{Prefix}
use slash.Node.{Node, is_announced}
use slash.Slab.Alloc.{IsSlab}
use slash.Tree.Trie.{
  Trie, nil, node, root_of, slab_node, has, IsSeparate, Stored, Stored-frame, size, IsTrie,
  IsEnough, IsEnough-child, flagged, has-cases, has_left, has_right, has_self,
}
use slash.Tree.Trie.Sweep.{
  swept, splice, swept_announced, swept_structural, has-swept, not-has-swept, swept-IsSeparate,
}
use slash.Tree.Monad.{State, M, pure}
use slash.Tree.Monad.Laws.{get_node-done}
use slash.Tree.Insert.Join.{Apart-sym, outside}
use slash.Tree.Sweep.{collapse, sweep_recursive}
use slash.Tree.Sweep.Steps.{
  IsParent, Linked, Linked-frame, Sweeps, Sweeps-refl, Sweeps-trans, unlink-Sweeps,
}

module _ {D : Type 0} where
  -- A stored trie below a slot that holds its root, beside the node of the slot.
  pub record Hangs (slot : Option (ℕ × ℕ)) (n : Node D) (s : State D) (t : Trie D) : Type 0 where
    pub stored : Stored s.tree.slab t
    pub valid : IsSlab s.tree.slab
    pub separate : IsSeparate t
    pub linked : Linked slot n s (root_of t)
    pub apart : (j : ℕ) → IsParent slot j → has t j ≡ false

  module _ (slot : Option (ℕ × ℕ)) (n : Node D) (s : State D) (i : ℕ) (p : Prefix) (f : ℕ)
      (d : D) where
    -- The collapse of a structural node.
    collapse-Sweeps :
        (l r : Trie D)
        → Hangs slot n s (node i p f d l r)
        → (s' : State D) × (collapse i slot (root_of l) (root_of r) s ≡ done (tt, s'))
          × Sweeps slot n s (node i p f d l r) (splice i p f d l r) s'
    unfolding collapse splice size
    collapse-Sweeps nil nil h =
        unlink-Sweeps slot n s i (node i p f d nil nil) nil n (has_self {D = D} i nil nil) refl
          h.valid h.stored.1 tt refl (λ k in_nil. cc)
          (λ k in_t. elim (has-cases {D = D} i k nil nil in_t) [
            | inl e ↦ inl e
            | inr (inl e) ↦ inr e
            | inr (inr e) ↦ inr e
          ])
          h.apart h.linked
    collapse-Sweeps nil (node j q g e l r) h =
        let t : Trie D = node j q g e l r in
        unlink-Sweeps slot n s i (node i p f d nil t) t n (has_self i nil t) (omega arith) h.valid
          h.stored.1 h.stored.3 h.separate.1 (λ k in_t. has_right i k nil t in_t)
          (λ k in_t. elim (has-cases i k nil t in_t) [
            | inl e ↦ inl e
            | inr (inl e) ↦ absurd (cc)
            | inr (inr e) ↦ inr e
          ])
          h.apart h.linked
    collapse-Sweeps (node j q g e l r) nil h =
        let t : Trie D = node j q g e l r in
        unlink-Sweeps slot n s i (node i p f d t nil) t n (has_self i t nil) (omega arith) h.valid
          h.stored.1 h.stored.2 h.separate.0 (λ k in_t. has_left i k t nil in_t)
          (λ k in_t. elim (has-cases i k t nil in_t) [
            | inl e ↦ inl e
            | inr (inl e) ↦ inr e
            | inr (inr e) ↦ absurd (cc)
          ])
          h.apart h.linked
    collapse-Sweeps (node j q g e l r) (node j' q' g' e' l' r') h =
        (s, refl, Sweeps-refl slot n s _ h.stored h.valid h.linked)

    -- What the frame does after the passes over the children.
    abbrev last : Node D → M D (Unit {0})
    last m = if is_announced m then pure tt else collapse i slot m.child0 m.child1

    last-Sweeps :
        (l r : Trie D)
        → Hangs slot n s (node i p f d (swept l) (swept r))
        → (s' : State D) × (last (slab_node p f d (swept l) (swept r)) s ≡ done (tt, s'))
          × Sweeps slot n s (node i p f d (swept l) (swept r)) (swept (node i p f d l r)) s'
    unfolding is_announced
    last-Sweeps l r h = elim (Bool-cases (flagged f)) [
      | inl on ↦ (
        s,
        rw on refl,
        rw (swept_announced i p f d l r on) (Sweeps-refl slot n s _ h.stored h.valid h.linked),
      )
      | inr off ↦
          let (s', runs, sw) = collapse-Sweeps (swept l) (swept r) h in
          (s', rw off runs, rw (swept_structural i p f d l r off) sw)
    ]

  abbrev pub Sweeping : ℕ → Option (ℕ × ℕ) → Node D → State D → Trie D → Type 0
  Sweeping fuel slot n s t =
      (s' : State D) × (◌≡◌ {A = Outcome (Unit {0} × State D)}
        (elim (root_of t) as (λ o. M D (Unit {0})) [
          | some c ↦ sweep_recursive fuel c slot
          | none ↦ pure tt
        ]
          s)
        (done (tt, s')))
      × Sweeps slot n s t (swept t) s'

  inside :
      (i : ℕ) (p : Prefix) (f : ℕ) (d : D) (l r : Trie D) (j : ℕ)
      → has (node i p f d (swept l) (swept r)) j ≡ true
      → has (node i p f d l r) j ≡ true
  inside i p f d l r j k = elim (has-cases i j (swept l) (swept r) k) [
    | inl e ↦ subst (λ x. has (node i p f d l r) x ≡ true) e (has_self i l r)
    | inr (inl e) ↦ has_left i j l r (has-swept l j e)
    | inr (inr e) ↦ has_right i j l r (has-swept r j e)
  ]

  module _ (slot : Option (ℕ × ℕ)) (n : Node D) (s : State D) (i : ℕ) (p : Prefix) (f : ℕ) (d : D)
      (l r : Trie D) (h : Hangs slot n s (node i p f d l r)) where
    left-Hangs : Hangs (some (i, 0)) (slab_node p f d l r) s l
    left-Hangs = record {
      stored = h.stored.2;
      valid = h.valid;
      separate = h.separate.3;
      linked = h.stored.0;
      apart = λ j e. subst (λ k. has l k ≡ false) e h.separate.0;
    }

    module _ (s1 : State D) (sl : Sweeps (some (i, 0)) (slab_node p f d l r) s l (swept l) s1) where
      right-Hangs : Hangs (some (i, 1)) (slab_node p f d (swept l) r) s1 r
      right-Hangs = record {
        stored = Stored-frame s.tree.slab s1.tree.slab r h.stored.3 (λ j k alive.
            let away = Apart-sym l r j h.separate.2 k in
            (
              sl.values j away (λ e.
                  let k' : has r i ≡ true = subst (λ x. has r x ≡ true) (sym e) k in
                  let out = h.separate.1 in cc),
              sl.live j alive away,
            ));
        valid = sl.valid;
        separate = h.separate.4;
        linked = sl.linked;
        apart = λ j e. subst (λ k. has r k ≡ false) e h.separate.1;
      }

      module _ (s2 : State D)
          (sr : Sweeps (some (i, 1)) (slab_node p f d (swept l) r) s1 r (swept r) s2) where
        -- The passes over both children.
        children-Sweeps : Sweeps slot n s (node i p f d l r) (node i p f d (swept l) (swept r)) s2
        unfolding size
        children-Sweeps = record {
          stored = (
            sr.linked,
            sr.live i (sl.live i h.stored.1 h.separate.0) h.separate.1,
            Stored-frame s1.tree.slab s2.tree.slab (swept l) sl.stored (λ j k alive.
                let in_l = has-swept l j k in
                let away = h.separate.2 j in_l in
                (sr.values j away (λ e. left_not_i j e in_l), sr.live j alive away)),
            sr.stored,
          );
          valid = sr.valid;
          live = λ j alive away.
              let (differs, out_l, out_r) = outside i j l r away in
              sr.live j (sl.live j alive out_l) out_r;
          no_more = λ j alive.
              let after = sr.no_more j alive in
              let before = sl.no_more j after.0 in
              (
                before.0,
                elim (Bool-cases (has (node i p f d l r) j)) [
                  | inr away ↦ inl away
                  | inl in_t ↦ inr (elim (has-cases i j l r in_t) [
                    | inl e ↦
                        subst (λ k. has (node i p f d (swept l) (swept r)) k ≡ true) e
                          (has_self i (swept l) (swept r))
                    | inr (inl e) ↦
                        has_left i j (swept l) (swept r)
                          (elim before.1 [ inl out ↦ absurd (cc) | inr k ↦ k ])
                    | inr (inr e) ↦
                        has_right i j (swept l) (swept r)
                          (elim after.1 [ inl out ↦ absurd (cc) | inr k ↦ k ])
                  ])
                ],
              );
          values = λ j away other. kept j away;
          linked =
              Linked-frame slot n s s2 (some i) root_kept (λ j e. kept j (h.apart j e)) h.linked;
          root_same = inr root_kept;
          tally = sr.tally ∙ sl.tally;
          space = omega (arith, sl.space, sr.space);
          sweeps = sr.sweeps ∙ sl.sweeps;
        }
          where
            left_not_i : (j : ℕ) → i ≡ j → has l j ≡ true → ⊥
            left_not_i j e k =
                let k' : has l i ≡ true = subst (λ x. has l x ≡ true) (sym e) k in
                let out = h.separate.0 in cc

            kept :
                (j : ℕ)
                → has (node i p f d l r) j ≡ false
                → get_elem? s2.tree.slab.entries j ≡ get_elem? s.tree.slab.entries j
            kept j away =
                let (differs, out_l, out_r) = outside i j l r away in
                sr.values j out_r (λ e. differs (sym e)) ∙ sl.values j out_l (λ e. differs (sym e))

            root_kept : s2.tree.root ≡ s.tree.root
            root_kept = elim sr.root_same [
              | inl e ↦ absurd (cc)
              | inr e ↦ elim sl.root_same [ inl e' ↦ absurd (cc) | inr e' ↦ e ∙ e' ]
            ]

        last-Hangs : Hangs slot n s2 (node i p f d (swept l) (swept r))
        last-Hangs =
            let sw = children-Sweeps in
            record {
              stored = sw.stored;
              valid = sr.valid;
              separate = (
                not-has-swept l i h.separate.0,
                not-has-swept r i h.separate.1,
                λ j k. not-has-swept r j (h.separate.2 j (has-swept l j k)),
                swept-IsSeparate l h.separate.3,
                swept-IsSeparate r h.separate.4,
              );
              linked = sw.linked;
              apart = λ j e.
                  not_true→false (has (node i p f d (swept l) (swept r)) j)
                    (λ k. let in_t = inside i p f d l r j k in let out = h.apart j e in cc);
            }

  -- With fuel for the depth of the trie the pass returns.
  pub sweep-Sweeps :
      (fuel : ℕ) (slot : Option (ℕ × ℕ)) (n : Node D) (s : State D) (t : Trie D)
      → IsEnough fuel t
      → IsTrie t
      → Hangs slot n s t
      → Sweeping fuel slot n s t
  unfolding sweep_recursive swept
  sweep-Sweeps fuel slot n s nil enough shape h =
      (s, refl, Sweeps-refl slot n s nil h.stored h.valid h.linked)
  sweep-Sweeps zero slot n s (node i p f d l r) enough shape h =
      absurd (omega (arith, shape.0.short))
  sweep-Sweeps (suc fuel) slot n s (node i p f d l r) enough shape h =
      let (s1, runs1, sl) =
        sweep-Sweeps fuel (some (i, 0)) (slab_node p f d l r) s l
          (IsEnough-child fuel 0 p l enough shape.1) shape.3 (left-Hangs slot n s i p f d l r h) in
      let (s2, runs2, sr) =
        sweep-Sweeps fuel (some (i, 1)) (slab_node p f d (swept l) r) s1 r
          (IsEnough-child fuel 1 p r enough shape.2) shape.4
          (right-Hangs slot n s i p f d l r h s1 sl) in
      let both = children-Sweeps slot n s i p f d l r h s1 sl s2 sr in
      let (s', runs, sw) =
        last-Sweeps slot n s2 i p f d l r (last-Hangs slot n s i p f d l r h s1 sl s2 sr) in
      let start = get_node-done i s h.stored.0 in
      let again = get_node-done i s2 both.stored.0 in
      (
        s',
        rw (start, runs1, runs2, again) runs,
        Sweeps-trans slot n s (node i p f d l r) s2 (node i p f d (swept l) (swept r)) s' _
            (inside i p f d l r) both sw,
      )
