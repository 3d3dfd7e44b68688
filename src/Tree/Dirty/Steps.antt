-- ===== src/Tree/Dirty/Steps.antt =====
-- The rules of `Tracks` for the allocations, for `propagate` and for the reports that settle a
-- touched index.
use slash.Base.{
  ℕ, ◌≡◌, ◌⊎◌, inl, inr, refl, Bool, true, false, not, ◌||◌, Option, none, some, get_elem?, sym,
  ◌∙◌, subst, if◌then◌else◌, Option-cases, set_same, get_elem?-set_self, lt-length_of_get,
}
use slash.Base.Outcome.{done, panic}
use slash.Timestamp.{Timestamp, ts_eq}
use slash.Prefix.{Prefix}
use slash.Node.{Node, NodeData, merge_ancestor}
use slash.Node.Laws.{merge_ancestor_same}
use slash.Tree.Monad.{State, M, pure, ◌>>◌, get_node, update_node, mark_dirty, count_up}
use slash.Tree.Dirty.{entries_of, Logged, Touching, Tracks, Logged-same, written}
use slash.Tree.Dirty.Rules.{
  Tracks-bind, Tracks-pure, Tracks-pure_at, Tracks-update_node, Tracks-mark_dirty,
  Tracks-alloc_node, Tracks-count_up,
}
use slash.Tree.Monad.Laws.{get_node-done}
use slash.Slab
use slash.Slab.{write}
use slash.Tree.Insert.{
  default_node, announced_node, split_node, alloc_announced_node, alloc_split_node, propagate,
}

-- The indices that a step leaves touched where it returns true.
abbrev pub TouchedIf : ℕ → (ℕ → Type 0) → Bool → ℕ → Type 0
TouchedIf i Y true = Touching i Y
TouchedIf i Y false = Y

module _ {D : Type 0} (nd : NodeData D) where
  abbrev bump : Timestamp → Node D → Node D
  bump ts n = record n { payload = merge_ancestor nd n.payload ts }

  abbrev advanced : Node D → Node D → Bool
  advanced before after = not (ts_eq (nd.timestamp after.payload) (nd.timestamp before.payload))

  -- A node that was merged with a time and did not advance is what it was.
  bump_same : (ts : Timestamp) (n : Node D) → advanced n (bump ts n) ≡ false → bump ts n ≡ n
  bump_same ts n h =
      let same = merge_ancestor_same nd n.payload ts (
        not_false (ts_eq (nd.timestamp (merge_ancestor nd n.payload ts)) (nd.timestamp n.payload))
          h) in
      λ j. record n { payload = same j }
    where
      not_false : (b : Bool) → not b ≡ false → b ≡ true
      not_false true h = refl
      not_false false h = cc

  update_node-value :
      (i : ℕ) (f : Node D → Node D) (s : State D) {n : Node D}
      → get_elem? (entries_of s) i ≡ some n
      → update_node i f s ≡ done (tt, written i (f n) s)
  unfolding update_node write
  update_node-value i f s e = rw (get_node-done i s e, e) refl

  propagate-value :
      (i : ℕ) (ts : Timestamp) (s : State D) (n : Node D)
      → get_elem? (entries_of s) i ≡ some n
      → propagate nd i ts s ≡ done (advanced n (bump ts n), written i (bump ts n) s)
  unfolding propagate
  propagate-value i ts s n e =
      let wrote =
        get_elem?-set_self (entries_of s) i (bump ts n) (lt-length_of_get (entries_of s) i n e) in
      rw
        (
          get_node-done i s e,
          update_node-value i (bump ts) s e,
          get_node-done i (written i (bump ts n) s) wrote,
        )
        refl

  propagate_outside :
      (i : ℕ) (ts : Timestamp) (s : State D)
      → get_elem? (entries_of s) i ≡ none
      → propagate nd i ts s ≡ panic
  unfolding propagate get_node Slab.get
  propagate_outside i ts s e = rw e refl

  module _ {s0 : State D} where
    pub Tracks-propagate :
        {Y : ℕ → Type 0} (i : ℕ) (ts : Timestamp) → Tracks s0 Y (propagate nd i ts) (TouchedIf i Y)
    Tracks-propagate {Y} i ts s b s' e l = elim (Option-cases (get_elem? (entries_of s) i)) [
      | inl out ↦ let e' = sym (propagate_outside i ts s out) ∙ e in cc
      | inr (n, h) ↦
          let e' = sym (propagate-value i ts s n h) ∙ e in
          let same : written i (bump ts n) s ≡ s' = cc in
          let result : advanced n (bump ts n) ≡ b = cc in
          subst (λ t. Logged (TouchedIf i Y b) s0 t) same (go n b h result l)
    ]
      where
        go :
            (n : Node D) (b : Bool)
            → get_elem? (entries_of s) i ≡ some n
            → advanced n (bump ts n) ≡ b
            → Logged Y s0 s
            → Logged (TouchedIf i Y b) s0 (written i (bump ts n) s)
        go n true h r l =
            Tracks-update_node i (bump ts) s tt (written i (bump ts n) s)
              (update_node-value i (bump ts) s h) l
        go n false h r l =
            let same = set_same (entries_of s) i n h in
            let back = bump_same ts n r in
            Logged-same s0 s (written i (bump ts n) s) (rw back same) refl refl l

    pub Tracks-alloc_announced_node :
        {Y : ℕ → Type 0} (p : Prefix) (incoming : D) (ts : Timestamp)
        → Tracks s0 Y (alloc_announced_node nd p incoming ts) (λ i. Touching i Y)
    unfolding alloc_announced_node
    Tracks-alloc_announced_node {Y} p incoming ts =
        Tracks-alloc_node (default_node nd) (λ i n. announced_node nd p incoming ts)
          (λ i. (count_up >> pure i))
          (λ i. Tracks-bind _ _ Tracks-count_up (λ u. Tracks-pure_at (λ j. Touching j Y) i))

    pub Tracks-alloc_split_node :
        {Y : ℕ → Type 0} (p : Prefix) (ts : Timestamp)
        → Tracks s0 Y (alloc_split_node nd p ts) (λ i. Touching i Y)
    unfolding alloc_split_node
    Tracks-alloc_split_node {Y} p ts =
        Tracks-alloc_node (default_node nd) (λ i n. split_node nd p ts) (λ i. pure i)
          (λ i. Tracks-pure_at (λ j. Touching j Y) i)

    pub Tracks-propagate_if :
        {Y : ℕ → Type 0} (i : ℕ) (below : Bool) (ts : Timestamp)
        → Tracks s0 Y (if below then propagate nd i ts else pure false) (TouchedIf i Y)
    Tracks-propagate_if i true ts = Tracks-propagate i ts
    Tracks-propagate_if {Y} i false ts = Tracks-pure_at (TouchedIf i Y) false

module _ {D : Type 0} {s0 : State D} where
  -- A report of the one touched index.
  pub Tracks-report : {Y : ℕ → Type 0} (i : ℕ) → Tracks s0 (Touching i Y) (mark_dirty i) (λ a. Y)
  Tracks-report i = Tracks-mark_dirty i (inl refl) (λ j h. h) (λ j y. inr y)

  -- The same after two touches of it.
  pub Tracks-report_twice :
      {Y : ℕ → Type 0} (i : ℕ) → Tracks s0 (Touching i (Touching i Y)) (mark_dirty i) (λ a. Y)
  Tracks-report_twice {Y} i = Tracks-mark_dirty i (inl refl) (λ j h. once j h) (λ j y. inr (inr y))
    where
      once : (j : ℕ) → Touching i (Touching i Y) j → Touching i Y j
      once j (inl e) = inl e
      once j (inr h) = h

  -- The report of an index below another touched one.
  pub Tracks-report_second :
      {Y : ℕ → Type 0} (i k : ℕ)
      → Tracks s0 (Touching k (Touching i Y)) (mark_dirty i) (λ a. Touching k Y)
  Tracks-report_second {Y} i k =
      Tracks-mark_dirty i (inr (inl refl)) (λ j h. either j h) (λ j h. back j h)
    where
      either : (j : ℕ) → Touching k (Touching i Y) j → (j ≡ i) ⊎ Touching k Y j
      either j (inl e) = inr (inl e)
      either j (inr (inl e)) = inl e
      either j (inr (inr y)) = inr (inr y)

      back : (j : ℕ) → Touching k Y j → Touching k (Touching i Y) j
      back j (inl e) = inl e
      back j (inr y) = inr (inr y)

  pub Tracks-report_if :
      {Y : ℕ → Type 0} (i : ℕ) (b : Bool)
      → Tracks s0 (TouchedIf i (Touching i Y) b) (mark_dirty i) (λ a. Y)
  Tracks-report_if i true = Tracks-report_twice i
  Tracks-report_if i false = Tracks-report i

  -- The report of the frame that comes back from a child.
  pub Tracks-report_either :
      {Y : ℕ → Type 0} (i : ℕ) (linked advanced : Bool)
      → Tracks s0
          (TouchedIf i (TouchedIf i Y linked) advanced)
          (if linked || advanced then mark_dirty i else pure tt)
          (λ a. Y)
  Tracks-report_either i true advanced = Tracks-report_if i advanced
  Tracks-report_either i false true = Tracks-report i
  Tracks-report_either i false false = Tracks-pure tt

  pub Tracks-link_if :
      {Y : ℕ → Type 0} (i : ℕ) (linked : Bool) (f : Node D → Node D)
      → Tracks s0 Y (if linked then update_node i f else pure tt) (λ a. TouchedIf i Y linked)
  Tracks-link_if i true f = Tracks-update_node i f
  Tracks-link_if i false f = Tracks-pure tt

  pub Tracks-each :
      {Y : ℕ → Type 0} (o : Option ℕ) (f : ℕ → M D (Unit {0}))
      → ((c : ℕ) → Tracks s0 Y (f c) (λ u. Y))
      → Tracks s0 Y (elim o [ some c ↦ f c | none ↦ pure tt ]) (λ u. Y)
  Tracks-each none f h = Tracks-pure tt
  Tracks-each (some c) f h = h c
