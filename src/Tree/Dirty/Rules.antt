-- ===== src/Tree/Dirty/Rules.antt =====
-- The rules of `Tracks`.
use slash.Base.{
  ℕ, zero, suc, ◌+◌, ◌^◌, ◌≤◌, ◌<◌, ◌≡◌, ◌≢◌, ◌⊎◌, inl, inr, refl, Bool, true, false, Option, List,
  [], ◌∷◌, ◌++◌, ◌||◌, ◌==◌, ltb, arith, length, get_elem?, contains, sym, ◌∙◌, subst, ap,
  if◌then◌else◌, Bool-cases, or-cases, or_left, or_right, contains-append, ==→eq, eq→==, length-set,
  get_elem?-set_ne, lt-length_of_get,
}
use native.Mathlib.Decide.{ℕ_discrete}
use slash.Base.Outcome.{Outcome, done, panic, out_of_fuel}
use slash.Node.{Node}
use slash.Slab.{free}
use slash.Tree.Monad.{
  State, M, pure, ◌>>=◌, ◌>>◌, lift, with_slab, get_node, update_node, alloc_node, free_node,
  mark_dirty, set_root, count_up, count_down, count_down_from, count_sweep,
}
use slash.Tree.Dirty.{
  entries_of, Logged, Touching, Tracks, Logged-same, and_then-done, get_node-inv, written,
  update_node-inv, alloc_node-inv, alloc-elsewhere,
}

module _ {D : Type 0} {s0 : State D} where
  pub Tracks-bind :
      {A B : Type 0} {Y : ℕ → Type 0} {X : A → ℕ → Type 0} {Z : B → ℕ → Type 0} (m : M D A)
      (f : A → M D B)
      → Tracks s0 Y m X
      → ((a : A) → Tracks s0 (X a) (f a) Z)
      → Tracks s0 Y (m >>= f) Z
  Tracks-bind m f hm hf s b s'' e l =
      let (a, s', e', e'') = and_then-done (m s) f b s'' e in hf a s' b s'' e'' (hm s a s' e' l)

  pub Tracks-pure : {A : Type 0} {Y : ℕ → Type 0} (a : A) → Tracks s0 Y (pure a) (λ b. Y)
  Tracks-pure {A} {Y} a s b s' e l = let same : s ≡ s' = cc in subst (λ t. Logged Y s0 t) same l

  -- The same where what is touched depends on the value.
  pub Tracks-pure_at : {A : Type 0} (X : A → ℕ → Type 0) (a : A) → Tracks s0 (X a) (pure a) X
  Tracks-pure_at X a s b s' e l =
      let same : s ≡ s' = cc in
      let value : a ≡ b = cc in
      subst (λ t. Logged (X b) s0 t) same (subst (λ c. Logged (X c) s0 s) value l)

  pub Tracks-lift : {A : Type 0} {Y : ℕ → Type 0} (o : Outcome A) → Tracks s0 Y (lift o) (λ b. Y)
  Tracks-lift {A} {Y} (done a) s b s' e l =
      let same : s ≡ s' = cc in subst (λ t. Logged Y s0 t) same l
  Tracks-lift panic s b s' e l = cc
  Tracks-lift out_of_fuel s b s' e l = cc

  -- A weaker claim on both sides.
  pub Tracks-weaken :
      {A : Type 0} {Y : ℕ → Type 0} {X X' : A → ℕ → Type 0} {m : M D A}
      → Tracks s0 Y m X
      → ((a : A) (s : State D) → Logged (X a) s0 s → Logged (X' a) s0 s)
      → Tracks s0 Y m X'
  Tracks-weaken h w s a s' e l = w a s' (h s a s' e l)

  Logged-touch :
      {Y : ℕ → Type 0} (i : ℕ) (s s' : State D)
      → Logged Y s0 s
      → ((j : ℕ) → j ≢ i → get_elem? (entries_of s') j ≡ get_elem? (entries_of s) j)
      → length (entries_of s) ≤ length (entries_of s')
      → i < length (entries_of s')
      → s'.dirty ≡ s.dirty
      → s'.tree.slab.max_capacity ≡ s.tree.slab.max_capacity
      → Logged (Touching i Y) s0 s'
  Logged-touch i s s' l same longer inside d c = record {
    changed = λ j. rw d (elim (ℕ_discrete j i) [
      | yes e ↦ inr (inr (inl e))
      | no ne ↦ elim (l.changed j) [
        | inl e ↦ inl (same j ne ∙ e)
        | inr (inl h) ↦ inr (inl h)
        | inr (inr h) ↦ inr (inr (inr h))
      ]
    ]);
    kept = λ j h. rw d (l.kept j h);
    in_range =
        λ j h. elim (l.in_range j (rw d at h)) [ inl old ↦ inl old | inr lt ↦ inr (omega arith) ];
    touched_in_range =
        λ j h. elim h [ inl e ↦ omega arith | inr y ↦ omega (arith, l.touched_in_range j y) ];
    longer = omega (arith, l.longer);
    capacity = rw c l.capacity;
    limit = c ∙ l.limit;
  }

  pub Tracks-get_node : {Y : ℕ → Type 0} (i : ℕ) → Tracks s0 Y (get_node i) (λ n. Y)
  Tracks-get_node {Y} i s n s' e l = subst (λ t. Logged Y s0 t) (get_node-inv i s n s' e).1 l

  pub Tracks-update_node :
      {Y : ℕ → Type 0} (i : ℕ) (f : Node D → Node D)
      → Tracks s0 Y (update_node i f) (λ a. Touching i Y)
  Tracks-update_node {Y} i f s a s' e l =
      let (n, h, same) = update_node-inv i f s a s' e in
      let inside = lt-length_of_get (entries_of s) i n h in
      let longer = length-set (entries_of s) i (f n) in
      subst (λ t. Logged (Touching i Y) s0 t) same
        (Logged-touch i s (written i (f n) s) l
          (λ j ne. get_elem?-set_ne (entries_of s) i j (f n) (λ p. ne (sym p))) (omega arith)
          (omega arith) refl refl)

  -- A report settles the index, and every other touched index stays.
  pub Tracks-mark_dirty :
      {X Y : ℕ → Type 0} (i : ℕ)
      → X i
      → ((j : ℕ) → X j → (j ≡ i) ⊎ Y j)
      → ((j : ℕ) → Y j → X j)
      → Tracks s0 X (mark_dirty i) (λ a. Y)
  unfolding mark_dirty
  Tracks-mark_dirty {X} {Y} i hi split back s a s' e l =
      let same : record s { dirty = s.dirty ++ i ∷ [] } ≡ s' = cc in
      subst (λ t. Logged Y s0 t) same
        (record {
          changed = λ j. elim (l.changed j) [
            | inl e ↦ inl e
            | inr (inl h) ↦ inr (inl (grown j h))
            | inr (inr h) ↦ elim (split j h) [
              | inl e ↦ inr (inl (rw e (last)))
              | inr y ↦ inr (inr y)
            ]
          ];
          kept = λ j h. grown j (l.kept j h);
          in_range = λ j h.
              elim (or-cases (contains s.dirty j) ((i == j) || false)
                (rw (contains-append s.dirty (i ∷ []) j) at h)) [
                  | inl old ↦ l.in_range j old
                  | inr new ↦
                      let e : i ≡ j = ground (arith, ==→eq i j) in
                      inr (subst (λ k. k < length (entries_of s)) e (l.touched_in_range i hi))
                ];
          touched_in_range = λ j y. l.touched_in_range j (back j y);
          longer = l.longer;
          capacity = l.capacity;
          limit = l.limit;
        })
    where
      grown : (j : ℕ) → contains s.dirty j ≡ true → contains (s.dirty ++ i ∷ []) j ≡ true
      grown j h = rw (contains-append s.dirty (i ∷ []) j, h) refl

      last : contains (s.dirty ++ i ∷ []) i ≡ true
      last =
          contains-append s.dirty (i ∷ []) i
          ∙ or_right (contains s.dirty i) ((i == i) || false)
              (or_left (i == i) false (eq→== i i refl))

  -- An allocation with the write to the new entry.
  pub Tracks-alloc_node :
      {B : Type 0} {Y : ℕ → Type 0} {Z : B → ℕ → Type 0} (v : Node D) (f : ℕ → Node D → Node D)
      (k : ℕ → M D B)
      → ((i : ℕ) → Tracks s0 (Touching i Y) (k i) Z)
      → Tracks s0 Y (alloc_node v >>= λ i. (update_node i (f i) >> k i)) Z
  Tracks-alloc_node {B} {Y} v f k hk s b s' e l =
      let (i, s1, e1, e2) =
        and_then-done (alloc_node v s) (λ i. (update_node i (f i) >> k i)) b s' e in
      let (u, s2, e3, e4) = and_then-done (update_node i (f i) s1) (λ _. k i) b s' e2 in
      let (slab, runs, same1) = alloc_node-inv v s i s1 e1 in
      let (n, h, same2) = update_node-inv i (f i) s1 u s2 e3 in
      let elsewhere = alloc-elsewhere v s.tree.slab i slab l.capacity runs in
      let entries1 : entries_of s1 ≡ slab.entries =
        ap (λ (t : State D). entries_of t) (sym same1) in
      let dirty1 : s1.dirty ≡ s.dirty = ap (λ (t : State D). t.dirty) (sym same1) in
      let capacity1 : s1.tree.slab.max_capacity ≡ slab.max_capacity =
        ap (λ (t : State D). t.tree.slab.max_capacity) (sym same1) in
      let inside = lt-length_of_get (entries_of s1) i n h in
      let as_long = length-set (entries_of s1) i (f i n) in
      let sizes = ap (λ (xs : List (Node D)). length xs) entries1 in
      let touched : Logged (Touching i Y) s0 (written i (f i n) s1) =
        Logged-touch i s (written i (f i n) s1) l
          (λ j ne.
            get_elem?-set_ne (entries_of s1) i j (f i n) (λ p. ne (sym p))
            ∙ ap (λ xs. get_elem? xs j) entries1
            ∙ elsewhere.0 j ne)
          (omega (arith, elsewhere.1)) (omega arith) dirty1 (capacity1 ∙ elsewhere.2) in
      hk i s2 b s' e4 (subst (λ t. Logged (Touching i Y) s0 t) same2 touched)

  pub Tracks-set_root : {Y : ℕ → Type 0} (r : Option ℕ) → Tracks s0 Y (set_root r) (λ a. Y)
  unfolding set_root
  Tracks-set_root {Y} r s a s' e l =
      let same : record s { tree = record (s.tree) { root = r } } ≡ s' = cc in
      subst (λ t. Logged Y s0 t) same (Logged-same s0 s _ refl refl refl l)

  pub Tracks-count_up : {Y : ℕ → Type 0} → Tracks s0 Y count_up (λ a. Y)
  unfolding count_up
  Tracks-count_up {Y} s a s' e l = elim (Bool-cases (ltb (s.tree.announced_count + 1) (2 ^ 32))) [
    | inl fits ↦
        let e' = rw fits at e in
        let same : record s {
          tree = record (s.tree) { announced_count = s.tree.announced_count + 1 };
        }
            ≡ s' =
          cc in
        subst (λ t. Logged Y s0 t) same (Logged-same s0 s _ refl refl refl l)
    | inr full ↦ let e' = rw full at e in cc
  ]

  pub Tracks-count_sweep : {Y : ℕ → Type 0} → Tracks s0 Y count_sweep (λ a. Y)
  unfolding count_sweep
  Tracks-count_sweep {Y} s a s' e l = elim (Bool-cases (ltb (s.tree.sweep_count + 1) (2 ^ 32))) [
    | inl fits ↦
        let e' = rw fits at e in
        let same : record s { tree = record (s.tree) { sweep_count = s.tree.sweep_count + 1 } }
            ≡ s' =
          cc in
        subst (λ t. Logged Y s0 t) same (Logged-same s0 s _ refl refl refl l)
    | inr full ↦ let e' = rw full at e in cc
  ]

  Tracks-count_down_from : {Y : ℕ → Type 0} (c : ℕ) → Tracks s0 Y (count_down_from c) (λ a. Y)
  unfolding count_down_from
  Tracks-count_down_from {Y} zero s a s' e l = cc
  Tracks-count_down_from {Y} (suc n) s a s' e l =
      let same : record s { tree = record (s.tree) { announced_count = n } } ≡ s' = cc in
      subst (λ t. Logged Y s0 t) same (Logged-same s0 s _ refl refl refl l)

  pub Tracks-count_down : {Y : ℕ → Type 0} → Tracks s0 Y count_down (λ a. Y)
  unfolding count_down
  Tracks-count_down s a s' e l = Tracks-count_down_from s.tree.announced_count s a s' e l

  pub Tracks-free_node : {Y : ℕ → Type 0} (i : ℕ) → Tracks s0 Y (free_node i) (λ a. Y)
  unfolding free_node free
  Tracks-free_node {Y} i s a s' e l = elim (Bool-cases (contains s.tree.slab.free_list i)) [
    | inl twice ↦ let e' = rw twice at e in cc
    | inr once ↦
        let e' = rw once at e in
        let same : with_slab (record (s.tree.slab) { free_list = i ∷ s.tree.slab.free_list }) s
            ≡ s' =
          cc in
        subst (λ t. Logged Y s0 t) same (Logged-same s0 s _ refl refl refl l)
  ]

  pub Tracks-if :
      {A : Type 0} {Y : ℕ → Type 0} {X : A → ℕ → Type 0} (b : Bool) (m n : M D A)
      → Tracks s0 Y m X
      → Tracks s0 Y n X
      → Tracks s0 Y (if b then m else n) X
  Tracks-if true m n hm hn = hm
  Tracks-if false m n hm hn = hn
