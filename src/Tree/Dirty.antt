-- ===== src/Tree/Dirty.antt =====
-- What the mutations report through `dirty`: from a state `s0` on, every entry of the slab that
-- changed is in the log, but for the indices that a step has touched and not reported yet. `Tracks`
-- is a triple for the steps, with a rule for each.
pub mod Rules
pub mod Steps
pub mod Insert
pub mod Withdraw
pub mod Sweep
use slash.Base.{
  ℕ, zero, suc, ◌+◌, ◌^◌, ◌≤◌, ◌<◌, ◌≡◌, ◌≢◌, ◌⊎◌, inl, inr, refl, Bool, true, false, Option, none,
  some, List, [], ◌∷◌, ◌++◌, ◌||◌, ◌==◌, ltb, arith, length, get_elem?, set, contains, sym, ◌∙◌,
  subst, ap, if◌then◌else◌, Bool-cases, Option-cases, or-cases, or_left, or_right, not_ltb→le,
  get_elem?-append_ne, ◌%◌, contains-append, ==→eq, eq→==, length-set, length-append,
  get_elem?-set_ne, get_elem?-append_left, lt-length_of_get, ne→not_==,
}
use native.Mathlib.Decide.{ℕ_discrete}
use slash.Base.Outcome.{Outcome, done, panic, out_of_fuel, expect}
use slash.Node.{Node}
use slash.Slab
use slash.Slab.{VecSlab, write, alloc, free, nonzero_u32}
use slash.Tree.Monad.{
  State, M, pure, and_then, ◌>>=◌, ◌>>◌, lift, with_slab, get_node, update_node, alloc_node,
  free_node, mark_dirty, set_root, count_up, count_down, count_down_from, count_sweep,
}

abbrev pub Nothing : ℕ → Type 0
Nothing j = ⊥

abbrev pub Touching : ℕ → (ℕ → Type 0) → ℕ → Type 0
Touching i Y j = (j ≡ i) ⊎ Y j

nonzero_u32-inv : (n i : ℕ) → n < 2 ^ 32 → nonzero_u32 n ≡ some i → n ≡ i
nonzero_u32-inv n i small e = elim (Bool-cases (n % 2 ^ 32 == 0)) [
  | inl z ↦ let e' = rw z at e in cc
  | inr nz ↦ let e' = rw nz at e in let k : n % 2 ^ 32 ≡ i = cc in omega arith
]

module _ {D : Type 0} where
  abbrev pub entries_of : State D → List (Node D)
  entries_of s = s.tree.slab.entries

  pub record Logged (Touched : ℕ → Type 0) (s0 s : State D) : Type 0 where
    pub changed :
        (j : ℕ)
        → (get_elem? (entries_of s) j ≡ get_elem? (entries_of s0) j)
          ⊎ (contains s.dirty j ≡ true)
          ⊎ Touched j
    pub kept : (j : ℕ) → contains s0.dirty j ≡ true → contains s.dirty j ≡ true
    pub in_range :
        (j : ℕ)
        → contains s.dirty j ≡ true
        → (contains s0.dirty j ≡ true) ⊎ (j < length (entries_of s))
    pub touched_in_range : (j : ℕ) → Touched j → j < length (entries_of s)
    pub longer : length (entries_of s0) ≤ length (entries_of s)
    pub capacity : s.tree.slab.max_capacity < 2 ^ 32
    pub limit : s.tree.slab.max_capacity ≡ s0.tree.slab.max_capacity

  abbrev pub Tracks : {A : Type 0} → State D → (ℕ → Type 0) → M D A → (A → ℕ → Type 0) → Type 0
  Tracks {A} s0 Y m X =
      (s : State D) (a : A) (s' : State D) → m s ≡ done (a, s') → Logged Y s0 s → Logged (X a) s0 s'

  pub Logged-refl : (s : State D) → s.tree.slab.max_capacity < 2 ^ 32 → Logged Nothing s s
  Logged-refl s small = record {
    changed = λ j. inl refl;
    kept = λ j h. h;
    in_range = λ j h. inl h;
    touched_in_range = λ j h. absurd h;
    longer = omega arith;
    capacity = small;
    limit = refl;
  }

  -- A step that leaves the entries and the log alone.
  pub Logged-same :
      {Y : ℕ → Type 0} (s0 s s' : State D)
      → entries_of s' ≡ entries_of s
      → s'.dirty ≡ s.dirty
      → s'.tree.slab.max_capacity ≡ s.tree.slab.max_capacity
      → Logged Y s0 s
      → Logged Y s0 s'
  Logged-same s0 s s' e d c l = record {
    changed = λ j. rw (e, d) (l.changed j);
    kept = λ j h. rw d (l.kept j h);
    in_range = λ j h. rw e (l.in_range j (rw d at h));
    touched_in_range = λ j h. rw e (l.touched_in_range j h);
    longer = rw e l.longer;
    capacity = rw c l.capacity;
    limit = c ∙ l.limit;
  }

  pub and_then-done :
      {A B : Type 0} (o : Outcome (A × State D)) (f : A → M D B) (b : B) (s'' : State D)
      → and_then o f ≡ done (b, s'')
      → (a : A) × (s' : State D) × (o ≡ done (a, s')) × (f a s' ≡ done (b, s''))
  and_then-done (done (a, s')) f b s'' e = (a, s', refl, e)
  and_then-done panic f b s'' e = cc
  and_then-done out_of_fuel f b s'' e = cc

  pub get_node-inv :
      (i : ℕ) (s : State D) (n : Node D) (s' : State D)
      → get_node i s ≡ done (n, s')
      → (get_elem? (entries_of s) i ≡ some n) × (s ≡ s')
  unfolding get_node Slab.get
  get_node-inv i s n s' e = elim (Option-cases (get_elem? (entries_of s) i)) [
    | inl h ↦ let wrong = rw h at e in cc
    | inr (n', h) ↦ let right = rw h at e in let same : n' ≡ n = cc in (h ∙ ap some same, cc)
  ]

  -- A write, as the state after it.
  abbrev pub written : ℕ → Node D → State D → State D
  written i v s = with_slab (record (s.tree.slab) { entries = set (entries_of s) i v }) s

  pub update_node-inv :
      (i : ℕ) (f : Node D → Node D) (s : State D) (a : Unit {0}) (s' : State D)
      → update_node i f s ≡ done (a, s')
      → (n : Node D) × (get_elem? (entries_of s) i ≡ some n) × (written i (f n) s ≡ s')
  unfolding update_node get_node Slab.get write
  update_node-inv i f s a s' e = elim (Option-cases (get_elem? (entries_of s) i)) [
    | inl h ↦ let wrong = rw h at e in cc
    | inr (n, h) ↦ let right = rw h at e in (n, h, cc)
  ]

  -- What `alloc` does to the entries: nothing but at the index, which is in range after.
  pub alloc_node-inv :
      (v : Node D) (s : State D) (i : ℕ) (s' : State D)
      → alloc_node v s ≡ done (i, s')
      → (slab : VecSlab (Node D)) × (alloc v s.tree.slab ≡ (some i, slab)) × (with_slab slab s ≡ s')
  unfolding alloc_node
  alloc_node-inv v s i s' e = go (alloc v s.tree.slab) refl e
    where
      go :
          (r : Option ℕ × VecSlab (Node D))
          → alloc v s.tree.slab ≡ r
          → lift (expect r.0) (with_slab r.1 s) ≡ done (i, s')
          → (slab : VecSlab (Node D)) × (alloc v s.tree.slab ≡ (some i, slab))
            × (with_slab slab s ≡ s')
      go (some k, slab) h e' =
          let same : k ≡ i = cc in (slab, h ∙ ap (λ x. (some x, slab)) same, cc)
      go (none, slab) h e' = cc

  -- An allocation changes no entry but the one that it returns.
  pub alloc-elsewhere :
      (v : Node D) (s : VecSlab (Node D)) (i : ℕ) (s' : VecSlab (Node D))
      → s.max_capacity < 2 ^ 32
      → alloc v s ≡ (some i, s')
      → ((j : ℕ) → j ≢ i → get_elem? s'.entries j ≡ get_elem? s.entries j)
        × (length s.entries ≤ length s'.entries)
        × (s'.max_capacity ≡ s.max_capacity)
  unfolding alloc
  alloc-elsewhere v s i s' small e = go s.free_list refl
    where
      go :
          (free : List ℕ)
          → s.free_list ≡ free
          → ((j : ℕ) → j ≢ i → get_elem? s'.entries j ≡ get_elem? s.entries j)
            × (length s.entries ≤ length s'.entries)
            × (s'.max_capacity ≡ s.max_capacity)
      go (idx ∷ rest) h =
          let e' = rw h at e in
          let same : s' ≡ record s { free_list = rest } = cc in
          rw same ((λ j ne. refl), omega arith, refl)
      go [] h = elim (Bool-cases (ltb s.max_capacity (length s.entries))) [
        | inl full ↦ let e' = rw (h, full) at e in cc
        | inr room ↦
            let e' = rw (h, room) at e in
            let n = length s.entries in
            let index : nonzero_u32 n ≡ some i = cc in
            let same_index : n ≡ i =
              nonzero_u32-inv n i (omega (arith, not_ltb→le s.max_capacity n room)) index in
            let same : s' ≡ record s { entries = s.entries ++ v ∷ []; free_list = [] } = cc in
            let longer = length-append s.entries (v ∷ []) in
            rw same (
              (λ j ne. get_elem?-append_ne s.entries v j (λ e. ne (e ∙ same_index))),
              omega arith,
              refl,
            )
      ]
