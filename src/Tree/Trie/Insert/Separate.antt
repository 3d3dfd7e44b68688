-- ===== src/Tree/Trie/Insert/Separate.antt =====
-- Insertion keeps the indices of the trie apart.
use slash.Base.{
  ℕ, ◌≡◌, ◌≢◌, ◌⊎◌, inl, inr, refl, Bool, true, false, ◌||◌, ◌==◌, or-cases, or_left, or_false,
  ne→not_==, not_true→false, nor_left, nor_right, true-ne-false, ==→eq, eq→==, subst,
}
use slash.Prefix.{Prefix}
use slash.Timestamp.{Timestamp}
use slash.Node.{NodeData}
use slash.Tree.Trie.{Trie, nil, node, has, IsSeparate, has-cases, has_left, has_right}
use slash.Tree.Trie.Insert.{
  leaf_at, Inserts, leaf, again, left, right, above_left, above_right, fork_left, fork_right,
}

is_leaf : (a j : ℕ) → ((a == j) || (false || false)) ≡ true → a ≡ j
is_leaf a j h = elim (or-cases (a == j) (false || false) h) [ inl e ↦ ==→eq a j e | inr e ↦ cc ]

-- A subtree's absence, from that of the whole trie.
module _ {D : Type 0} (i j : ℕ) (l r : Trie D)
    (h : ((i == j) || (has l j || has r j)) ≡ false) where
  pub absent_here : i ≢ j
  absent_here e = true-ne-false (eq→== i j e) (nor_left (i == j) (has l j || has r j) h)

  pub absent_left : has l j ≡ false
  absent_left = nor_left (has l j) (has r j) (nor_right (i == j) (has l j || has r j) h)

  pub absent_right : has r j ≡ false
  absent_right = nor_right (has l j) (has r j) (nor_right (i == j) (has l j || has r j) h)

module _ {D : Type 0} (nd : NodeData D) (p : Prefix) (incoming : D) (ts : Timestamp)
    (Fresh : ℕ → Type 0) where
  -- Its indices are those from before and fresh ones.
  pub Inserts-has :
      {t t' : Trie D} {adv : Bool} {target : ℕ} (j : ℕ)
      → Inserts nd p incoming ts Fresh t t' adv target
      → has t' j ≡ true
      → (has t j ≡ true) ⊎ Fresh j
  Inserts-has j (leaf a fr) h = elim (has-cases {D = D} a j nil nil h) [
    | inl e ↦ inr (subst Fresh e fr)
    | inr (inl k) ↦ inl k
    | inr (inr k) ↦ inl k
  ]
  Inserts-has j (again e) h = inl h
  Inserts-has j (left {i} {l} {r} {l'} e ins) h = elim (has-cases i j l' r h) [
    | inl here ↦ inl (or_left (i == j) (has l j || has r j) (eq→== i j here))
    | inr (inl below) ↦ elim (Inserts-has j ins below) [
      | inl k ↦ inl (has_left i j l r k)
      | inr k ↦ inr k
    ]
    | inr (inr aside) ↦ inl (has_right i j l r aside)
  ]
  Inserts-has j (right {i} {l} {r} {r'} e ins) h = elim (has-cases i j l r' h) [
    | inl here ↦ inl (or_left (i == j) (has l j || has r j) (eq→== i j here))
    | inr (inl aside) ↦ inl (has_left i j l r aside)
    | inr (inr below) ↦ elim (Inserts-has j ins below) [
      | inl k ↦ inl (has_right i j l r k)
      | inr k ↦ inr k
    ]
  ]
  Inserts-has j (above_left {i} {f} {q} {d} {l} {r} a fr e) h =
      elim (has-cases a j (node i q f d l r) nil h) [
        | inl e' ↦ inr (subst Fresh e' fr)
        | inr (inl k) ↦ inl k
        | inr (inr k) ↦ cc
      ]
  Inserts-has j (above_right {i} {f} {q} {d} {l} {r} a fr e) h =
      elim (has-cases a j nil (node i q f d l r) h) [
        | inl e' ↦ inr (subst Fresh e' fr)
        | inr (inl k) ↦ cc
        | inr (inr k) ↦ inl k
      ]
  Inserts-has j (fork_left {i} {f} {q} {d} {l} {r} a a' c m fr fr' ne fork tr) h =
      elim (has-cases a' j (leaf_at nd p incoming ts Fresh a) (node i q f d l r) h) [
        | inl e' ↦ inr (subst Fresh e' fr')
        | inr (inl k) ↦ elim (has-cases {D = D} a j nil nil k) [
          | inl e' ↦ inr (subst Fresh e' fr)
          | inr (inl k) ↦ cc
          | inr (inr k) ↦ cc
        ]
        | inr (inr k) ↦ inl k
      ]
  Inserts-has j (fork_right {i} {f} {q} {d} {l} {r} a a' c m fr fr' ne fork tr) h =
      elim (has-cases a' j (node i q f d l r) (leaf_at nd p incoming ts Fresh a) h) [
        | inl e' ↦ inr (subst Fresh e' fr')
        | inr (inl k) ↦ inl k
        | inr (inr k) ↦ elim (has-cases {D = D} a j nil nil k) [
          | inl e' ↦ inr (subst Fresh e' fr)
          | inr (inl k) ↦ cc
          | inr (inr k) ↦ cc
        ]
      ]

  -- The result has no index twice.
  pub Inserts-IsSeparate :
      {t t' : Trie D} {adv : Bool} {target : ℕ}
      → Inserts nd p incoming ts Fresh t t' adv target
      → ((j : ℕ) → Fresh j → has t j ≡ false)
      → IsSeparate t
      → IsSeparate t'
  Inserts-IsSeparate (leaf a fr) new s = (refl, refl, λ j h. cc, tt, tt)
  Inserts-IsSeparate (again e) new s = s
  Inserts-IsSeparate (left {i} {l} {r} {l'} e ins) new s = (
    not_true→false (has l' i) (λ k. elim (Inserts-has i ins k) [
      | inl old ↦ true-ne-false old s.0
      | inr fr ↦ absent_here i i l r (new i fr) refl
    ]),
    s.1,
    λ j h. elim (Inserts-has j ins h) [
      | inl old ↦ s.2 j old
      | inr fr ↦ absent_right i j l r (new j fr)
    ],
    Inserts-IsSeparate ins (λ j fr. absent_left i j l r (new j fr)) s.3,
    s.4,
  )
  Inserts-IsSeparate (right {i} {l} {r} {r'} e ins) new s = (
    s.0,
    not_true→false (has r' i) (λ k. elim (Inserts-has i ins k) [
      | inl old ↦ true-ne-false old s.1
      | inr fr ↦ absent_here i i l r (new i fr) refl
    ]),
    λ j h. not_true→false (has r' j) (λ k. elim (Inserts-has j ins k) [
      | inl old ↦ true-ne-false old (s.2 j h)
      | inr fr ↦ true-ne-false h (absent_left i j l r (new j fr))
    ]),
    s.3,
    Inserts-IsSeparate ins (λ j fr. absent_right i j l r (new j fr)) s.4,
  )
  Inserts-IsSeparate (above_left {i} {f} {q} {d} {l} {r} a fr e) new s =
      (new a fr, refl, λ j h. refl, s, tt)
  Inserts-IsSeparate (above_right {i} {f} {q} {d} {l} {r} a fr e) new s =
      (refl, new a fr, λ j h. cc, tt, s)
  Inserts-IsSeparate (fork_left {i} {f} {q} {d} {l} {r} a a' c m fr fr' ne fork tr) new s = (
    or_false (a == a') (false || false) (ne→not_== a a' ne) refl,
    new a' fr',
    λ j h. subst (λ k. has (node i q f d l r) k ≡ false) (is_leaf a j h) (new a fr),
    (refl, refl, λ j h. cc, tt, tt),
    s,
  )
  Inserts-IsSeparate (fork_right {i} {f} {q} {d} {l} {r} a a' c m fr fr' ne fork tr) new s = (
    new a' fr',
    or_false (a == a') (false || false) (ne→not_== a a' ne) refl,
    λ j h.
        or_false (a == j) (false || false)
          (ne→not_== a j
            (λ e'. true-ne-false h (subst (λ k. has (node i q f d l r) k ≡ false) e' (new a fr))))
          refl,
    s,
    (refl, refl, λ j h. cc, tt, tt),
  )
