-- ===== src/Tree/Trie/Sweep.antt =====
-- A sweep on the trie: what is announced stays, and a structural node stays only where it parts two
-- subtrees.
use slash.Base.{
  ℕ, ◌+◌, ◌*◌, ◌≤◌, ◌<◌, ◌≡◌, ◌≢◌, ◌⊎◌, ◌↔◌, inl, inr, refl, true, false, none, arith,
  if◌then◌else◌, Bool-cases, sym, ◌∙◌, not_true→false, subst,
}
use slash.Prefix.{Prefix}
use slash.Tree.Trie.{
  Trie, nil, node, root_of, has, IsSeparate, IsUnder, IsTrie, Announced, flagged, count_announced,
  size, has-cases, has_left, has_right, has_self,
}

module _ {D : Type 0} where
  -- What a structural node leaves above its subtrees.
  unfoldable pub splice : ℕ → Prefix → ℕ → D → Trie D → Trie D → Trie D
  splice i p f d nil nil = nil
  splice i p f d nil (node j q g e l r) = node j q g e l r
  splice i p f d (node j q g e l r) nil = node j q g e l r
  splice i p f d (node j q g e l r) (node j' q' g' e' l' r') =
      node i p f d (node j q g e l r) (node j' q' g' e' l' r')

  unfoldable pub swept : Trie D → Trie D
  swept nil = nil
  swept (node i p f d l r) =
      let l' = swept l in
      let r' = swept r in if flagged f then node i p f d l' r' else splice i p f d l' r'

  pub swept_announced :
      (i : ℕ) (p : Prefix) (f : ℕ) (d : D) (l r : Trie D)
      → flagged f ≡ true
      → swept (node i p f d l r) ≡ node i p f d (swept l) (swept r)
  unfolding swept
  swept_announced i p f d l r on = rw on refl

  pub swept_structural :
      (i : ℕ) (p : Prefix) (f : ℕ) (d : D) (l r : Trie D)
      → flagged f ≡ false
      → swept (node i p f d l r) ≡ splice i p f d (swept l) (swept r)
  unfolding swept
  swept_structural i p f d l r off = rw off refl

  -- A property of tries that the root of a node, and both subtrees, give its splice.
  pub splice-cases :
      (P : Trie D → Type 0) (i : ℕ) (p : Prefix) (f : ℕ) (d : D) (l r : Trie D)
      → P nil
      → P l
      → P r
      → P (node i p f d l r)
      → P (splice i p f d l r)
  unfolding splice
  splice-cases P i p f d nil nil e a b c = e
  splice-cases P i p f d nil (node j q g x l r) e a b c = b
  splice-cases P i p f d (node j q g x l r) nil e a b c = a
  splice-cases P i p f d (node j q g x l r) (node j' q' g' x' l' r') e a b c = c

  pub swept-cases :
      (P : Trie D → Type 0) (i : ℕ) (p : Prefix) (f : ℕ) (d : D) (l r : Trie D)
      → P nil
      → P (swept l)
      → P (swept r)
      → P (node i p f d (swept l) (swept r))
      → P (swept (node i p f d l r))
  unfolding swept
  swept-cases P i p f d l r e a b c = elim (Bool-cases (flagged f)) [
    | inl on ↦ rw on c
    | inr off ↦ rw off (splice-cases P i p f d (swept l) (swept r) e a b c)
  ]

  -- A sweep brings no index in.
  pub has-swept : (t : Trie D) (j : ℕ) → has (swept t) j ≡ true → has t j ≡ true
  unfolding swept
  has-swept nil j h = h
  has-swept (node i p f d l r) j h0 =
      swept-cases (λ t. has t j ≡ true → has (node i p f d l r) j ≡ true) i p f d l r (λ h. cc)
        (λ h. has_left i j l r (has-swept l j h)) (λ h. has_right i j l r (has-swept r j h))
        (λ h. elim (has-cases i j (swept l) (swept r) h) [
          | inl e ↦ ground (arith, has_self i l r, e)
          | inr (inl e) ↦ has_left i j l r (has-swept l j e)
          | inr (inr e) ↦ has_right i j l r (has-swept r j e)
        ])
        h0

  pub not-has-swept : (t : Trie D) (j : ℕ) → has t j ≡ false → has (swept t) j ≡ false
  not-has-swept t j h = not_true→false (has (swept t) j) (λ k. let e = has-swept t j k in cc)

  pub swept-IsSeparate : (t : Trie D) → IsSeparate t → IsSeparate (swept t)
  unfolding swept
  swept-IsSeparate nil s = tt
  swept-IsSeparate (node i p f d l r) (a, b, apart, sl, sr) =
      let sl' = swept-IsSeparate l sl in
      let sr' = swept-IsSeparate r sr in
      swept-cases IsSeparate i p f d l r tt sl' sr' (
        not-has-swept l i a,
        not-has-swept r i b,
        λ j h. not-has-swept r j (apart j (has-swept l j h)),
        sl',
        sr',
      )

  -- What is below `p`, which is below `q`, is below `q`.
  IsUnder-below :
      (q p : Prefix) (b b' i f : ℕ) (d : D) (l r t : Trie D)
      → IsUnder q b (node i p f d l r)
      → IsUnder p b' t
      → IsUnder q b t
  IsUnder-below q p b b' i f d l r nil u v = tt
  IsUnder-below q p b b' i f d l r (node j x g e l' r') u v = (
    omega (arith, u.0, v.0),
    λ k hk. u.1 k hk ∙ v.1 k (omega (arith, u.0)),
    sym (v.1 q.len u.0) ∙ u.2,
  )

  IsUnder-swept :
      (q : Prefix) (b : ℕ) (t : Trie D) → IsUnder q b t → IsTrie t → IsUnder q b (swept t)
  unfolding swept
  IsUnder-swept q b nil u w = tt
  IsUnder-swept q b (node i p f d l r) u w =
      swept-cases (IsUnder q b) i p f d l r tt
        (IsUnder-below q p b 0 i f d l r (swept l) u (IsUnder-swept p 0 l w.1 w.3))
        (IsUnder-below q p b 1 i f d l r (swept r) u (IsUnder-swept p 1 r w.2 w.4)) u

  pub swept-IsTrie : (t : Trie D) → IsTrie t → IsTrie (swept t)
  unfolding swept
  swept-IsTrie nil w = tt
  swept-IsTrie (node i p f d l r) w =
      let wl = swept-IsTrie l w.3 in
      let wr = swept-IsTrie r w.4 in
      swept-cases IsTrie i p f d l r tt wl wr
        (w.0, IsUnder-swept p 0 l w.1 w.3, IsUnder-swept p 1 r w.2 w.4, wl, wr)

  -- What a structural node leaves announces what its subtrees do.
  splice-Announced :
      (i : ℕ) (p : Prefix) (f : ℕ) (d : D) (l r : Trie D) (x : Prefix)
      → flagged f ≡ false
      → Announced (splice i p f d l r) x ↔ (Announced l x ⊎ Announced r x)
  unfolding splice
  splice-Announced i p f d nil nil x off = (λ h. absurd h, λ h. elim h [ inl k ↦ k | inr k ↦ k ])
  splice-Announced i p f d nil (node j q g e l r) x off =
      (λ h. inr h, λ h. elim h [ inl k ↦ absurd k | inr k ↦ k ])
  splice-Announced i p f d (node j q g e l r) nil x off =
      (λ h. inl h, λ h. elim h [ inl k ↦ k | inr k ↦ absurd k ])
  splice-Announced i p f d (node j q g e l r) (node j' q' g' e' l' r') x off =
      (λ h. elim h [ inl k ↦ (let on = k.1 in cc) | inr k ↦ k ], λ h. inr h)

  -- A sweep keeps what is announced.
  pub Announced-swept : (t : Trie D) (x : Prefix) → Announced (swept t) x ↔ Announced t x
  unfolding swept
  Announced-swept nil x = (λ h. h, λ h. h)
  Announced-swept (node i p f d l r) x =
      let hl = Announced-swept l x in
      let hr = Announced-swept r x in
      elim (Bool-cases (flagged f)) [
        | inl on ↦
            subst (λ t. Announced t x ↔ Announced (node i p f d l r) x)
              (sym (swept_announced i p f d l r on))
              (
                λ h. elim h [
                  | inl k ↦ inl k
                  | inr (inl k) ↦ inr (inl (hl.0 k))
                  | inr (inr k) ↦ inr (inr (hr.0 k))
                ],
                λ h. elim h [
                  | inl k ↦ inl k
                  | inr (inl k) ↦ inr (inl (hl.1 k))
                  | inr (inr k) ↦ inr (inr (hr.1 k))
                ],
              )
        | inr off ↦
            let both = splice-Announced i p f d (swept l) (swept r) x off in
            subst (λ t. Announced t x ↔ Announced (node i p f d l r) x)
              (sym (swept_structural i p f d l r off))
              (
                λ h. inr (elim (both.0 h) [ inl k ↦ inl (hl.0 k) | inr k ↦ inr (hr.0 k) ]),
                λ h. elim h [
                  | inl k ↦ (let on = k.1 in cc)
                  | inr (inl k) ↦ both.1 (inl (hl.1 k))
                  | inr (inr k) ↦ both.1 (inr (hr.1 k))
                ],
              )
      ]

  splice-count :
      (i : ℕ) (p : Prefix) (f : ℕ) (d : D) (l r : Trie D)
      → flagged f ≡ false
      → count_announced (splice i p f d l r) ≡ count_announced l + count_announced r
  unfolding splice count_announced
  splice-count i p f d nil nil off = refl
  splice-count i p f d nil (node j q g e l r) off = omega arith
  splice-count i p f d (node j q g e l r) nil off = omega arith
  splice-count i p f d (node j q g e l r) (node j' q' g' e' l' r') off = rw off (omega arith)

  pub count_announced-swept : (t : Trie D) → count_announced (swept t) ≡ count_announced t
  unfolding swept count_announced
  count_announced-swept nil = refl
  count_announced-swept (node i p f d l r) =
      let hl = count_announced-swept l in
      let hr = count_announced-swept r in
      elim (Bool-cases (flagged f)) [
        | inl on ↦ rw (swept_announced i p f d l r on, hl, hr) refl
        | inr off ↦ rw off (splice-count i p f d (swept l) (swept r) off ∙ omega (arith, hl, hr))
      ]

-- Every structural node parts two subtrees.
abbrev pub IsCompressed : {D : Type 0} → Trie D → Type 0
IsCompressed nil = Unit
IsCompressed (node i p f d l r) =
    ((flagged f ≡ true) ⊎ ((root_of l ≢ none) × (root_of r ≢ none)))
    × IsCompressed l
    × IsCompressed r

module _ {D : Type 0} where
  splice-IsCompressed :
      (i : ℕ) (p : Prefix) (f : ℕ) (d : D) (l r : Trie D)
      → IsCompressed l
      → IsCompressed r
      → IsCompressed (splice i p f d l r)
  unfolding splice
  splice-IsCompressed i p f d nil nil cl cr = tt
  splice-IsCompressed i p f d nil (node j q g e l r) cl cr = cr
  splice-IsCompressed i p f d (node j q g e l r) nil cl cr = cl
  splice-IsCompressed i p f d (node j q g e l r) (node j' q' g' e' l' r') cl cr =
      (inr (λ h. cc, λ h. cc), cl, cr)

  pub swept-IsCompressed : (t : Trie D) → IsCompressed (swept t)
  unfolding swept
  swept-IsCompressed nil = tt
  swept-IsCompressed (node i p f d l r) =
      let cl = swept-IsCompressed l in
      let cr = swept-IsCompressed r in
      elim (Bool-cases (flagged f)) [
        | inl on ↦ rw on (inl on, cl, cr)
        | inr off ↦ rw off (splice-IsCompressed i p f d (swept l) (swept r) cl cr)
      ]

  splice-size :
      (i : ℕ) (p : Prefix) (f : ℕ) (d : D) (l r : Trie D)
      → size (splice i p f d l r) ≤ 1 + size l + size r
  unfolding size
  splice-size i p f d l r =
      splice-cases (λ t. size t ≤ 1 + size l + size r) i p f d l r (omega arith) (omega arith)
        (omega arith) (omega arith)

  pub size-swept : (t : Trie D) → size (swept t) ≤ size t
  unfolding swept size
  size-swept nil = omega arith
  size-swept (node i p f d l r) =
      let hl = size-swept l in
      let hr = size-swept r in
      swept-cases (λ t. size t ≤ 1 + size l + size r) i p f d l r (omega arith) (omega arith)
        (omega arith) (omega arith)

  nonempty :
      (t : Trie D)
      → root_of t ≢ none
      → (size t ≡ 0) ⊎ (size t < 2 * count_announced t)
      → size t < 2 * count_announced t
  unfolding size
  nonempty nil ne h = absurd (ne refl)
  nonempty (node i p f d l r) ne (inl e) = omega arith
  nonempty (node i p f d l r) ne (inr h) = h

  -- At most as many structural nodes as announced ones, less one.
  pub size-IsCompressed :
      (t : Trie D) → IsCompressed t → (size t ≡ 0) ⊎ (size t < 2 * count_announced t)
  unfolding size count_announced
  size-IsCompressed nil c = inl refl
  size-IsCompressed (node i p f d l r) (here, cl, cr) =
      let hl = size-IsCompressed l cl in
      let hr = size-IsCompressed r cr in
      inr (elim here [
        | inl on ↦ rw on (ground (arith, hl, hr))
        | inr (nl, nr) ↦ (let el = nonempty l nl hl in let er = nonempty r nr hr in omega arith)
      ])
