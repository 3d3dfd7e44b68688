-- ===== src/Tree/Trie/Withdraw.antt =====
-- `withdraw_recursive` as a relation between the trie before, the trie after and `ts_advanced`,
-- where the prefix is announced; and what the withdrawal leaves announced.
use slash.Base.{
  ℕ, suc, ◌-◌, ◌^◌, ◌≡◌, ◌≢◌, inl, inr, refl, Bool, true, not, ◌&&◌, bit_and, if◌then◌else◌, arith,
  sym, ◌∙◌, ap, subst,
}
use slash.Address.Agree.{address_bit}
use slash.Prefix.{Prefix}
use slash.Timestamp.{Timestamp, ts_lt, ts_eq}
use slash.Node.{NodeData, merge_ancestor, announced_flag}
use slash.Node.Laws.{flag_and}
use slash.Tree.Trie.{
  Trie, nil, node, root_of, has, IsSeparate, IsUnder, IsTrie, Announced, flagged, count_announced,
  size,
}
use slash.Tree.Trie.Insert.{Extends}

-- What is announced below a prefix extends it.
pub Announced-Extends :
    {D : Type 0} (q : Prefix) (b : ℕ) (t : Trie D) (x : Prefix)
    → IsUnder q b t
    → IsTrie t
    → Announced t x
    → Extends q b x
Announced-Extends q b nil x u w h = absurd h
Announced-Extends q b (node i q' f d l r) x u w (inl (e, _)) = subst (λ y. Extends q b y) e u
Announced-Extends q b (node i q' f d l r) x u w (inr (inl h)) =
    let e = Announced-Extends q' 0 l x w.1 w.3 h in
    (
      omega (arith, u.0, e.0),
      λ k hk. u.1 k hk ∙ e.1 k (omega (arith, u.0)),
      sym (e.1 q.len u.0) ∙ u.2,
    )
Announced-Extends q b (node i q' f d l r) x u w (inr (inr h)) =
    let e = Announced-Extends q' 1 r x w.2 w.4 h in
    (
      omega (arith, u.0, e.0),
      λ k hk. u.1 k hk ∙ e.1 k (omega (arith, u.0)),
      sym (e.1 q.len u.0) ∙ u.2,
    )

module _ {D : Type 0} (nd : NodeData D) (p : Prefix) (ts : Timestamp) where
  abbrev pub raised : Bool → D → D
  raised adv d = if adv then merge_ancestor nd d ts else d

  abbrev pub raises : Bool → D → Bool
  raises adv d = adv && not (ts_eq (nd.timestamp (merge_ancestor nd d ts)) (nd.timestamp d))

  pub data Withdraws : Trie D → Trie D → Bool → Type 0 where
    here :
        {i f : ℕ} {q : Prefix} {d : D} {l r : Trie D}
        → q ≡ p
        → flagged f ≡ true
        → Withdraws
            (node i q f d l r)
            (node i q (bit_and f (2 ^ 32 - 1 - announced_flag)) (nd.apply_withdraw d ts) l r)
            (ts_lt (nd.timestamp d) ts)
    left :
        {i f : ℕ} {q : Prefix} {d : D} {l r l' : Trie D} {adv : Bool}
        → Extends q 0 p
        → Withdraws l l' adv
        → Withdraws (node i q f d l r) (node i q f (raised adv d) l' r) (raises adv d)
    right :
        {i f : ℕ} {q : Prefix} {d : D} {l r r' : Trie D} {adv : Bool}
        → Extends q 1 p
        → Withdraws r r' adv
        → Withdraws (node i q f d l r) (node i q f (raised adv d) l r') (raises adv d)

  pub root-Withdraws : {t t' : Trie D} {adv : Bool} → Withdraws t t' adv → root_of t' ≡ root_of t
  root-Withdraws (here e h) = refl
  root-Withdraws (left e wd) = refl
  root-Withdraws (right e wd) = refl

  pub has-Withdraws : {t t' : Trie D} {adv : Bool} (j : ℕ) → Withdraws t t' adv → has t' j ≡ has t j
  has-Withdraws j (here e h) = refl
  has-Withdraws j (left {i} {r} e wd) = rw (has-Withdraws j wd) refl
  has-Withdraws j (right {i} {l} e wd) = rw (has-Withdraws j wd) refl

  pub Withdraws-IsSeparate :
      {t t' : Trie D} {adv : Bool} → Withdraws t t' adv → IsSeparate t → IsSeparate t'
  Withdraws-IsSeparate (here e h) s = s
  Withdraws-IsSeparate (left {i} e wd) (a, b, apart, sl, sr) = (
    has-Withdraws i wd ∙ a,
    b,
    λ j h. apart j (sym (has-Withdraws j wd) ∙ h),
    Withdraws-IsSeparate wd sl,
    sr,
  )
  Withdraws-IsSeparate (right {i} e wd) (a, b, apart, sl, sr) = (
    a,
    has-Withdraws i wd ∙ b,
    λ j h. has-Withdraws j wd ∙ apart j h,
    sl,
    Withdraws-IsSeparate wd sr,
  )

  Withdraws-IsUnder :
      {t t' : Trie D} {adv : Bool} (q : Prefix) (b : ℕ)
      → Withdraws t t' adv
      → IsUnder q b t
      → IsUnder q b t'
  Withdraws-IsUnder q b (here e h) u = u
  Withdraws-IsUnder q b (left e wd) u = u
  Withdraws-IsUnder q b (right e wd) u = u

  pub Withdraws-IsTrie : {t t' : Trie D} {adv : Bool} → Withdraws t t' adv → IsTrie t → IsTrie t'
  Withdraws-IsTrie (here e h) w = w
  Withdraws-IsTrie (left {q} e wd) w =
      (w.0, Withdraws-IsUnder q 0 wd w.1, w.2, Withdraws-IsTrie wd w.3, w.4)
  Withdraws-IsTrie (right {q} e wd) w =
      (w.0, w.1, Withdraws-IsUnder q 1 wd w.2, w.3, Withdraws-IsTrie wd w.4)

  pub count_announced-Withdraws :
      {t t' : Trie D} {adv : Bool}
      → Withdraws t t' adv
      → count_announced t ≡ suc (count_announced t')
  unfolding count_announced
  count_announced-Withdraws (here {f} e h) = ground (arith, flag_and f)
  count_announced-Withdraws (left e wd) = omega (arith, count_announced-Withdraws wd)
  count_announced-Withdraws (right e wd) = omega (arith, count_announced-Withdraws wd)

  pub size-Withdraws : {t t' : Trie D} {adv : Bool} → Withdraws t t' adv → size t' ≡ size t
  unfolding size
  size-Withdraws (here e h) = refl
  size-Withdraws (left e wd) = rw (size-Withdraws wd) refl
  size-Withdraws (right e wd) = rw (size-Withdraws wd) refl

  -- What is withdrawn was announced.
  pub Withdraws-Announced : {t t' : Trie D} {adv : Bool} → Withdraws t t' adv → Announced t p
  Withdraws-Announced (here e h) = inl (e, h)
  Withdraws-Announced (left e wd) = inr (inl (Withdraws-Announced wd))
  Withdraws-Announced (right e wd) = inr (inr (Withdraws-Announced wd))

  -- Everything else stays announced, and the prefix does not.
  pub Announced-before :
      {t t' : Trie D} {adv : Bool} (x : Prefix)
      → Withdraws t t' adv
      → Announced t x
      → p ≢ x
      → Announced t' x
  Announced-before x (here e h) (inl (e', _)) ne = absurd (ne (sym e ∙ e'))
  Announced-before x (here e h) (inr k) ne = inr k
  Announced-before x (left e wd) (inl k) ne = inl k
  Announced-before x (left e wd) (inr (inl k)) ne = inr (inl (Announced-before x wd k ne))
  Announced-before x (left e wd) (inr (inr k)) ne = inr (inr k)
  Announced-before x (right e wd) (inl k) ne = inl k
  Announced-before x (right e wd) (inr (inl k)) ne = inr (inl k)
  Announced-before x (right e wd) (inr (inr k)) ne = inr (inr (Announced-before x wd k ne))

  pub Announced-after :
      {t t' : Trie D} {adv : Bool} (x : Prefix)
      → Withdraws t t' adv
      → IsTrie t
      → Announced t' x
      → Announced t x × (p ≢ x)
  Announced-after x (here {f} e h) w (inl (e', k)) = let out = flag_and f in cc
  Announced-after x (here {q} {l} e h) w (inr (inl k)) =
      let below = Announced-Extends q 0 l x w.1 w.3 k in
      (
        inr (inl k),
        λ same.
            let y : q.len ≡ x.len = ap (λ (z : Prefix). z.len) (e ∙ same) in omega (arith, below.0),
      )
  Announced-after x (here {q} {r} e h) w (inr (inr k)) =
      let below = Announced-Extends q 1 r x w.2 w.4 k in
      (
        inr (inr k),
        λ same.
            let y : q.len ≡ x.len = ap (λ (z : Prefix). z.len) (e ∙ same) in omega (arith, below.0),
      )
  Announced-after x (left {q} e wd) w (inl (e', k)) = (
    inl (e', k),
    λ same.
        let y : q.len ≡ p.len = ap (λ (z : Prefix). z.len) (e' ∙ sym same) in omega (arith, e.0),
  )
  Announced-after x (left e wd) w (inr (inl k)) =
      let h = Announced-after x wd w.3 k in (inr (inl h.0), h.1)
  Announced-after x (left {q} {r} e wd) w (inr (inr k)) =
      let below = Announced-Extends q 1 r x w.2 w.4 k in
      (
        inr (inr k),
        λ same.
            let y = subst (λ (z : Prefix). address_bit z.bits q.len ≡ 0) same e.2 in
            omega (arith, below.2),
      )
  Announced-after x (right {q} e wd) w (inl (e', k)) = (
    inl (e', k),
    λ same.
        let y : q.len ≡ p.len = ap (λ (z : Prefix). z.len) (e' ∙ sym same) in omega (arith, e.0),
  )
  Announced-after x (right e wd) w (inr (inr k)) =
      let h = Announced-after x wd w.4 k in (inr (inr h.0), h.1)
  Announced-after x (right {q} {l} e wd) w (inr (inl k)) =
      let below = Announced-Extends q 0 l x w.1 w.3 k in
      (
        inr (inl k),
        λ same.
            let y = subst (λ (z : Prefix). address_bit z.bits q.len ≡ 1) same e.2 in
            omega (arith, below.2),
      )
