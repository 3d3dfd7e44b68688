-- ===== src/Tree/Read.antt =====
-- Longest-prefix lookup against the set of announced prefixes.
pub mod Lookup
pub mod Limited
use slash.Base.{
  ℕ, zero, suc, ◌+◌, ◌≤◌, ◌<◌, min, ◌≡◌, ◌≢◌, ◌⊎◌, inl, inr, refl, Bool, true, false, ◌||◌, Option,
  none, some, arith, ltb, ◌==◌, if◌then◌else◌, sym, ◌∙◌, ap, subst, Bool-cases, ltb→lt, not_ltb→le,
  lt→ltb, le→not_ltb, ==→eq, eq→==, get_elem?,
}
use native.Mathlib.Decide.{dec_lt}
use slash.Base.Outcome.{Outcome, done, ◌>>=◌}
use slash.Address.{Address}
use slash.Address.Agree.{address_bit, address_bit-lt, Agree, IsAddress, IsCommonLen, bit_at_lem}
use slash.Prefix
use slash.Prefix.{Prefix, max_prefix_len}
use slash.Prefix.Laws.{IsPrefix, IsTruncation, common_prefix_len-lem}
use slash.Node.{Node, is_announced, child}
use slash.Tree.{lookup_loop}
use slash.Tree.Trie.{
  Trie, nil, node, root_of, slab_node, IsTrie, IsUnder, flagged, AnnouncedAt, IsEnough,
  IsEnough-child,
}

module _ {D : Type 0} (get : ℕ → Outcome (Node D)) where
  -- What `get` reads is the trie.
  abbrev pub Reads : Trie D → Type 0
  Reads nil = Unit
  Reads (node i p f d l r) = (get i ≡ done (slab_node p f d l r)) × Reads l × Reads r

-- The prefix is the first bits of the address.
abbrev pub Covers : Prefix → Address → Type 0
Covers p a = Agree p.len p.bits a

-- The longest-match rule: `some i` is an announced node of `t` that covers the address, at least as
-- long as every other; `none` means that no announced node covers it.
abbrev pub IsLongestMatch : {D : Type 0} → Trie D → Address → Option ℕ → Type 0
IsLongestMatch t a none = (i : ℕ) (x : Prefix) → AnnouncedAt t i x → Covers x a → ⊥
IsLongestMatch t a (some i) =
    (p : Prefix) × AnnouncedAt t i p
    × Covers p a
    × ((j : ℕ) (x : Prefix) → AnnouncedAt t j x → Covers x a → x.len ≤ p.len)

module _ {D : Type 0} where
  -- Every announced prefix of a subtree begins with the prefix above and its bit.
  pub AnnouncedAt-IsUnder :
      (q : Prefix) (b : ℕ) (t : Trie D) (i : ℕ) (x : Prefix)
      → IsTrie t
      → IsUnder q b t
      → AnnouncedAt t i x
      → (q.len < x.len) × Agree q.len q.bits x.bits × (address_bit x.bits q.len ≡ b)
  AnnouncedAt-IsUnder q b nil i x w u at = elim at [ ]
  AnnouncedAt-IsUnder q b (node j p f d l r) i x (wp, ul, ur, wl, wr) u (inl (e, ep, ef)) =
      rw ep at u
  AnnouncedAt-IsUnder q b (node j p f d l r) i x (wp, ul, ur, wl, wr) u (inr (inl at)) =
      let rec = AnnouncedAt-IsUnder p 0 l i x wl ul at in
      (
        omega (arith, u.0, rec.0),
        λ k hk. u.1 k hk ∙ rec.1 k (omega (arith, u.0)),
        sym (rec.1 q.len u.0) ∙ u.2,
      )
  AnnouncedAt-IsUnder q b (node j p f d l r) i x (wp, ul, ur, wl, wr) u (inr (inr at)) =
      let rec = AnnouncedAt-IsUnder p 1 r i x wr ur at in
      (
        omega (arith, u.0, rec.0),
        λ k hk. u.1 k hk ∙ rec.1 k (omega (arith, u.0)),
        sym (rec.1 q.len u.0) ∙ u.2,
      )

-- No announced node of `t` covers the address.
abbrev NoneCovers : {D : Type 0} → Trie D → Address → Type 0
NoneCovers t a = (i : ℕ) (x : Prefix) → AnnouncedAt t i x → Covers x a → ⊥

-- A walk of `t` that came with `ans` and returned `res`.
abbrev Found : {D : Type 0} → Trie D → Address → Option ℕ → Option ℕ → Type 0
Found t a ans res =
    ((res ≡ ans) × NoneCovers t a) ⊎ ((i : ℕ) × (res ≡ some i) × IsLongestMatch t a (some i))

module _ {D : Type 0} (i : ℕ) (p : Prefix) (f : ℕ) (d : D) (l r : Trie D) (a : Address)
    (wt : IsTrie (node i p f d l r)) where
  -- The side of the address below a node that covers it.
  NoneCovers-other :
      (b : ℕ) (t : Trie D) → IsTrie t → IsUnder p b t → address_bit a p.len ≢ b → NoneCovers t a
  NoneCovers-other b t w u ne j x at c =
      let k = AnnouncedAt-IsUnder p b t j x w u at in ne (sym (c p.len k.0) ∙ k.2)

  -- A node that the address does not begin with, and so no node below it.
  NoneCovers-all :
      (c : ℕ) → c < p.len → address_bit p.bits c ≢ address_bit a c → NoneCovers (node i p f d l r) a
  NoneCovers-all c lt ne j x (inl (e, ep, ef)) cov = ne (
      ap (λ (q : Prefix). address_bit q.bits c) ep
      ∙ cov c (subst (λ (q : Prefix). c < q.len) ep lt))
  NoneCovers-all c lt ne j x (inr (inl at)) cov =
      let k = AnnouncedAt-IsUnder p 0 l j x wt.3 wt.1 at in
      ne (k.1 c lt ∙ cov c (omega (arith, k.0)))
  NoneCovers-all c lt ne j x (inr (inr at)) cov =
      let k = AnnouncedAt-IsUnder p 1 r j x wt.4 wt.2 at in
      ne (k.1 c lt ∙ cov c (omega (arith, k.0)))

  module _ (covers : Covers p a) (ans res : Option ℕ) where
    Found-left :
        NoneCovers r a
        → Found l a (if flagged f then some i else ans) res
        → Found (node i p f d l r) a ans res
    Found-left nr (inl (e, nl)) = elim (Bool-cases (flagged f)) [
      | inl on ↦ inr (
        i,
        e ∙ rw on refl,
        (
          p,
          inl (refl, refl, on),
          covers,
          λ j x at c. elim at [
            | inl h ↦ rw h.1 (omega arith)
            | inr (inl h) ↦ absurd (nl j x h c)
            | inr (inr h) ↦ absurd (nr j x h c)
          ],
        ),
      )
      | inr off ↦ inl (
        e ∙ rw off refl,
        λ j x at c. elim at [ inl h ↦ cc | inr (inl h) ↦ nl j x h c | inr (inr h) ↦ nr j x h c ],
      )
    ]
    Found-left nr (inr (k, e, (q, at, cq, longest))) = inr (
      k,
      e,
      (
        q,
        inr (inl at),
        cq,
        λ j x at' c. elim at' [
          | inl h ↦
              let u = AnnouncedAt-IsUnder p 0 l k q wt.3 wt.1 at in
              rw (sym h.1) (omega (arith, u.0))
          | inr (inl h) ↦ longest j x h c
          | inr (inr h) ↦ absurd (nr j x h c)
        ],
      ),
    )

    Found-right :
        NoneCovers l a
        → Found r a (if flagged f then some i else ans) res
        → Found (node i p f d l r) a ans res
    Found-right nl (inl (e, nr)) = elim (Bool-cases (flagged f)) [
      | inl on ↦ inr (
        i,
        e ∙ rw on refl,
        (
          p,
          inl (refl, refl, on),
          covers,
          λ j x at c. elim at [
            | inl h ↦ rw h.1 (omega arith)
            | inr (inl h) ↦ absurd (nl j x h c)
            | inr (inr h) ↦ absurd (nr j x h c)
          ],
        ),
      )
      | inr off ↦ inl (
        e ∙ rw off refl,
        λ j x at c. elim at [ inl h ↦ cc | inr (inl h) ↦ nl j x h c | inr (inr h) ↦ nr j x h c ],
      )
    ]
    Found-right nl (inr (k, e, (q, at, cq, longest))) = inr (
      k,
      e,
      (
        q,
        inr (inr at),
        cq,
        λ j x at' c. elim at' [
          | inl h ↦
              let u = AnnouncedAt-IsUnder p 1 r k q wt.4 wt.2 at in
              rw (sym h.1) (omega (arith, u.0))
          | inr (inl h) ↦ absurd (nl j x h c)
          | inr (inr h) ↦ longest j x h c
        ],
      ),
    )
