-- ===== src/Tree/Read/Lookup.antt =====
-- `lookup` finds the longest match, and ends.
use slash.Base.{
  ℕ, zero, suc, ◌≤◌, ◌<◌, min, ◌≡◌, ◌≢◌, inl, inr, refl, true, false, Option, none, some, arith,
  ltb, ◌==◌, if◌then◌else◌, sym, ◌∙◌, subst, Bool-cases, ltb→lt, not_ltb→le, ==→eq,
}
use native.Mathlib.Decide.{dec_lt}
use slash.Base.Outcome.{Outcome, done}
use slash.Address.{Address}
use slash.Address.Agree.{address_bit, address_bit-lt, IsAddress, IsCommonLen}
use slash.Prefix
use slash.Prefix.{Prefix, max_prefix_len}
use slash.Prefix.Laws.{
  IsTruncation, common_prefix_len-lem, bit_at-address_bit, new-IsTruncation, from_address-eq-new,
}
use slash.Node.{Node, is_announced}
use slash.Slab
use slash.Slab.{VecSlab}
use slash.Tree.{RadixTree, lookup_loop, lookup_from, lookup}
use slash.Tree.Trie.{
  Trie, nil, node, root_of, slab_node, IsTrie, IsUnder, flagged, IsEnough, IsEnough-child,
  IsEnough-root, Stored, Represents,
}
use slash.Tree.Read.{
  Reads, Covers, IsLongestMatch, NoneCovers, Found, NoneCovers-all, NoneCovers-other, Found-left,
  Found-right,
}

module _ {D : Type 0} (get : ℕ → Outcome (Node D)) (addr : Address) (q : Prefix)
    (full : IsTruncation addr 128 q) where
  -- What a walk of `t` returns, with its proof.
  abbrev Walk : Trie D → ℕ → Option ℕ → Type 0
  Walk nil fuel ans = Unit
  Walk (node i p f d l r) fuel ans =
      (res : Option ℕ) × (lookup_loop get q fuel i ans ≡ done res)
      × Found (node i p f d l r) addr ans res

  -- The rest of a walk, at a child that may be missing.
  Walk-child :
      (t : Trie D) (fuel : ℕ) (ans : Option ℕ)
      → Walk t fuel ans
      → (res : Option ℕ) × (◌≡◌ {A = Outcome (Option ℕ)}
          (elim (root_of t) [ some next ↦ lookup_loop get q fuel next ans | none ↦ done ans ])
          (done res))
        × Found t addr ans res
  Walk-child nil fuel ans w = (ans, refl, inl (refl, λ j x at. elim at [ ]))
  Walk-child (node i p f d l r) fuel ans w = w

  module _ (i : ℕ) (p : Prefix) (f : ℕ) (d : D) (l r : Trie D) (fuel : ℕ) (ans : Option ℕ)
      (here : get i ≡ done (slab_node p f d l r)) where
    abbrev answer : Option ℕ
    answer = if flagged f then some i else ans

    -- The three ways of a round: the address leaves the trie, ends at a full-length node, goes on.
    round_miss :
        ltb (Prefix.common_prefix_len p q) p.len ≡ true
        → lookup_loop get q (suc fuel) i ans ≡ done ans
    unfolding lookup_loop
    round_miss e = rw (here, e) refl

    round_last :
        ltb (Prefix.common_prefix_len p q) p.len ≡ false
        → (p.len == 128) ≡ true
        → lookup_loop get q (suc fuel) i ans ≡ done answer
    unfolding lookup_loop is_announced
    round_last e e' = rw (here, e, e') refl

    round_left :
        ltb (Prefix.common_prefix_len p q) p.len ≡ false
        → (p.len == 128) ≡ false
        → Prefix.bit_at q p.len ≡ done 0
        → lookup_loop get q (suc fuel) i ans
          ≡ elim (root_of l) [ some next ↦ lookup_loop get q fuel next answer | none ↦ done answer ]
    unfolding lookup_loop is_announced
    round_left e e' eb = rw (here, e, e', eb) refl

    round_right :
        ltb (Prefix.common_prefix_len p q) p.len ≡ false
        → (p.len == 128) ≡ false
        → Prefix.bit_at q p.len ≡ done 1
        → lookup_loop get q (suc fuel) i ans
          ≡ elim (root_of r) [ some next ↦ lookup_loop get q fuel next answer | none ↦ done answer ]
    unfolding lookup_loop is_announced
    round_right e e' eb = rw (here, e, e', eb) refl

  -- Below a full-length node there is nothing.
  NoneCovers-last :
      (p : Prefix) (b : ℕ) (t : Trie D) → 128 ≤ p.len → IsUnder p b t → IsTrie t → NoneCovers t addr
  NoneCovers-last p b nil h u w i x at = elim at [ ]
  NoneCovers-last p b (node j y f d l r) h u w i x at = absurd (omega (arith, w.0.short, u.0))

  lookup_loop-Found :
      (t : Trie D) (fuel : ℕ) (ans : Option ℕ)
      → Reads get t
      → IsTrie t
      → IsEnough fuel t
      → Walk t fuel ans
  lookup_loop-Found nil fuel ans rd w h = tt
  lookup_loop-Found (node i p f d l r) zero ans rd w h = absurd (omega (arith, w.0.short))
  lookup_loop-Found (node i p f d l r) (suc fuel) ans (here, rl, rr) w h =
      elim (Bool-cases (ltb c p.len)) [
        | inl less ↦
            let lt = ltb→lt c p.len less in
            (
              ans,
              round_miss i p f d l r fuel ans here less,
              inl (
                refl,
                NoneCovers-all i p f d l r addr w c lt λ e.
                    cl.differ (omega (arith, full.length))
                      (e ∙ sym (full.agree c (omega (arith, w.0.short)))),
              ),
            )
        | inr all ↦ elim (Bool-cases (p.len == 128)) [
          | inl last ↦
              let e = ==→eq p.len 128 last in
              (
                if flagged f then some i else ans,
                round_last i p f d l r fuel ans here all last,
                Found-left i p f d l r addr w (covers all) ans (if flagged f then some i else ans)
                    (NoneCovers-last p 1 r (omega arith) w.2 w.4)
                    (inl (refl, NoneCovers-last p 0 l (omega arith) w.1 w.3)),
              )
          | inr more ↦
              let lt : p.len < 128 = ground (arith, w.0.short) in
              let eb = bit_at-address_bit q p.len lt in
              let ans' : Option ℕ = if flagged f then some i else ans in
              elim (dec_lt (address_bit q.bits p.len) 1) [
                | yes zero_bit ↦
                    let z : address_bit q.bits p.len ≡ 0 = omega arith in
                    let k =
                      Walk-child l fuel ans'
                        (lookup_loop-Found l fuel ans' rl w.3 (IsEnough-child fuel 0 p l h w.1)) in
                    (
                      k.0,
                      round_left i p f d l r fuel ans here all more (rw z at eb) ∙ k.1,
                      Found-left i p f d l r addr w (covers all) ans k.0
                          (NoneCovers-other i p f d l r addr w 1 r w.4 w.2
                            (other 0 1 lt z (omega arith)))
                          k.2,
                    )
                | no one_bit ↦
                    let z : address_bit q.bits p.len ≡ 1 =
                      omega (arith, address_bit-lt q.bits p.len) in
                    let k =
                      Walk-child r fuel ans'
                        (lookup_loop-Found r fuel ans' rr w.4 (IsEnough-child fuel 1 p r h w.2)) in
                    (
                      k.0,
                      round_right i p f d l r fuel ans here all more (rw z at eb) ∙ k.1,
                      Found-right i p f d l r addr w (covers all) ans k.0
                          (NoneCovers-other i p f d l r addr w 0 l w.3 w.1
                            (other 1 0 lt z (omega arith)))
                          k.2,
                    )
              ]
        ]
      ]
    where
      c : ℕ
      c = Prefix.common_prefix_len p q

      cl : IsCommonLen p.bits q.bits (min p.len q.len) c
      cl = common_prefix_len-lem p q w.0 full.valid

      covers : ltb c p.len ≡ false → Covers p addr
      covers all k hk =
          let ge = not_ltb→le c p.len all in
          cl.agree k (omega arith) ∙ full.agree k (omega (arith, w.0.short))

      other :
          (b b' : ℕ)
          → p.len < 128
          → address_bit q.bits p.len ≡ b
          → b ≢ b'
          → address_bit addr p.len ≢ b'
      other b b' lt e ne e' = ne (sym e ∙ full.agree p.len lt ∙ e')

Stored-Reads : {D : Type 0} (s : VecSlab (Node D)) (x : Trie D) → Stored s x → Reads (Slab.get s) x
unfolding Slab.get
Stored-Reads s nil st = tt
Stored-Reads s (node i p f d l r) (here, live, sl, sr) =
    (rw here refl, Stored-Reads s l sl, Stored-Reads s r sr)

Found-longest :
    {D : Type 0} (t : Trie D) (a : Address) (res : Option ℕ)
    → Found t a none res
    → IsLongestMatch t a res
Found-longest t a res (inl (e, n)) = subst (λ o. IsLongestMatch t a o) (sym e) n
Found-longest t a res (inr (k, e, m)) = subst (λ o. IsLongestMatch t a o) (sym e) m

-- On a slab that holds a well-formed trie, and for an address of four words of 32 bits, lookup
-- returns without a panic and within its fuel; what it returns is the index of the longest
-- announced prefix that covers the address, or none where no announced prefix covers it.
pub lookup-IsLongestMatch :
    {D : Type 0} (t : RadixTree D) (x : Trie D) (addr : Address)
    → Represents t x
    → IsAddress addr
    → (res : Option ℕ) × (lookup t addr ≡ done res) × IsLongestMatch x addr res
unfolding lookup lookup_from
lookup-IsLongestMatch t x addr rep ha = elim (new-IsTruncation addr 128 ha) [
  | inr (big, _) ↦ absurd (omega arith)
  | inl (_, q, made, full) ↦
      let walked = Walk-child (Slab.get t.slab) addr q full x 130 none (
        lookup_loop-Found (Slab.get t.slab) addr q full x 130 none
          (Stored-Reads t.slab x rep.stored) rep.shape (IsEnough-root x)) in
      (
        walked.0,
        rw (from_address-eq-new addr 128, made, rep.root) walked.1,
        Found-longest x addr walked.0 walked.2,
      )
]
