-- ===== src/Tree/Trie/Insert/Shape.antt =====
-- Insertion keeps the shape of the trie.
use slash.Base.{ℕ, ◌≡◌, ◌≢◌, Bool, arith, sym, ◌∙◌}
use native.Mathlib.Decide.{dec_lt}
use slash.Prefix.{Prefix}
use slash.Prefix.Laws.{IsPrefix, IsTruncation}
use slash.Timestamp.{Timestamp}
use slash.Node.{NodeData}
use slash.Tree.Trie.{Trie, IsTrie, IsUnder}
use slash.Tree.Trie.Insert.{
  Extends, IsFork, Inserts, leaf, again, left, right, above_left, above_right, fork_left,
  fork_right,
}

module _ {p q m : Prefix} {c b b' : ℕ} (fork : IsFork p q c b b')
    (tr : IsTruncation p.bits c m) where
  -- The split prefix stands above both prefixes.
  Extends-left : Extends m b p
  Extends-left = (
    omega (arith, fork.shorter_left, tr.length),
    λ k hk. tr.agree k (omega (arith, tr.length)),
    rw (tr.length) (fork.left_bit),
  )

  Extends-right : Extends m b' q
  Extends-right = (
    omega (arith, fork.shorter_right, tr.length),
    λ k hk. tr.agree k (omega (arith, tr.length)) ∙ fork.agree k (omega (arith, tr.length)),
    rw (tr.length) (fork.right_bit),
  )

  -- What stands above both prefixes stands above the split prefix.
  Extends-split : (o : Prefix) (e : ℕ) → b ≢ b' → Extends o e p → Extends o e q → Extends o e m
  Extends-split o e ne ep eq = elim (dec_lt o.len c) [
    | yes lt ↦ (
      omega (arith, tr.length),
      λ k hk. ep.1 k hk ∙ sym (tr.agree k (omega arith)),
      tr.agree o.len lt ∙ ep.2,
    )
    | no ge ↦ elim (dec_lt c o.len) [
      | yes below ↦
          absurd (ne (sym fork.left_bit ∙ sym (ep.1 c below) ∙ eq.1 c below ∙ fork.right_bit))
      | no not_below ↦
          let same : o.len ≡ c = omega arith in
          absurd
            (ne (sym fork.left_bit ∙ (rw same at ep.2) ∙ sym (rw same at eq.2) ∙ fork.right_bit))
    ]
  ]

module _ {D : Type 0} (nd : NodeData D) (p : Prefix) (incoming : D) (ts : Timestamp)
    (Fresh : ℕ → Type 0) where
  -- What stands above the trie stands above the result, if it stands above the new prefix.
  Inserts-IsUnder :
      (q : Prefix) (b : ℕ) {t t' : Trie D} {adv : Bool} {target : ℕ}
      → Inserts nd p incoming ts Fresh t t' adv target
      → Extends q b p
      → IsUnder q b t
      → IsUnder q b t'
  Inserts-IsUnder q b (leaf a fr) e u = e
  Inserts-IsUnder q b (again h) e u = u
  Inserts-IsUnder q b (left h ins) e u = u
  Inserts-IsUnder q b (right h ins) e u = u
  Inserts-IsUnder q b (above_left a fr h) e u = e
  Inserts-IsUnder q b (above_right a fr h) e u = e
  Inserts-IsUnder q b (fork_left a a' c m fr fr' ne fork tr) e u =
      Extends-split fork tr q b (λ h. cc) e u
  Inserts-IsUnder q b (fork_right a a' c m fr fr' ne fork tr) e u =
      Extends-split fork tr q b (λ h. cc) e u

  -- The result is a path-compressed trie.
  pub Inserts-IsTrie :
      {t t' : Trie D} {adv : Bool} {target : ℕ}
      → Inserts nd p incoming ts Fresh t t' adv target
      → IsPrefix p
      → IsTrie t
      → IsTrie t'
  Inserts-IsTrie (leaf a fr) hp w = (hp, tt, tt, tt, tt)
  Inserts-IsTrie (again h) hp w = w
  Inserts-IsTrie (left {q} h ins) hp w =
      (w.0, Inserts-IsUnder q 0 ins h w.1, w.2, Inserts-IsTrie ins hp w.3, w.4)
  Inserts-IsTrie (right {q} h ins) hp w =
      (w.0, w.1, Inserts-IsUnder q 1 ins h w.2, w.3, Inserts-IsTrie ins hp w.4)
  Inserts-IsTrie (above_left a fr h) hp w = (hp, h, tt, w, tt)
  Inserts-IsTrie (above_right a fr h) hp w = (hp, tt, h, tt, w)
  Inserts-IsTrie (fork_left a a' c m fr fr' ne fork tr) hp w =
      (tr.valid, Extends-left fork tr, Extends-right fork tr, (hp, tt, tt, tt, tt), w)
  Inserts-IsTrie (fork_right a a' c m fr fr' ne fork tr) hp w =
      (tr.valid, Extends-right fork tr, Extends-left fork tr, w, (hp, tt, tt, tt, tt))
