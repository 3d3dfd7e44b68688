-- ===== src/Tree/Trie/Insert/Contents.antt =====
-- Insertion announces its prefix and changes no other's announcement.
use slash.Base.{ℕ, ◌+◌, ◌≡◌, ◌⊎◌, inl, inr, refl, Bool, arith, sym, ◌∙◌}
use slash.Prefix.{Prefix}
use slash.Timestamp.{Timestamp}
use slash.Node.{NodeData}
use slash.Node.Laws.{flag_or}
use slash.Tree.Trie.{Trie, Announced, AnnouncedAt, count_announced}
use slash.Tree.Trie.Insert.{
  Inserts, leaf, again, left, right, above_left, above_right, fork_left, fork_right, gain,
}

module _ {D : Type 0} (nd : NodeData D) (p : Prefix) (incoming : D) (ts : Timestamp)
    (Fresh : ℕ → Type 0) where
  -- Every announced prefix of the result is the new one or was announced.
  pub Announced-after :
      {t t' : Trie D} {adv : Bool} {target : ℕ} (x : Prefix)
      → Inserts nd p incoming ts Fresh t t' adv target
      → Announced t' x
      → (p ≡ x) ⊎ Announced t x
  Announced-after x (leaf a fr) (inl (e, _)) = inl e
  Announced-after x (leaf a fr) (inr h) = elim h [ inl k ↦ absurd k | inr k ↦ absurd k ]
  Announced-after x (again e) (inl (e', _)) = inl (sym e ∙ e')
  Announced-after x (again e) (inr h) = inr (inr h)
  Announced-after x (left e ins) (inl h) = inr (inl h)
  Announced-after x (left e ins) (inr (inl h)) = elim (Announced-after x ins h) [
    | inl k ↦ inl k
    | inr k ↦ inr (inr (inl k))
  ]
  Announced-after x (left e ins) (inr (inr h)) = inr (inr (inr h))
  Announced-after x (right e ins) (inl h) = inr (inl h)
  Announced-after x (right e ins) (inr (inl h)) = inr (inr (inl h))
  Announced-after x (right e ins) (inr (inr h)) = elim (Announced-after x ins h) [
    | inl k ↦ inl k
    | inr k ↦ inr (inr (inr k))
  ]
  Announced-after x (above_left a fr e) (inl (e', _)) = inl e'
  Announced-after x (above_left a fr e) (inr (inl h)) = inr h
  Announced-after x (above_left a fr e) (inr (inr h)) = absurd h
  Announced-after x (above_right a fr e) (inl (e', _)) = inl e'
  Announced-after x (above_right a fr e) (inr (inl h)) = absurd h
  Announced-after x (above_right a fr e) (inr (inr h)) = inr h
  Announced-after x (fork_left a b c m fr fr' ne fork tr) (inl (_, off)) = cc
  Announced-after x (fork_left a b c m fr fr' ne fork tr) (inr (inl h)) = elim h [
    | inl k ↦ inl k.0
    | inr k ↦ elim k [ inl z ↦ absurd z | inr z ↦ absurd z ]
  ]
  Announced-after x (fork_left a b c m fr fr' ne fork tr) (inr (inr h)) = inr h
  Announced-after x (fork_right a b c m fr fr' ne fork tr) (inl (_, off)) = cc
  Announced-after x (fork_right a b c m fr fr' ne fork tr) (inr (inl h)) = inr h
  Announced-after x (fork_right a b c m fr fr' ne fork tr) (inr (inr h)) = elim h [
    | inl k ↦ inl k.0
    | inr k ↦ elim k [ inl z ↦ absurd z | inr z ↦ absurd z ]
  ]

  -- What was announced still is.
  pub Announced-before :
      {t t' : Trie D} {adv : Bool} {target : ℕ} (x : Prefix)
      → Inserts nd p incoming ts Fresh t t' adv target
      → Announced t x
      → Announced t' x
  Announced-before x (leaf a fr) h = absurd h
  Announced-before x (again {f} e) (inl (e', _)) = inl (e', flag_or f)
  Announced-before x (again e) (inr h) = inr h
  Announced-before x (left e ins) (inl h) = inl h
  Announced-before x (left e ins) (inr (inl h)) = inr (inl (Announced-before x ins h))
  Announced-before x (left e ins) (inr (inr h)) = inr (inr h)
  Announced-before x (right e ins) (inl h) = inl h
  Announced-before x (right e ins) (inr (inl h)) = inr (inl h)
  Announced-before x (right e ins) (inr (inr h)) = inr (inr (Announced-before x ins h))
  Announced-before x (above_left a fr e) h = inr (inl h)
  Announced-before x (above_right a fr e) h = inr (inr h)
  Announced-before x (fork_left a b c m fr fr' ne fork tr) h = inr (inr h)
  Announced-before x (fork_right a b c m fr fr' ne fork tr) h = inr (inl h)

  -- The target is an announced node with the new prefix.
  pub AnnouncedAt-target :
      {t t' : Trie D} {adv : Bool} {target : ℕ}
      → Inserts nd p incoming ts Fresh t t' adv target
      → AnnouncedAt t' target p
  AnnouncedAt-target (leaf a fr) = inl (refl, refl, refl)
  AnnouncedAt-target (again {f} e) = inl (refl, e, flag_or f)
  AnnouncedAt-target (left e ins) = inr (inl (AnnouncedAt-target ins))
  AnnouncedAt-target (right e ins) = inr (inr (AnnouncedAt-target ins))
  AnnouncedAt-target (above_left a fr e) = inl (refl, refl, refl)
  AnnouncedAt-target (above_right a fr e) = inl (refl, refl, refl)
  AnnouncedAt-target (fork_left a b c m fr fr' ne fork tr) = inr (inl (inl (refl, refl, refl)))
  AnnouncedAt-target (fork_right a b c m fr fr' ne fork tr) = inr (inr (inl (refl, refl, refl)))

  -- The tally goes up by the gain.
  pub count_announced-gain :
      {t t' : Trie D} {adv : Bool} {target : ℕ}
      (ins : Inserts nd p incoming ts Fresh t t' adv target)
      → count_announced t' ≡ gain nd p incoming ts Fresh ins + count_announced t
  unfolding count_announced gain
  count_announced-gain (leaf a fr) = refl
  count_announced-gain (again {f} e) = ground (arith, flag_or f)
  count_announced-gain (left e ins) = omega (arith, count_announced-gain ins)
  count_announced-gain (right e ins) = omega (arith, count_announced-gain ins)
  count_announced-gain (above_left a fr e) = omega arith
  count_announced-gain (above_right a fr e) = omega arith
  count_announced-gain (fork_left a b c m fr fr' ne fork tr) = omega arith
  count_announced-gain (fork_right a b c m fr fr' ne fork tr) = omega arith
