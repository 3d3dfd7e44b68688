-- ===== src/Tree/Trie/Timed.antt =====
-- The times of a trie: no node has a later time than a node above it, and a mutation whose time is
-- not before any of them keeps that.
pub mod Insert
pub mod Withdraw
use slash.Base.{
  ℕ, ◌≡◌, refl, Bool, true, false, not, ◌&&◌, Bool-cases, inl, inr, sym, subst, if◌then◌else◌,
  arith,
}
use slash.Prefix.{Prefix}
use slash.Timestamp.{Timestamp, ts_lt, ts_eq, ts_zero}
use slash.Timestamp.Order.{
  NotAfter, NotAfter-refl, NotAfter-trans, NotAfter-max_left, NotAfter-max_right, max-NotAfter,
  zero-NotAfter, max-eq,
}
use slash.Node.{NodeData, merge_ancestor}
use slash.Node.Laws.{ts_max, timestamp-merge_ancestor}
use slash.Tree.Trie.{Trie, nil, node}
use slash.Tree.Trie.Insert.{bumped, advances, new_payload}

module _ {D : Type 0} (nd : NodeData D) where
  -- No node has a time after `c`.
  abbrev pub NoneAfter : Timestamp → Trie D → Type 0
  NoneAfter c nil = Unit
  NoneAfter c (node i p f d l r) = NotAfter (nd.timestamp d) c × NoneAfter c l × NoneAfter c r

  abbrev pub IsTimed : Trie D → Type 0
  IsTimed nil = Unit
  IsTimed (node i p f d l r) =
      NoneAfter (nd.timestamp d) l × NoneAfter (nd.timestamp d) r × IsTimed l × IsTimed r

  pub NoneAfter-later :
      (c c' : Timestamp) (t : Trie D) → NotAfter c c' → NoneAfter c t → NoneAfter c' t
  NoneAfter-later c c' nil h n = tt
  NoneAfter-later c c' (node i p f d l r) h (nd_, nl, nr) = (
    NotAfter-trans (nd.timestamp d) c c' nd_ h,
    NoneAfter-later c c' l h nl,
    NoneAfter-later c c' r h nr,
  )

  -- The time after a merge.
  abbrev pub merged : D → Timestamp → Timestamp
  merged d ts = nd.timestamp (merge_ancestor nd d ts)

  pub merged_own : (d : D) (ts : Timestamp) → NotAfter (nd.timestamp d) (merged d ts)
  merged_own d ts = rw (timestamp-merge_ancestor nd d ts) (NotAfter-max_left (nd.timestamp d) ts)

  pub merged_given : (d : D) (ts : Timestamp) → NotAfter ts (merged d ts)
  merged_given d ts = rw (timestamp-merge_ancestor nd d ts) (NotAfter-max_right (nd.timestamp d) ts)

  pub merged_least :
      (d : D) (ts c : Timestamp)
      → NotAfter (nd.timestamp d) c
      → NotAfter ts c
      → NotAfter (merged d ts) c
  merged_least d ts c h k =
      rw (timestamp-merge_ancestor nd d ts) (max-NotAfter (nd.timestamp d) ts c h k)

  -- A merge that leaves the time was not with a later one.
  merged_same :
      (d : D) (ts : Timestamp)
      → not (ts_eq (merged d ts) (nd.timestamp d)) ≡ false
      → NotAfter ts (nd.timestamp d)
  merged_same d ts h =
      let e = rw (timestamp-merge_ancestor nd d ts) at h in
      max-eq (nd.timestamp d) ts (ground (arith, e))

  module _ (p : Prefix) (incoming : D) (ts : Timestamp) (Fresh : ℕ → Type 0) where
    -- What an insertion leaves: the times are in order, and where the time of the subtree did not
    -- advance it has none that is later than before.
    abbrev pub Times : Trie D → Trie D → Bool → Type 0
    Times t t' adv =
        NoneAfter ts t'
        × IsTimed t'
        × (adv ≡ false → (c : Timestamp) → NoneAfter c t → NoneAfter c t')

    pub new_time : NotAfter (nd.timestamp (new_payload nd p incoming ts Fresh)) ts
    new_time = rw (nd.timestamp-announce nd.default incoming ts) (NotAfter-refl ts)

    -- A new node above `t`, which is none later than `ts`.
    pub covers :
        (i f : ℕ) (q : Prefix) (d : D) (l r : Trie D) (c : Timestamp)
        → IsTimed (node i q f d l r)
        → NotAfter (nd.timestamp d) c
        → NoneAfter c (node i q f d l r)
    covers i f q d l r c timed h = (
      h,
      NoneAfter-later (nd.timestamp d) c l h timed.0,
      NoneAfter-later (nd.timestamp d) c r h timed.1,
    )

    abbrev pub Keeps : Bool → Trie D → Trie D → Type 0
    Keeps adv t t' = adv ≡ false → (c : Timestamp) → NoneAfter c t → NoneAfter c t'

    abbrev pub raised : Bool → D → Timestamp
    raised adv d = nd.timestamp (bumped nd p incoming ts Fresh adv d)

    -- A frame above a subtree that went from `t` to `t'`.
    pub bump_own : (adv : Bool) (d : D) → NotAfter (nd.timestamp d) (raised adv d)
    bump_own true d = merged_own d ts
    bump_own false d = NotAfter-refl (nd.timestamp d)

    pub bump_least :
        (adv : Bool) (d : D) → NotAfter (nd.timestamp d) ts → NotAfter (raised adv d) ts
    bump_least true d h = merged_least d ts ts h (NotAfter-refl ts)
    bump_least false d h = h

    pub bump_covers :
        (adv : Bool) (d : D) (t t' : Trie D)
        → NoneAfter ts t'
        → Keeps adv t t'
        → NoneAfter (nd.timestamp d) t
        → NoneAfter (raised adv d) t'
    bump_covers true d t t' none_after keeps h =
        NoneAfter-later ts (merged d ts) t' (merged_given d ts) none_after
    bump_covers false d t t' none_after keeps h = keeps refl (nd.timestamp d) h

    pub bump_keeps :
        (adv : Bool) (d : D) (c : Timestamp)
        → advances nd p incoming ts Fresh adv d ≡ false
        → NotAfter (nd.timestamp d) c
        → NotAfter (raised adv d) c
    bump_keeps true d c same h =
        merged_least d ts c h (NotAfter-trans ts (nd.timestamp d) c (merged_same d ts same) h)
    bump_keeps false d c same h = h

    pub sub_keeps :
        (adv : Bool) (d : D) (t t' : Trie D) (c : Timestamp)
        → advances nd p incoming ts Fresh adv d ≡ false
        → NoneAfter ts t'
        → Keeps adv t t'
        → NotAfter (nd.timestamp d) c
        → NoneAfter c t
        → NoneAfter c t'
    sub_keeps true d t t' c same none_after keeps h n =
        NoneAfter-later ts c t' (NotAfter-trans ts (nd.timestamp d) c (merged_same d ts same) h)
          none_after
    sub_keeps false d t t' c same none_after keeps h n = keeps refl c n
