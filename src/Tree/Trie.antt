-- ===== src/Tree/Trie.antt =====
-- The trie that a slab stands for, as an inductive tree: what a node of the slab holds, with the
-- tree below each child in place of its index. The predicates on it are the invariants that
-- tree.rs keeps.
pub mod Insert
pub mod Withdraw
pub mod Timed
pub mod Sweep
use slash.Base.{
  ℕ, zero, suc, ◌+◌, ◌≤◌, ◌<◌, ◌≡◌, ◌⊎◌, refl, Bool, true, false, ◌||◌, Option, none, some, ◌==◌,
  if◌then◌else◌, bit_and, get_elem?, arith, ◌∙◌, Bool-cases, inl, inr, ==→eq, eq→==, or-cases,
  or_left, or_right, not_true→false,
}
use slash.Prefix.{Prefix}
use slash.Prefix.Laws.{IsPrefix}
use slash.Address.Agree.{Agree, address_bit}
use slash.Node.{Node, announced_flag}
use slash.Slab.{VecSlab}
use slash.Slab.Alloc.{IsSlab, IsLive, room}
use slash.Tree.{RadixTree}

pub data Trie (D : Type 0) : Type 0 where
  nil : Trie D
  node : (idx : ℕ) (prefix : Prefix) (flags : ℕ) (payload : D) (left right : Trie D) → Trie D

abbrev pub flagged : ℕ → Bool
flagged f = bit_and f announced_flag == announced_flag

module _ {D : Type 0} where
  abbrev pub root_of : Trie D → Option ℕ
  root_of nil = none
  root_of (node i p f d l r) = some i

  -- The node of the slab.
  abbrev pub slab_node : Prefix → ℕ → D → Trie D → Trie D → Node D
  slab_node p f d l r = record {
    child0 = root_of l;
    child1 = root_of r;
    prefix = p;
    flags = f;
    payload = d;
  }

  -- The indices of a trie.
  abbrev pub has : Trie D → ℕ → Bool
  has nil j = false
  has (node i p f d l r) j = (i == j) || (has l j || has r j)

  abbrev pub Apart : Trie D → Trie D → Type 0
  Apart l r = (j : ℕ) → has l j ≡ true → has r j ≡ false

  -- No index occurs twice: the slab holds a tree, without sharing and without cycles.
  abbrev pub IsSeparate : Trie D → Type 0
  IsSeparate nil = Unit
  IsSeparate (node i p f d l r) =
      (has l i ≡ false) × (has r i ≡ false) × Apart l r × IsSeparate l × IsSeparate r

  -- The slab holds the trie.
  abbrev pub Stored : VecSlab (Node D) → Trie D → Type 0
  Stored s nil = Unit
  Stored s (node i p f d l r) =
      (get_elem? s.entries i ≡ some (slab_node p f d l r)) × IsLive s i × Stored s l × Stored s r

  -- A subtree below a prefix `p` on the side `b`: its root is longer, begins with `p`, and goes on
  -- with the bit `b`.
  abbrev pub IsUnder : Prefix → ℕ → Trie D → Type 0
  IsUnder p b nil = Unit
  IsUnder p b (node i q f d l r) =
      (p.len < q.len) × Agree p.len p.bits q.bits × (address_bit q.bits p.len ≡ b)

  -- A path-compressed radix trie.
  abbrev pub IsTrie : Trie D → Type 0
  IsTrie nil = Unit
  IsTrie (node i p f d l r) = IsPrefix p × IsUnder p 0 l × IsUnder p 1 r × IsTrie l × IsTrie r

  -- The announced node `i` has the prefix `x`.
  abbrev pub AnnouncedAt : Trie D → ℕ → Prefix → Type 0
  AnnouncedAt nil i x = ⊥
  AnnouncedAt (node j p f d l r) i x =
      ((j ≡ i) × (p ≡ x) × (flagged f ≡ true)) ⊎ AnnouncedAt l i x ⊎ AnnouncedAt r i x

  -- The prefix is announced.
  abbrev pub Announced : Trie D → Prefix → Type 0
  Announced nil x = ⊥
  Announced (node j p f d l r) x = ((p ≡ x) × (flagged f ≡ true)) ⊎ Announced l x ⊎ Announced r x

  -- Fuel for a walk: each step goes to a longer prefix, of at most 128 bits.
  abbrev pub IsEnough : ℕ → Trie D → Type 0
  IsEnough fuel nil = Unit
  IsEnough fuel (node i p f d l r) = 128 < fuel + p.len

  pub IsEnough-child :
      (fuel b : ℕ) (p : Prefix) (t : Trie D)
      → 128 < suc fuel + p.len
      → IsUnder p b t
      → IsEnough fuel t
  IsEnough-child fuel b p nil h u = tt
  IsEnough-child fuel b p (node i q f d l r) h u = omega (arith, u.0)

  -- A walk over a trie and the fuel of a walk from the root.
  pub IsEnough-root : (t : Trie D) → IsEnough 130 t
  IsEnough-root nil = tt
  IsEnough-root (node i p f d l r) = omega arith

  pub has-cases :
      (i j : ℕ) (l r : Trie D)
      → ((i == j) || (has l j || has r j)) ≡ true
      → (i ≡ j) ⊎ (has l j ≡ true) ⊎ (has r j ≡ true)
  has-cases i j l r h = elim (or-cases (i == j) (has l j || has r j) h) [
    | inl e ↦ inl (==→eq i j e)
    | inr e ↦ inr (or-cases (has l j) (has r j) e)
  ]

  pub has_left :
      (i j : ℕ) (l r : Trie D) → has l j ≡ true → ((i == j) || (has l j || has r j)) ≡ true
  has_left i j l r h = or_right (i == j) (has l j || has r j) (or_left (has l j) (has r j) h)

  pub has_right :
      (i j : ℕ) (l r : Trie D) → has r j ≡ true → ((i == j) || (has l j || has r j)) ≡ true
  has_right i j l r h = or_right (i == j) (has l j || has r j) (or_right (has l j) (has r j) h)

  pub has_self : (i : ℕ) (l r : Trie D) → ((i == i) || (has l i || has r i)) ≡ true
  has_self i l r = or_left (i == i) (has l i || has r i) (eq→== i i refl)

  -- A stored trie survives a change that spares its nodes.
  pub Stored-frame :
      (s s' : VecSlab (Node D)) (t : Trie D)
      → Stored s t
      → ((j : ℕ)
          → has t j ≡ true
          → IsLive s j
          → (get_elem? s'.entries j ≡ get_elem? s.entries j) × IsLive s' j)
      → Stored s' t
  Stored-frame s s' nil st same = tt
  Stored-frame s s' (node i p f d l r) (here, live, sl, sr) same =
      let k = same i (has_self i l r) live in
      (
        k.0 ∙ here,
        k.1,
        Stored-frame s s' l sl (λ j h. same j (has_left i j l r h)),
        Stored-frame s s' r sr (λ j h. same j (has_right i j l r h)),
      )

  -- Every index of a stored trie is live.
  pub IsLive-has :
      (s : VecSlab (Node D)) (t : Trie D) (j : ℕ) → Stored s t → has t j ≡ true → IsLive s j
  IsLive-has s nil j st h = cc
  IsLive-has s (node i p f d l r) j (here, live, sl, sr) h = elim (has-cases i j l r h) [
    | inl e ↦ rw e at live
    | inr (inl e) ↦ IsLive-has s l j sl e
    | inr (inr e) ↦ IsLive-has s r j sr e
  ]

  -- An index that is not live does not occur.
  pub not-has_fresh :
      (s : VecSlab (Node D)) (t : Trie D) (j : ℕ) → Stored s t → ¬ (IsLive s j) → has t j ≡ false
  not-has_fresh s t j st dead = not_true→false (has t j) (λ h. dead (IsLive-has s t j st h))

-- How many nodes are announced.
unfoldable pub count_announced : {D : Type 0} → Trie D → ℕ
count_announced nil = 0
count_announced (node i p f d l r) =
    (if flagged f then 1 else 0) + count_announced l + count_announced r

-- How many nodes there are.
unfoldable pub size : {D : Type 0} → Trie D → ℕ
size nil = 0
size (node i p f d l r) = 1 + size l + size r

-- What an update takes: at most two entries, each of which the trie has gained; the sweeps are not
-- counted on.
pub record IsCharged {D : Type 0} (tree tree' : RadixTree D) (t t' : Trie D) : Type 0 where
  pub space : room tree.slab + size t ≡ room tree'.slab + size t'
  pub grows : size t ≤ size t'
  pub at_most : size t' ≤ size t + 2
  pub counts : tree'.announced_count ≤ tree.announced_count + 1
  pub sweeps : tree'.sweep_count ≡ tree.sweep_count

-- The invariant of a `RadixTree`: its slab holds the trie, below its root, and the tally is right.
pub record Represents {D : Type 0} (t : RadixTree D) (x : Trie D) : Type 0 where
  pub slab : IsSlab t.slab
  pub stored : Stored t.slab x
  pub root : t.root ≡ root_of x
  pub separate : IsSeparate x
  pub shape : IsTrie x
  pub tally : t.announced_count ≡ count_announced x
