-- ===== src/Tree/Trie/Insert.antt =====
-- `insert_recursive` as a relation between the trie before, the trie after, `ts_advanced` and the target, with
-- one rule for each way that the code returns. The conditions are on the bits of the prefixes.
pub mod Shape
pub mod Separate
pub mod Contents
pub mod Size
use slash.Base.{
  ℕ, zero, suc, ◌+◌, ◌≤◌, ◌<◌, ◌≡◌, ◌≢◌, Bool, true, false, not, ◌&&◌, bit_or, if◌then◌else◌,
}
use slash.Address.Agree.{address_bit, Agree}
use slash.Prefix.{Prefix}
use slash.Prefix.Laws.{IsTruncation}
use slash.Timestamp.{Timestamp, ts_lt, ts_eq}
use slash.Node.{NodeData, merge_ancestor, announced_flag}
use slash.Tree.Trie.{Trie, nil, node, flagged}

-- `p` begins with `q` and the bit `b`.
abbrev pub Extends : Prefix → ℕ → Prefix → Type 0
Extends q b p = (q.len < p.len) × Agree q.len q.bits p.bits × (address_bit p.bits q.len ≡ b)

-- `p` and `q` part after their first `c` bits, where `p` goes on with `b` and `q` with `b'`.
pub record IsFork (p q : Prefix) (c b b' : ℕ) : Type 0 where
  pub shorter_left : c < p.len
  pub shorter_right : c < q.len
  pub agree : Agree c p.bits q.bits
  pub left_bit : address_bit p.bits c ≡ b
  pub right_bit : address_bit q.bits c ≡ b'

module _ {D : Type 0} (nd : NodeData D) (p : Prefix) (incoming : D) (ts : Timestamp)
    (Fresh : ℕ → Type 0) where
  -- The payload of the target where it is a new node.
  abbrev pub new_payload : D
  new_payload = nd.apply_announce nd.default incoming ts

  abbrev pub leaf_at : ℕ → Trie D
  leaf_at a = node a p announced_flag new_payload nil nil

  -- An ancestor's payload, and whether its time advanced.
  abbrev pub bumped : Bool → D → D
  bumped adv d = if adv then merge_ancestor nd d ts else d

  abbrev pub advances : Bool → D → Bool
  advances adv d = adv && not (ts_eq (nd.timestamp (merge_ancestor nd d ts)) (nd.timestamp d))

  pub data Inserts : Trie D → Trie D → Bool → ℕ → Type 0 where
    leaf : (a : ℕ) → Fresh a → Inserts nil (leaf_at a) true a
    again :
        {i f : ℕ} {q : Prefix} {d : D} {l r : Trie D}
        → q ≡ p
        → Inserts
            (node i q f d l r)
            (node i q (bit_or f announced_flag) (nd.apply_announce d incoming ts) l r)
            (ts_lt (nd.timestamp d) ts)
            i
    left :
        {i f : ℕ} {q : Prefix} {d : D} {l r l' : Trie D} {adv : Bool} {target : ℕ}
        → Extends q 0 p
        → Inserts l l' adv target
        → Inserts (node i q f d l r) (node i q f (bumped adv d) l' r) (advances adv d) target
    right :
        {i f : ℕ} {q : Prefix} {d : D} {l r r' : Trie D} {adv : Bool} {target : ℕ}
        → Extends q 1 p
        → Inserts r r' adv target
        → Inserts (node i q f d l r) (node i q f (bumped adv d) l r') (advances adv d) target
    above_left :
        {i f : ℕ} {q : Prefix} {d : D} {l r : Trie D} (a : ℕ)
        → Fresh a
        → Extends p 0 q
        → Inserts
            (node i q f d l r)
            (node a p announced_flag
              (merge_ancestor nd new_payload (nd.timestamp d))
              (node i q f d l r)
              nil)
            (ts_lt (nd.timestamp d) ts)
            a
    above_right :
        {i f : ℕ} {q : Prefix} {d : D} {l r : Trie D} (a : ℕ)
        → Fresh a
        → Extends p 1 q
        → Inserts
            (node i q f d l r)
            (node a p announced_flag
              (merge_ancestor nd new_payload (nd.timestamp d))
              nil
              (node i q f d l r))
            (ts_lt (nd.timestamp d) ts)
            a
    fork_left :
        {i f : ℕ} {q : Prefix} {d : D} {l r : Trie D} (a b c : ℕ) (m : Prefix)
        → Fresh a
        → Fresh b
        → a ≢ b
        → IsFork p q c 0 1
        → IsTruncation p.bits c m
        → Inserts
            (node i q f d l r)
            (node b m 0
              (merge_ancestor nd (merge_ancestor nd nd.default (nd.timestamp d)) ts)
              (leaf_at a)
              (node i q f d l r))
            (ts_lt (nd.timestamp d) ts)
            a
    fork_right :
        {i f : ℕ} {q : Prefix} {d : D} {l r : Trie D} (a b c : ℕ) (m : Prefix)
        → Fresh a
        → Fresh b
        → a ≢ b
        → IsFork p q c 1 0
        → IsTruncation p.bits c m
        → Inserts
            (node i q f d l r)
            (node b m 0
              (merge_ancestor nd (merge_ancestor nd nd.default (nd.timestamp d)) ts)
              (node i q f d l r)
              (leaf_at a))
            (ts_lt (nd.timestamp d) ts)
            a

  -- How many more prefixes are announced.
  unfoldable pub gain : {t t' : Trie D} {adv : Bool} {target : ℕ} → Inserts t t' adv target → ℕ
  gain (leaf a fr) = 1
  gain (again {f} h) = if flagged f then 0 else 1
  gain (left h ins) = gain ins
  gain (right h ins) = gain ins
  gain (above_left a fr h) = 1
  gain (above_right a fr h) = 1
  gain (fork_left a b c m fr fr' ne fork tr) = 1
  gain (fork_right a b c m fr fr' ne fork tr) = 1
