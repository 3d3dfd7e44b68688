-- ===== src/Tree/Thin/Contents.antt =====
-- The trie that the browser's copy of a tree holds: the server's with thin payloads.
use slash.Base.{
  ℕ, zero, suc, ◌≡◌, ◌↔◌, inl, inr, refl, some, List, [], ◌∷◌, map, get_elem?, length, sym, ◌∙◌, ap,
}
use slash.Prefix.{Prefix}
use slash.Node.{Node, ThinData, ThickData, thin_of_thick}
use slash.Slab.{VecSlab, with_entries_mapped_from}
use slash.Slab.Alloc.{IsSlab}
use slash.Tree.{RadixTree, thin_node, from_thick_tree}
use slash.Tree.Trie.{
  Trie, nil, node, root_of, has, IsSeparate, IsUnder, IsTrie, Announced, Stored, count_announced,
}
use slash.Tree.Ready.{IsReady}

abbrev pub thin_trie : Trie ThickData → Trie ThinData
thin_trie nil = nil
thin_trie (node i p f d l r) = node i p f (thin_of_thick d) (thin_trie l) (thin_trie r)

root_of-thin_trie : (t : Trie ThickData) → root_of (thin_trie t) ≡ root_of t
root_of-thin_trie nil = refl
root_of-thin_trie (node i p f d l r) = refl

has-thin_trie : (t : Trie ThickData) (j : ℕ) → has (thin_trie t) j ≡ has t j
has-thin_trie nil j = refl
has-thin_trie (node i p f d l r) j = rw (has-thin_trie l j, has-thin_trie r j) refl

thin_trie-IsSeparate : (t : Trie ThickData) → IsSeparate t → IsSeparate (thin_trie t)
thin_trie-IsSeparate nil s = tt
thin_trie-IsSeparate (node i p f d l r) (a, b, apart, sl, sr) = (
  has-thin_trie l i ∙ a,
  has-thin_trie r i ∙ b,
  λ j h. has-thin_trie r j ∙ apart j (sym (has-thin_trie l j) ∙ h),
  thin_trie-IsSeparate l sl,
  thin_trie-IsSeparate r sr,
)

thin_trie-IsUnder :
    (q : Prefix) (b : ℕ) (t : Trie ThickData) → IsUnder q b t → IsUnder q b (thin_trie t)
thin_trie-IsUnder q b nil u = tt
thin_trie-IsUnder q b (node i p f d l r) u = u

thin_trie-IsTrie : (t : Trie ThickData) → IsTrie t → IsTrie (thin_trie t)
thin_trie-IsTrie nil w = tt
thin_trie-IsTrie (node i p f d l r) (hp, ul, ur, wl, wr) = (
  hp,
  thin_trie-IsUnder p 0 l ul,
  thin_trie-IsUnder p 1 r ur,
  thin_trie-IsTrie l wl,
  thin_trie-IsTrie r wr,
)

pub Announced-thin_trie :
    (t : Trie ThickData) (x : Prefix) → Announced t x ↔ Announced (thin_trie t) x
Announced-thin_trie nil x = (λ h. h, λ h. h)
Announced-thin_trie (node i p f d l r) x =
    let hl = Announced-thin_trie l x in
    let hr = Announced-thin_trie r x in
    (
      λ h. elim h [
        | inl k ↦ inl k
        | inr (inl k) ↦ inr (inl (hl.0 k))
        | inr (inr k) ↦ inr (inr (hr.0 k))
      ],
      λ h. elim h [
        | inl k ↦ inl k
        | inr (inl k) ↦ inr (inl (hl.1 k))
        | inr (inr k) ↦ inr (inr (hr.1 k))
      ],
    )

count_announced-thin_trie : (t : Trie ThickData) → count_announced (thin_trie t) ≡ count_announced t
unfolding count_announced
count_announced-thin_trie nil = refl
count_announced-thin_trie (node i p f d l r) =
    rw (count_announced-thin_trie l, count_announced-thin_trie r) refl

get_elem?-map_thin :
    (xs : List (Node ThickData)) (i : ℕ) (n : Node ThickData)
    → get_elem? xs i ≡ some n
    → get_elem? (map thin_node xs) i ≡ some (thin_node n)
get_elem?-map_thin [] i n e = cc
get_elem?-map_thin (x ∷ xs) zero n e = let same : x ≡ n = cc in ap (λ m. some (thin_node m)) same
get_elem?-map_thin (x ∷ xs) (suc i) n e = get_elem?-map_thin xs i n e

length-map_thin : (xs : List (Node ThickData)) → length (map thin_node xs) ≡ length xs
length-map_thin [] = refl
length-map_thin (x ∷ xs) = ap suc (length-map_thin xs)

module _ (slab : VecSlab (Node ThickData)) where
  abbrev thin_slab : VecSlab (Node ThinData)
  thin_slab = record {
    entries = map thin_node slab.entries;
    free_list = slab.free_list;
    max_capacity = slab.max_capacity;
  }

  thin_slab-IsSlab : IsSlab slab → IsSlab thin_slab
  thin_slab-IsSlab valid =
      let same = length-map_thin slab.entries in
      record {
        reserved = rw same valid.reserved;
        freed_in_range = rw same valid.freed_in_range;
        freed_once = valid.freed_once;
        fits = rw same valid.fits;
        capacity = valid.capacity;
      }

  thin_slab-Stored : (t : Trie ThickData) → Stored slab t → Stored thin_slab (thin_trie t)
  unfolding thin_node
  thin_slab-Stored nil st = tt
  thin_slab-Stored (node i p f d l r) (here, live, sl, sr) = (
    rw (root_of-thin_trie l, root_of-thin_trie r) (get_elem?-map_thin slab.entries i _ here),
    record {
      nonzero = live.nonzero;
      in_range = rw (length-map_thin slab.entries) live.in_range;
      not_freed = live.not_freed;
    },
    thin_slab-Stored l sl,
    thin_slab-Stored r sr,
  )

-- The browser's copy holds the thin trie, and has as much room.
pub from_thick_tree-IsReady :
    (n : ℕ) (tree : RadixTree ThickData) (t : Trie ThickData)
    → IsReady n tree t
    → IsReady n (from_thick_tree tree) (thin_trie t)
unfolding from_thick_tree with_entries_mapped_from
from_thick_tree-IsReady n tree t ready =
    let rep = ready.represents in
    record {
      represents = record {
        slab = thin_slab-IsSlab tree.slab rep.slab;
        stored = thin_slab-Stored tree.slab t rep.stored;
        root = rep.root ∙ sym (root_of-thin_trie t);
        separate = thin_trie-IsSeparate t rep.separate;
        shape = thin_trie-IsTrie t rep.shape;
        tally = rep.tally ∙ sym (count_announced-thin_trie t);
      };
      entries = rw (length-map_thin tree.slab.entries) ready.entries;
      counts = ready.counts;
    }
