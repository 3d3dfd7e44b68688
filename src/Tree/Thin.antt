-- ===== src/Tree/Thin.antt =====
-- `from_thick_tree`: the browser's tree answers as the server's.
pub mod Contents
use slash.Base.{
  ℕ, zero, suc, ◌≡◌, inl, inr, refl, Option, none, some, List, [], ◌∷◌, map, get_elem?,
  if◌then◌else◌, ltb, ◌==◌, ap,
}
use slash.Base.Outcome.{Outcome-cases, Outcome, done, panic, out_of_fuel, expect, ◌>>=◌}
use slash.Address.{Address}
use slash.Prefix
use slash.Prefix.{Prefix, max_prefix_len}
use slash.Node.{Node, ThinData, ThickData, is_announced, child}
use slash.Slab
use slash.Slab.{VecSlab, with_entries_mapped_from}
use slash.Tree.{RadixTree, lookup_loop, lookup_from, lookup, thin_node, from_thick_tree, walk_fuel}

abbrev thin_outcome : Outcome (Node ThickData) → Outcome (Node ThinData)
thin_outcome (done n) = done (thin_node n)
thin_outcome panic = panic
thin_outcome out_of_fuel = out_of_fuel

expect-map :
    (xs : List (Node ThickData)) (i : ℕ)
    → expect (get_elem? (map thin_node xs) i) ≡ thin_outcome (expect (get_elem? xs i))
expect-map [] i = refl
expect-map (x ∷ xs) zero = refl
expect-map (x ∷ xs) (suc i) = expect-map xs i

module _ (get : ℕ → Outcome (Node ThickData)) (get' : ℕ → Outcome (Node ThinData))
    (same : (i : ℕ) → get' i ≡ thin_outcome (get i)) (q : Prefix) where
  -- A round of the walk at the node `n`, with the rest of the walk.
  abbrev step :
      Node ThickData → ℕ → Option ℕ → (ℕ → Option ℕ → Outcome (Option ℕ)) → Outcome (Option ℕ)
  step n cur ans loop =
      if ltb (Prefix.common_prefix_len n.prefix q) n.prefix.len
      then done ans
      else (let ans' = if is_announced n then some cur else ans in
          if n.prefix.len == max_prefix_len
          then done ans'
          else (Prefix.bit_at q n.prefix.len >>= λ bit. elim (child n bit) [
            | some next ↦ loop next ans'
            | none ↦ done ans'
          ]))

  lookup_loop-thin :
      (fuel cur : ℕ) (ans : Option ℕ)
      → lookup_loop get' q fuel cur ans ≡ lookup_loop get q fuel cur ans
  unfolding lookup_loop is_announced thin_node
  lookup_loop-thin zero cur ans = refl
  lookup_loop-thin (suc fuel) cur ans =
      let rec : lookup_loop get' q fuel ≡ lookup_loop get q fuel =
        λ j cur ans. lookup_loop-thin fuel cur ans j in
      elim (Outcome-cases (get cur)) [
        | inl (n, e) ↦ rw (same cur, e) (ap (λ loop. step n cur ans loop) rec)
        | inr (inl e) ↦ rw (same cur, e) refl
        | inr (inr e) ↦ rw (same cur, e) refl
      ]

-- Lookup on the tree that from_thick_tree makes returns what it returns on the given tree, for
-- every tree and every address.
pub lookup-from_thick_tree :
    (t : RadixTree ThickData) (addr : Address) → lookup (from_thick_tree t) addr ≡ lookup t addr
unfolding lookup lookup_from from_thick_tree with_entries_mapped_from Slab.get
lookup-from_thick_tree t addr =
    let loops : (q : Prefix) (r : ℕ)
        → lookup_loop (Slab.get (from_thick_tree t).slab) q walk_fuel r none
          ≡ lookup_loop (Slab.get t.slab) q walk_fuel r none =
      λ q r.
        lookup_loop-thin (Slab.get t.slab) (Slab.get (from_thick_tree t).slab)
          (λ i. expect-map t.slab.entries i) q walk_fuel r none in
    ap
      (λ (walk : Prefix → ℕ → Outcome (Option ℕ)). Prefix.from_address addr max_prefix_len >>= λ q.
        elim t.root [ none ↦ done none | some r ↦ walk q r ])
      (λ j q r. loops q r j)
