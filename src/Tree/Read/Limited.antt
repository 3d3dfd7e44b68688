-- ===== src/Tree/Read/Limited.antt =====
-- `limited_lookup` where no node is long enough to count by its length alone.
use slash.Base.{
  or_false_right, ℕ, zero, suc, ◌<◌, ◌≡◌, inl, inr, refl, Bool, false, ◌||◌, Option, none, some,
  ltb, leb, ◌==◌, arith, if◌then◌else◌, ap, ◌∙◌, get_elem?, Option-cases,
}
use slash.Base.Outcome.{Outcome-cases, Outcome, done, expect, ◌>>=◌}
use slash.Address.{Address}
use slash.Prefix
use slash.Prefix.{Prefix, max_prefix_len}
use slash.Node.{Node, is_announced, child}
use slash.Slab
use slash.Tree.{
  RadixTree, limited_loop, lookup_loop, limited_lookup_from, lookup_from, limited_lookup, lookup,
  walk_fuel,
}

module _ {D : Type 0} (get : ℕ → Outcome (Node D)) (n : ℕ)
    (short : (i : ℕ) (m : Node D) → get i ≡ done m → m.prefix.len < n) (q : Prefix) where
  -- A round at the node `cur`, with whether it counts and the rest of the walk.
  abbrev round :
      Bool → Node D → ℕ → Option ℕ → (ℕ → Option ℕ → Outcome (Option ℕ)) → Outcome (Option ℕ)
  round counts cur i ans loop =
      if ltb (Prefix.common_prefix_len cur.prefix q) cur.prefix.len
      then done ans
      else (let ans' = if counts then some i else ans in
          if cur.prefix.len == max_prefix_len
          then done ans'
          else (Prefix.bit_at q cur.prefix.len >>= λ bit. elim (child cur bit) [
            | some next ↦ loop next ans'
            | none ↦ done ans'
          ]))

  limited_loop-lookup_loop :
      (fuel i : ℕ) (ans : Option ℕ) → limited_loop get n q fuel i ans ≡ lookup_loop get q fuel i ans
  unfolding limited_loop lookup_loop
  limited_loop-lookup_loop zero i ans = refl
  limited_loop-lookup_loop (suc fuel) i ans =
      let rec : limited_loop get n q fuel ≡ lookup_loop get q fuel =
        λ j i ans. limited_loop-lookup_loop fuel i ans j in
      elim (Outcome-cases (get i)) [
        | inl (cur, e) ↦
            let lt = short i cur e in
            let not_long : leb n cur.prefix.len ≡ false = ground arith in
            let same : (is_announced cur || leb n cur.prefix.len) ≡ is_announced cur =
              rw not_long (or_false_right (is_announced cur)) in
            rw e (
              ap (λ counts. round counts cur i ans (limited_loop get n q fuel)) same
              ∙ ap (λ loop. round (is_announced cur) cur i ans loop) rec)
        | inr (inl e) ↦ rw e refl
        | inr (inr e) ↦ rw e refl
      ]

-- Where every entry of the slab has a prefix of fewer than n bits, limited_lookup with n as the
-- length from which structural nodes count is lookup.
pub limited_lookup-lookup :
    {D : Type 0} (t : RadixTree D) (addr : Address) (n : ℕ)
    → ((i : ℕ) (m : Node D) → get_elem? t.slab.entries i ≡ some m → m.prefix.len < n)
    → limited_lookup t addr n ≡ lookup t addr
unfolding limited_lookup lookup limited_lookup_from lookup_from Slab.get
limited_lookup-lookup {D} t addr n short =
    let loops : (q : Prefix) (r : ℕ)
        → limited_loop (Slab.get t.slab) n q walk_fuel r none
          ≡ lookup_loop (Slab.get t.slab) q walk_fuel r none =
      λ q r. limited_loop-lookup_loop (Slab.get t.slab) n read_short q walk_fuel r none in
    ap
      (λ (walk : Prefix → ℕ → Outcome (Option ℕ)). Prefix.from_address addr max_prefix_len >>= λ q.
        elim t.root [ none ↦ done none | some r ↦ walk q r ])
      (λ j q r. loops q r j)
  where
    read_short :
        (i : ℕ) (m : Node D) → expect (get_elem? t.slab.entries i) ≡ done m → m.prefix.len < n
    read_short i m e = elim (Option-cases (get_elem? t.slab.entries i)) [
      | inl out ↦ let e' = rw out at e in cc
      | inr (m', h) ↦
          let e' = rw h at e in let same : some m' ≡ some m = cc in short i m (rw h same)
    ]
