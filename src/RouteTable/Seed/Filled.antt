-- ===== src/RouteTable/Seed/Filled.antt =====
-- `bulk_insert_routes` on a well-formed trie: it announces the prefixes of the routes and keeps the
-- others.
use mathlib.Core.List.Memᴰ.{Memᴰ, head, tail}
use slash.Base.{ℕ, ◌+◌, ◌≡◌, ◌↔◌, ◌⊎◌, inl, inr, refl, [], ◌∷◌, arith, length, subst, sym, ap}
use slash.Base.Outcome.{done}
use slash.Timestamp.{Timestamp}
use slash.Prefix.{Prefix}
use slash.Prefix.Laws.{IsPrefix}
use slash.Node.{ThickData, thick, thick_node_data}
use slash.Tree.Trie.{Trie, Announced}
use slash.Tree.Insert.Correct.{insert-IsInserted}
use slash.Tree.Ready.{IsReady, IsReady-charged}
use slash.RouteTable.{ThickTree, insert_routes}
use slash.RouteTable.Seed.{Routes}

-- The prefix has an entry in the map.
abbrev pub IsKey : Prefix → Routes → Type 0
IsKey p m = (ts : Timestamp) × Memᴰ {A = Prefix × Timestamp} (p, ts) m

abbrev pub AreRoutes : Routes → Type 0
AreRoutes m = (p : Prefix) → IsKey p m → IsPrefix p

-- What filling the trie `t` leaves.
pub record IsFilled (n : ℕ) (m : Routes) (tree tree' : ThickTree) (t : Trie ThickData)
    : Type 0 where
  pub after : Trie ThickData
  pub ready : IsReady n tree' after
  pub sweeps : tree'.sweep_count ≡ tree.sweep_count
  pub announced : (x : Prefix) → Announced after x ↔ (Announced t x ⊎ IsKey x m)

both_announced :
    (T0 T1 T2 : Prefix → Type 0) (p : Prefix) (ts : Timestamp) (rest : Routes)
    → ((x : Prefix) → T1 x ↔ ((p ≡ x) ⊎ T0 x))
    → ((x : Prefix) → T2 x ↔ (T1 x ⊎ IsKey x rest))
    → (x : Prefix) → T2 x ↔ (T0 x ⊎ IsKey x ((p, ts) ∷ rest))
both_announced T0 T1 T2 p ts rest first then_ x = (
  λ h. elim ((then_ x).0 h) [
    | inl h1 ↦ elim ((first x).0 h1) [
      | inl e ↦ inr (ts, head (λ i. (sym e i, ts)))
      | inr h0 ↦ inl h0
    ]
    | inr (ts', m) ↦ inr (ts', tail m)
  ],
  λ h. elim h [
    | inl h0 ↦ (then_ x).1 (inl ((first x).1 (inr h0)))
    | inr (ts', head e) ↦
        (then_ x).1 (inl ((first x).1 (inl (sym (ap (λ (r : Prefix × Timestamp). r.0) e)))))
    | inr (ts', tail m) ↦ (then_ x).1 (inr (ts', m))
  ],
)

pub insert_routes-IsFilled :
    (n : ℕ) (m : Routes) (tree : ThickTree) (t : Trie ThickData)
    → IsReady (length m + n) tree t
    → AreRoutes m
    → (tree' : ThickTree) × (insert_routes m tree ≡ done tree') × IsFilled n m tree tree' t
unfolding insert_routes
insert_routes-IsFilled n [] tree t ready routes =
    let none_left : length {A = Prefix × Timestamp} [] + n ≡ n = omega arith in
    (
      tree,
      refl,
      record {
        after = t;
        ready = subst (λ k. IsReady k tree t) none_left ready;
        sweeps = refl;
        announced = λ x. (λ h. inl h, λ h. elim h [ inl h0 ↦ h0 | inr (ts, m) ↦ elim m [ ] ]);
      },
    )
insert_routes-IsFilled n ((p, ts) ∷ rest) tree t ready routes =
    let one_more : length ((p, ts) ∷ rest) + n ≡ 1 + (length rest + n) = omega arith in
    let ready1 = subst (λ k. IsReady k tree t) one_more ready in
    let hp = routes p (ts, head refl) in
    let (target, s1, t1, runs1, rep1, ins, charged) =
      insert-IsInserted thick_node_data p (thick ts) ts (record { tree = tree; dirty = [] }) t
        ready1.represents hp (omega (arith, ready1.entries)) (omega (arith, ready1.counts)) in
    let (tree', runs, filled) =
      insert_routes-IsFilled n rest s1.tree t1
        (IsReady-charged (length rest + n) tree s1.tree t t1 ready1 rep1 charged)
        (λ x k. routes x (k.0, tail k.1)) in
    (
      tree',
      rw runs1 runs,
      record {
        after = filled.after;
        ready = filled.ready;
        sweeps = omega (arith, filled.sweeps, charged.sweeps);
        announced =
            both_announced (Announced t) (Announced t1) (Announced filled.after) p ts rest
              ins.announced filled.announced;
      },
    )
