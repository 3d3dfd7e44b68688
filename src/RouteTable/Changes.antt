-- ===== src/RouteTable/Changes.antt =====
-- What the server does to a trie for a list of updates, and that a message of RIS Live does to each
-- trie what its updates for that family do.
use slash.Base.{
  ℕ, ◌+◌, ◌≡◌, ◌↔◌, refl, List, [], ◌∷◌, ◌++◌, arith, length, subst, Option, map, ◌⊎◌, inl, inr,
  sym, ◌∙◌, ap,
}
use mathlib.Core.List.{append_assoc}
use slash.Base.Outcome.{Outcome, done, ◌>>=◌, bind-done}
use slash.Timestamp.{Timestamp, ts_zero}
use slash.Prefix.{IpVersion, v4, v6, Prefix}
use slash.Prefix.Cidr.{Text, IpAddr, CidrParseError, parse_cidr}
use slash.Prefix.Laws.{IsPrefix}
use slash.Node.{ThickData, thick, thick_node_data}
use slash.Tree.Trie.{Trie, Announced}
use slash.Tree.Insert.Correct.{insert-IsInserted}
use slash.Tree.Withdraw.Correct.{withdraw-IsWithdrawn}
use slash.Tree.Ready.{IsReady, IsReady-charged}
use slash.Tree.Exact.{Conserves, insert-Conserves, withdraw-Conserves}
use slash.Tree.Monad.{State}
use slash.Messages.{ThinBgpUpdate, UpdateType, announce, withdraw, thin_update, thin_updates}
use slash.Messages.Replay.{After, Changed, Changed-iff}
use slash.RouteTable.{ThickTree, RouteTable, announce_on, withdraw_on, apply_prefix, apply_prefixes}

-- The change of one prefix that `apply_message` makes.
abbrev pub server_change : UpdateType → Prefix → Timestamp → ThickTree → Outcome ThickTree
server_change announce p ts tree = announce_on ts p tree
server_change withdraw p ts tree = withdraw_on ts p tree

unfoldable pub server_changes : List ThinBgpUpdate → ThickTree → Outcome ThickTree
server_changes [] tree = done tree
server_changes (u ∷ rest) tree =
    server_change u.update_type u.prefix u.timestamp tree >>= λ tree'. server_changes rest tree'

pub server_change-After :
    (n : ℕ) (kind : UpdateType) (p : Prefix) (ts : Timestamp) (tree : ThickTree)
    (t : Trie ThickData)
    → IsReady (1 + n) tree t
    → IsPrefix p
    → (tree' : ThickTree) × (t' : Trie ThickData) × (server_change kind p ts tree ≡ done tree')
      × IsReady n tree' t'
      × (tree'.sweep_count ≡ tree.sweep_count)
      × ((x : Prefix) → Announced t' x ↔ After kind p (Announced t) x)
      × Conserves tree tree' t t'
server_change-After n announce p ts tree t ready hp =
    let start : State ThickData = record { tree = tree; dirty = [] } in
    let (target, s', t', runs, rep', ins, charged) =
      insert-IsInserted thick_node_data p (thick ts_zero) ts start t ready.represents hp
        (omega (arith, ready.entries)) (omega (arith, ready.counts)) in
    (
      s'.tree,
      t',
      rw runs refl,
      IsReady-charged n tree s'.tree t t' ready rep' charged,
      charged.sweeps,
      ins.announced,
      insert-Conserves thick_node_data p (thick ts_zero) ts start s' t t' target ready.represents
          runs charged,
    )
server_change-After n withdraw p ts tree t ready hp =
    let start : State ThickData = record { tree = tree; dirty = [] } in
    let (found, s', t', runs, rep', wd, _, charged) =
      withdraw-IsWithdrawn thick_node_data p ts start t ready.represents hp in
    (
      s'.tree,
      t',
      rw runs refl,
      IsReady-charged n tree s'.tree t t' ready rep' charged,
      charged.sweeps,
      wd.announced,
      withdraw-Conserves thick_node_data p ts start s' t t' found ready.represents runs charged,
    )

-- Every update is about a canonical prefix.
abbrev pub AreCanonical : List ThinBgpUpdate → Type 0
AreCanonical [] = Unit
AreCanonical (u ∷ rest) = IsPrefix u.prefix × AreCanonical rest

pub server_changes-Changed :
    (n : ℕ) (us : List ThinBgpUpdate) (tree : ThickTree) (t : Trie ThickData)
    → IsReady (length us + n) tree t
    → AreCanonical us
    → (tree' : ThickTree) × (t' : Trie ThickData) × (server_changes us tree ≡ done tree')
      × IsReady n tree' t'
      × ((x : Prefix) → Announced t' x ↔ Changed us (Announced t) x)
unfolding server_changes
server_changes-Changed n [] tree t ready canonical =
    let none_left : length {A = ThinBgpUpdate} [] + n ≡ n = omega arith in
    (tree, t, refl, subst (λ k. IsReady k tree t) none_left ready, λ x. (λ h. h, λ h. h))
server_changes-Changed n (u ∷ rest) tree t ready (here, canonical) =
    let one_more : length (u ∷ rest) + n ≡ 1 + (length rest + n) = omega arith in
    let (tree1, t1, runs1, ready1, _, after1, _) =
      server_change-After (length rest + n) u.update_type u.prefix u.timestamp tree t
        (subst (λ k. IsReady k tree t) one_more ready) here in
    let (tree', t', runs, ready', after) =
      server_changes-Changed n rest tree1 t1 ready1 canonical in
    let first =
      Changed-iff rest (Announced t1) (After u.update_type u.prefix (Announced t)) after1 in
    (
      tree',
      t',
      rw runs1 runs,
      ready',
      λ x. (λ h. (first x).0 ((after x).0 h), λ h. (after x).1 ((first x).1 h)),
    )

pub server_changes-append :
    (us vs : List ThinBgpUpdate) (tree a b : ThickTree)
    → server_changes us tree ≡ done a
    → server_changes vs a ≡ done b
    → server_changes (us ++ vs) tree ≡ done b
unfolding server_changes
server_changes-append [] vs tree a b e e' = let same : tree ≡ a = cc in rw same e'
server_changes-append (u ∷ us) vs tree a b e e' =
    let (tree1, e1, e2) = bind-done (server_change u.update_type u.prefix u.timestamp tree) _ a e in
    rw e1 (server_changes-append us vs tree1 a b e2 e')

-- Updates in two lists, one after the other.
pub server_changes-split :
    (us vs : List ThinBgpUpdate) (tree b : ThickTree)
    → server_changes (us ++ vs) tree ≡ done b
    → (a : ThickTree) × (server_changes us tree ≡ done a) × (server_changes vs a ≡ done b)
unfolding server_changes
server_changes-split [] vs tree b e = (tree, refl, e)
server_changes-split (u ∷ us) vs tree b e =
    let (tree1, e1, e2) = bind-done (server_change u.update_type u.prefix u.timestamp tree) _ b e in
    let (a, first, second) = server_changes-split us vs tree1 b e2 in (a, rw e1 first, second)

module _ (parse_ip : Text → Option IpAddr) (parse_len : Text → Option ℕ) (ts : Timestamp) where
  pub thin_updates-split :
      (v : IpVersion) (xs ys : List (Text × UpdateType)) (ws : List ThinBgpUpdate)
      → thin_updates parse_ip parse_len ts v (xs ++ ys) ≡ done ws
      → (us vs : List ThinBgpUpdate) × (thin_updates parse_ip parse_len ts v xs ≡ done us)
        × (thin_updates parse_ip parse_len ts v ys ≡ done vs)
        × (ws ≡ us ++ vs)
  unfolding thin_updates
  thin_updates-split v [] ys ws e = ([], ws, refl, e, refl)
  thin_updates-split v ((cidr, kind) ∷ xs) ys ws e =
      let (parsed, e1, e2) = bind-done (parse_cidr parse_ip parse_len cidr) _ ws e in
      let (others, e3, e4) = bind-done (thin_updates parse_ip parse_len ts v (xs ++ ys)) _ ws e2 in
      let (us, vs, first, second, both) = thin_updates-split v xs ys others e3 in
      let whole : thin_update parse_ip parse_len ts v kind parsed ++ others ≡ ws = cc in
      (
        thin_update parse_ip parse_len ts v kind parsed ++ us,
        vs,
        rw (e1, first) refl,
        second,
        sym whole
            ∙ ap (λ os. thin_update parse_ip parse_len ts v kind parsed ++ os) both
            ∙ sym (append_assoc (thin_update parse_ip parse_len ts v kind parsed) us vs),
      )

module _ (Json : Type 0) {Seconds : Type 0} (parse_ip : Text → Option IpAddr)
    (parse_len : Text → Option ℕ) (from_sec : Seconds → Timestamp) where
  -- What its part of the texts does to the trie of each family, the texts do to the table.
  abbrev pub Applies : UpdateType → Timestamp → List Text → Type 0
  Applies kind ts texts =
      (t : RouteTable Json Seconds) (us vs : List ThinBgpUpdate) (a b : ThickTree)
      → thin_updates parse_ip parse_len ts v4 (map (λ cidr. (cidr, kind)) texts) ≡ done us
      → thin_updates parse_ip parse_len ts v6 (map (λ cidr. (cidr, kind)) texts) ≡ done vs
      → server_changes us t.tree_v4 ≡ done a
      → server_changes vs t.tree_v6 ≡ done b
      → apply_prefixes parse_ip parse_len from_sec texts (λ p. server_change kind p ts) t
        ≡ done (record t { tree_v4 = a; tree_v6 = b })

  -- The first text, which parses to `r`.
  first-Applies :
      (kind : UpdateType) (ts : Timestamp) (cidr : Text) (rest : List Text)
      → Applies kind ts rest
      → (r : CidrParseError ⊎ IpVersion × Prefix) (t : RouteTable Json Seconds)
        (us vs : List ThinBgpUpdate) (a b : ThickTree)
      → parse_cidr parse_ip parse_len cidr ≡ done r
      → thin_updates parse_ip parse_len ts v4 (map (λ cidr. (cidr, kind)) rest) ≡ done us
      → thin_updates parse_ip parse_len ts v6 (map (λ cidr. (cidr, kind)) rest) ≡ done vs
      → server_changes (thin_update parse_ip parse_len ts v4 kind r ++ us) t.tree_v4 ≡ done a
      → server_changes (thin_update parse_ip parse_len ts v6 kind r ++ vs) t.tree_v6 ≡ done b
      → apply_prefixes parse_ip parse_len from_sec (cidr ∷ rest) (λ p. server_change kind p ts) t
        ≡ done (record t { tree_v4 = a; tree_v6 = b })
  unfolding apply_prefix apply_prefixes server_changes
  first-Applies kind ts cidr rest ih (inl error) t us vs a b parsed l4 l6 c4 c6 =
      rw parsed (ih t us vs a b l4 l6 c4 c6)
  first-Applies kind ts cidr rest ih (inr (v4, p)) t us vs a b parsed l4 l6 c4 c6 =
      let (tree1, e1, e2) = bind-done (server_change kind p ts t.tree_v4) _ a c4 in
      rw (parsed, e1) (ih (record t { tree_v4 = tree1 }) us vs a b l4 l6 e2 c6)
  first-Applies kind ts cidr rest ih (inr (v6, p)) t us vs a b parsed l4 l6 c4 c6 =
      let (tree1, e1, e2) = bind-done (server_change kind p ts t.tree_v6) _ b c6 in
      rw (parsed, e1) (ih (record t { tree_v6 = tree1 }) us vs a b l4 l6 c4 e2)

  pub apply_prefixes-changes :
      (kind : UpdateType) (ts : Timestamp) (texts : List Text) → Applies kind ts texts
  unfolding apply_prefixes thin_updates server_changes
  apply_prefixes-changes kind ts [] t us vs a b e4 e6 c4 c6 =
      let nil4 : [] ≡ us = cc in
      let nil6 : [] ≡ vs = cc in
      let same4 : server_changes [] t.tree_v4 ≡ done a = rw (sym nil4) at c4 in
      let same6 : server_changes [] t.tree_v6 ≡ done b = rw (sym nil6) at c6 in
      let at4 : t.tree_v4 ≡ a = cc in let at6 : t.tree_v6 ≡ b = cc in rw (sym at4, sym at6) refl
  apply_prefixes-changes kind ts (cidr ∷ rest) t us vs a b e4 e6 c4 c6 =
      let texts : List (Text × UpdateType) = map (λ cidr. (cidr, kind)) rest in
      let (r, p4, e4') = bind-done (parse_cidr parse_ip parse_len cidr) _ us e4 in
      let (r', p6, e6') = bind-done (parse_cidr parse_ip parse_len cidr) _ vs e6 in
      let same : r' ≡ r = cc in
      let (us', l4, w4) = bind-done (thin_updates parse_ip parse_len ts v4 texts) _ us e4' in
      let (vs', l6, w6) = bind-done (thin_updates parse_ip parse_len ts v6 texts) _ vs e6' in
      let whole4 : thin_update parse_ip parse_len ts v4 kind r ++ us' ≡ us = cc in
      let whole6 : thin_update parse_ip parse_len ts v6 kind r' ++ vs' ≡ vs = cc in
      let c4' = subst (λ ws. server_changes ws t.tree_v4 ≡ done a) (sym whole4) c4 in
      let c6' = subst (λ ws. server_changes ws t.tree_v6 ≡ done b) (sym whole6) c6 in
      let c6'' =
        subst
          (λ w.
            server_changes (thin_update parse_ip parse_len ts v6 kind w ++ vs') t.tree_v6 ≡ done b)
          same c6' in
      first-Applies kind ts cidr rest (apply_prefixes-changes kind ts rest) r t us' vs' a b p4 l4 l6
        c4' c6''
