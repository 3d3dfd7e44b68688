-- ===== src/Tree/Insert/Correct.antt =====
-- `insert` on a well-formed trie: it announces its prefix and keeps the others.
use slash.Base.{
  ℕ, ◌+◌, ◌^◌, ◌≤◌, ◌≡◌, ◌<◌, ◌⊎◌, ◌↔◌, inl, inr, refl, some, arith, sym, ap, ◌∙◌, subst, ◌++◌, ◌∷◌,
  [], Bool, true,
}
use slash.Base.Outcome.{done}
use slash.Prefix.{Prefix}
use slash.Prefix.Laws.{IsPrefix}
use slash.Timestamp.{Timestamp}
use slash.Node.{NodeData}
use slash.Slab.Alloc.{room}
use slash.Tree.{walk_fuel}
use slash.Tree.Trie.{
  Trie, nil, node, IsEnough-root, Announced, AnnouncedAt, Represents, IsCharged, not-has_fresh,
}
use slash.Tree.Trie.Insert.{Inserts}
use slash.Tree.Trie.Insert.Shape.{Inserts-IsTrie}
use slash.Tree.Trie.Insert.Separate.{Inserts-IsSeparate}
use slash.Tree.Trie.Insert.Contents.{
  Announced-after, Announced-before, AnnouncedAt-target, count_announced-gain,
}
use slash.Tree.Trie.Insert.Size.{size-Inserts, gain-le}
use slash.Tree.Monad.{State, mark_dirty, set_root}
use slash.Tree.Insert.{InsertOutcome, insert, insert_at}
use slash.Tree.Insert.Steps.{counted, alloc_announced_node-done}
use slash.Tree.Insert.Join.{Inserted, Dead}
use slash.Tree.Insert.Frames.{leaf-Inserted}
use slash.Tree.Insert.Run.{insert_recursive-Returns}

AnnouncedAt-Announced :
    {D : Type 0} (t : Trie D) (i : ℕ) (x : Prefix) → AnnouncedAt t i x → Announced t x
AnnouncedAt-Announced nil i x h = h
AnnouncedAt-Announced (node j p f d l r) i x (inl (e, e', h)) = inl (e', h)
AnnouncedAt-Announced (node j p f d l r) i x (inr (inl h)) =
    inr (inl (AnnouncedAt-Announced l i x h))
AnnouncedAt-Announced (node j p f d l r) i x (inr (inr h)) =
    inr (inr (AnnouncedAt-Announced r i x h))

module _ {D : Type 0} (nd : NodeData D) (p : Prefix) (incoming : D) (ts : Timestamp) where
  -- The trie `t'` is `t` with the prefix announced by the node `target`.
  pub record IsInserted (t t' : Trie D) (target : ℕ) : Type 0 where
    pub target_announced : AnnouncedAt t' target p
    pub announced : (x : Prefix) → Announced t' x ↔ ((p ≡ x) ⊎ Announced t x)

  Inserts-IsInserted :
      (Fresh : ℕ → Type 0) {t t' : Trie D} {adv : Bool} {target : ℕ}
      → Inserts nd p incoming ts Fresh t t' adv target
      → IsInserted t t' target
  Inserts-IsInserted Fresh {t} {t'} {adv} {target} ins =
      let at = AnnouncedAt-target nd p incoming ts Fresh ins in
      record {
        target_announced = at;
        announced = λ x. (
          Announced-after nd p incoming ts Fresh x ins,
          λ h. elim h [
            | inl e ↦ subst (λ y. Announced t' y) e (AnnouncedAt-Announced t' target p at)
            | inr old ↦ Announced-before nd p incoming ts Fresh x ins old
          ],
        );
      }

  -- The tree that holds the trie after an insertion, below a new root.
  pub Inserted-Represents :
      (s s' : State D) (t : Trie D) (out : InsertOutcome)
      → Represents s.tree t
      → IsPrefix p
      → (res : Inserted nd p incoming ts s t out s')
      → Represents (record (s'.tree) { root = some out.new_subroot }) res.after
  Inserted-Represents s s' t out rep hp res = record {
    slab = res.valid;
    stored = res.stored;
    root = sym res.root;
    separate =
        Inserts-IsSeparate nd p incoming ts (Dead nd p incoming ts s) res.ins
          (λ j dead. not-has_fresh s.tree.slab t j rep.stored dead) rep.separate;
    shape = Inserts-IsTrie nd p incoming ts (Dead nd p incoming ts s) res.ins hp rep.shape;
    tally = omega (
      arith,
      res.tally,
      rep.tally,
      count_announced-gain nd p incoming ts (Dead nd p incoming ts s) res.ins,
    );
  }

  Inserted-IsCharged :
      (s s' : State D) (t : Trie D) (out : InsertOutcome)
      (res : Inserted nd p incoming ts s t out s')
      → IsCharged s.tree (record (s'.tree) { root = some out.new_subroot }) t res.after
  Inserted-IsCharged s s' t out res =
      let bound = size-Inserts nd p incoming ts (Dead nd p incoming ts s) res.ins in
      record {
        space = res.space;
        grows = bound.0;
        at_most = bound.1;
        counts =
            omega (arith, res.tally, gain-le nd p incoming ts (Dead nd p incoming ts s) res.ins);
        sweeps = res.sweeps;
      }

  -- On a tree whose slab holds a well-formed trie, with room for two nodes and a tally of announced
  -- nodes that does not overflow, insert of a canonical prefix returns without a panic and within
  -- its fuel; the new tree holds a well-formed trie, with a right tally, whose announced prefixes
  -- are the old ones and the inserted one, and the index returned is that of the node of the
  -- inserted prefix; the slab has lost at most two entries, as many as the trie has gained.
  pub insert-IsInserted :
      (s : State D) (t : Trie D)
      → Represents s.tree t
      → IsPrefix p
      → 2 ≤ room s.tree.slab
      → s.tree.announced_count + 1 < 2 ^ 32
      → (target : ℕ) × (s' : State D) × (t' : Trie D) × (insert nd p incoming ts s
          ≡ done (target, s'))
        × Represents s'.tree t'
        × IsInserted t t' target
        × IsCharged s.tree s'.tree t t'
  unfolding insert insert_at set_root mark_dirty
  insert-IsInserted s nil rep hp fits small =
      let (a, slab, runs, pl) =
        alloc_announced_node-done nd p incoming ts s rep.slab (omega arith) small in
      let out : InsertOutcome = record { new_subroot = a; target = a; ts_advanced = true } in
      let s1 = counted slab s in
      let res = leaf-Inserted nd p incoming ts s slab a pl in
      (
        a,
        record s1 { tree = record (s1.tree) { root = some a }; dirty = s1.dirty ++ a ∷ [] },
        res.after,
        ap (λ o. insert_at nd p incoming ts o s) rep.root ∙ rw runs refl,
        Inserted-Represents s s1 nil out rep hp res,
        Inserts-IsInserted (Dead nd p incoming ts s) res.ins,
        Inserted-IsCharged s s1 nil out res,
      )
  insert-IsInserted s (node i q f d l r) rep hp fits small =
      let t : Trie D = node i q f d l r in
      let (out, s', runs, res) =
        insert_recursive-Returns nd p incoming ts walk_fuel s i t refl (IsEnough-root t) rep.stored
          rep.separate rep.shape rep.slab fits small hp in
      (
        out.target,
        record s' { tree = record (s'.tree) { root = some out.new_subroot } },
        res.after,
        ap (λ o. insert_at nd p incoming ts o s) rep.root ∙ rw runs refl,
        Inserted-Represents s s' t out rep hp res,
        Inserts-IsInserted (Dead nd p incoming ts s) res.ins,
        Inserted-IsCharged s s' t out res,
      )
