-- ===== src/Tree/Withdraw/Correct.antt =====
-- `withdraw` on a well-formed trie: it tells whether the prefix was announced, and removes it.
use slash.Base.{◌≡◌, ◌≢◌, ◌⊎◌, ◌↔◌, inl, inr, refl, arith, sym, ap, ◌∙◌, subst, Bool, true, false}
use slash.Base.Outcome.{done}
use slash.Prefix.{Prefix}
use slash.Prefix.Laws.{IsPrefix}
use slash.Timestamp.{Timestamp}
use slash.Node.{NodeData}
use slash.Tree.{walk_fuel}
use slash.Tree.Trie.{Trie, nil, node, IsEnough-root, Announced, IsTrie, Represents, IsCharged}
use slash.Tree.Trie.Withdraw.{
  Withdraws, root-Withdraws, Withdraws-IsSeparate, Withdraws-IsTrie, count_announced-Withdraws,
  size-Withdraws, Withdraws-Announced, Announced-before, Announced-after,
}
use slash.Tree.Monad.{State}
use slash.Tree.Withdraw.{withdraw, withdraw_at}
use slash.Tree.Withdraw.Run.{Withdrawn}
use slash.Tree.Withdraw.Run.Descent.{withdraw_recursive-Ends}

module _ {D : Type 0} (nd : NodeData D) (p : Prefix) (ts : Timestamp) where
  -- The trie `t'` is `t` without the prefix, and `found` tells whether `t` announced it.
  pub record IsWithdrawn (t t' : Trie D) (found : Bool) : Type 0 where
    pub was_announced : (found ≡ true) ↔ Announced t p
    pub announced : (x : Prefix) → Announced t' x ↔ (Announced t x × (p ≢ x))

  found_none : (t : Trie D) → ¬ (Announced t p) → IsWithdrawn t t false
  found_none t absent = record {
    was_announced = (λ h. cc, λ h. absurd (absent h));
    announced = λ x. (λ h. (h, λ e. absent (subst (λ y. Announced t y) (sym e) h)), λ h. h.0);
  }

  found_one :
      (t t' : Trie D) (adv : Bool) → IsTrie t → Withdraws nd p ts t t' adv → IsWithdrawn t t' true
  found_one t t' adv shape wd = record {
    was_announced = (λ h. Withdraws-Announced nd p ts wd, λ h. refl);
    announced =
        λ x. (Announced-after nd p ts x wd shape, λ h. Announced-before nd p ts x wd h.0 h.1);
  }

  -- The tree after a withdrawal.
  pub Withdrawn-Represents :
      (s s' : State D) (t : Trie D) (adv : Bool)
      → Represents s.tree t
      → (res : Withdrawn nd p ts s t adv s') → Represents s'.tree res.after
  Withdrawn-Represents s s' t adv rep res = record {
    slab = res.valid;
    stored = res.stored;
    root = res.root_same ∙ rep.root ∙ sym (root-Withdraws nd p ts res.wd);
    separate = Withdraws-IsSeparate nd p ts res.wd rep.separate;
    shape = Withdraws-IsTrie nd p ts res.wd rep.shape;
    tally = omega (arith, res.tally, rep.tally, count_announced-Withdraws nd p ts res.wd);
  }

  uncharged : (s : State D) (t : Trie D) → IsCharged s.tree s.tree t t
  uncharged s t = record {
    space = refl;
    grows = omega arith;
    at_most = omega arith;
    counts = omega arith;
    sweeps = refl;
  }

  -- On a tree whose slab holds a well-formed trie, withdraw of a canonical prefix returns without a
  -- panic and within its fuel; the new tree holds a well-formed trie, with a right tally, whose
  -- announced prefixes are the old ones without the withdrawn one; the result is true just where
  -- that one was announced, and otherwise nothing at all has changed. The slab has lost no entry.
  pub withdraw-IsWithdrawn :
      (s : State D) (t : Trie D)
      → Represents s.tree t
      → IsPrefix p
      → (found : Bool) × (s' : State D) × (t' : Trie D) × (withdraw nd p ts s ≡ done (found, s'))
        × Represents s'.tree t'
        × IsWithdrawn t t' found
        × ((found ≡ true) ⊎ (s' ≡ s))
        × IsCharged s.tree s'.tree t t'
  unfolding withdraw withdraw_at
  withdraw-IsWithdrawn s nil rep hp = (
    false,
    s,
    nil,
    ap (λ o. withdraw_at nd p ts o s) rep.root,
    rep,
    found_none nil (λ h. h),
    inr refl,
    uncharged s nil,
  )
  withdraw-IsWithdrawn s (node i q f d l r) rep hp =
      let t : Trie D = node i q f d l r in
      let at = ap (λ o. withdraw_at nd p ts o s) rep.root in
      elim (withdraw_recursive-Ends nd p ts walk_fuel s i t refl (IsEnough-root t) rep.stored
        rep.separate rep.shape rep.slab (omega (arith, rep.tally)) hp) [
          | inl (runs, absent) ↦
              (false, s, t, at ∙ rw runs refl, rep, found_none t absent, inr refl, uncharged s t)
          | inr (adv, s', runs, res) ↦ (
            true,
            s',
            res.after,
            at ∙ rw runs refl,
            Withdrawn-Represents s s' t adv rep res,
            found_one t res.after adv rep.shape res.wd,
            inl refl,
            let same = size-Withdraws nd p ts res.wd in
                record {
                  space = omega (arith, res.room_same);
                  grows = omega arith;
                  at_most = omega arith;
                  counts = omega (arith, res.tally);
                  sweeps = res.sweeps;
                },
          )
        ]
