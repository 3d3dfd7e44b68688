-- ===== src/Tree/Trie/Timed/Withdraw.antt =====
-- A withdrawal keeps the times in order.
use slash.Base.{Bool}
use slash.Prefix.{Prefix}
use slash.Timestamp.{Timestamp}
use slash.Timestamp.Order.{NotAfter-refl, NotAfter-trans}
use slash.Node.{NodeData}
use slash.Tree.Trie.{Trie}
use slash.Tree.Trie.Timed
use slash.Tree.Trie.Timed.{NoneAfter, NoneAfter-later, IsTimed, Times}
use slash.Tree.Trie.Withdraw.{Withdraws, here, left, right}

module _ {D : Type 0} (nd : NodeData D) (p : Prefix) (ts : Timestamp) where
  pub Withdraws-Times :
      {t t' : Trie D} {adv : Bool}
      → Withdraws nd p ts t t' adv
      → NoneAfter nd ts t
      → IsTimed nd t
      → Times nd p nd.default ts (λ j. ⊥) t t' adv
  Withdraws-Times (here {d} {l} {r} same on) (nd_, nl, nr) (wl, wr, tl, tr) =
      let time = nd.timestamp-withdraw d ts in
      (
        (rw time (NotAfter-refl ts), nl, nr),
        (rw time nl, rw time nr, tl, tr),
        λ h c k. (rw time (NotAfter-trans ts (nd.timestamp d) c h k.0), k.1, k.2),
      )
  Withdraws-Times (left {d} {l} {r} {l'} {adv} e wd) (nd_, nl, nr) (wl, wr, tl, tr) =
      let (none_after, timed, keeps) = Withdraws-Times wd nl tl in
      (
        (Timed.bump_least nd p nd.default ts (λ j. ⊥) adv d nd_, none_after, nr),
        (
          Timed.bump_covers nd p nd.default ts (λ j. ⊥) adv d l l' none_after keeps wl,
          NoneAfter-later nd (nd.timestamp d) (Timed.raised nd p nd.default ts (λ j. ⊥) adv d) r
              (Timed.bump_own nd p nd.default ts (λ j. ⊥) adv d) wr,
          timed,
          tr,
        ),
        λ h c k. (
          Timed.bump_keeps nd p nd.default ts (λ j. ⊥) adv d c h k.0,
          Timed.sub_keeps nd p nd.default ts (λ j. ⊥) adv d l l' c h none_after keeps k.0 k.1,
          k.2,
        ),
      )
  Withdraws-Times (right {d} {l} {r} {r'} {adv} e wd) (nd_, nl, nr) (wl, wr, tl, tr) =
      let (none_after, timed, keeps) = Withdraws-Times wd nr tr in
      (
        (Timed.bump_least nd p nd.default ts (λ j. ⊥) adv d nd_, nl, none_after),
        (
          NoneAfter-later nd (nd.timestamp d) (Timed.raised nd p nd.default ts (λ j. ⊥) adv d) l
              (Timed.bump_own nd p nd.default ts (λ j. ⊥) adv d) wl,
          Timed.bump_covers nd p nd.default ts (λ j. ⊥) adv d r r' none_after keeps wr,
          tl,
          timed,
        ),
        λ h c k. (
          Timed.bump_keeps nd p nd.default ts (λ j. ⊥) adv d c h k.0,
          k.1,
          Timed.sub_keeps nd p nd.default ts (λ j. ⊥) adv d r r' c h none_after keeps k.0 k.2,
        ),
      )
