-- ===== src/Tree/Trie/Timed/Insert.antt =====
-- An insertion keeps the times in order.
use slash.Base.{ℕ, Bool}
use slash.Prefix.{Prefix}
use slash.Timestamp.{Timestamp}
use slash.Timestamp.Order.{NotAfter, NotAfter-refl, NotAfter-trans, zero-NotAfter}
use slash.Node.{NodeData, merge_ancestor}
use slash.Tree.Trie.{Trie}
use slash.Tree.Trie.Timed
use slash.Tree.Trie.Timed.{NoneAfter, NoneAfter-later, IsTimed, merged, Times}
use slash.Tree.Trie.Insert.{
  Inserts, leaf, again, left, right, above_left, above_right, fork_left, fork_right, new_payload,
}

module _ {D : Type 0} (nd : NodeData D) where
  module _ (p : Prefix) (incoming : D) (ts : Timestamp) (Fresh : ℕ → Type 0) where
    -- The node of a fork above a node with the payload `d`.
    abbrev split_payload : D → D
    split_payload d = merge_ancestor nd nd.default (nd.timestamp d)

    fork_least :
        (d : D) (c : Timestamp)
        → NotAfter (nd.timestamp d) c
        → NotAfter ts c
        → NotAfter (merged nd (split_payload d) ts) c
    fork_least d c h k =
        let zero_ : NotAfter (nd.timestamp nd.default) c =
          rw nd.timestamp-default (zero-NotAfter c) in
        Timed.merged_least nd (split_payload d) ts c
          (Timed.merged_least nd nd.default (nd.timestamp d) c zero_ h) k

    fork_leaf :
        (d : D)
        → NotAfter
            (nd.timestamp (new_payload nd p incoming ts Fresh))
            (merged nd (split_payload d) ts)
    fork_leaf d =
        NotAfter-trans (nd.timestamp (new_payload nd p incoming ts Fresh)) ts
          (merged nd (split_payload d) ts) (Timed.new_time nd p incoming ts Fresh)
          (Timed.merged_given nd (split_payload d) ts)

    fork_old : (d : D) → NotAfter (nd.timestamp d) (merged nd (split_payload d) ts)
    fork_old d =
        NotAfter-trans (nd.timestamp d) (nd.timestamp (split_payload d))
          (merged nd (split_payload d) ts) (Timed.merged_given nd nd.default (nd.timestamp d))
          (Timed.merged_own nd (split_payload d) ts)

    -- A bound on a subtree whose time is not before `ts` bounds `ts`.
    bounds :
        (d : D) (c : Timestamp)
        → NotAfter ts (nd.timestamp d)
        → NotAfter (nd.timestamp d) c
        → NotAfter ts c
    bounds d c h k = NotAfter-trans ts (nd.timestamp d) c h k

    pub Inserts-Times :
        {t t' : Trie D} {adv : Bool} {target : ℕ}
        → Inserts nd p incoming ts Fresh t t' adv target
        → NoneAfter nd ts t
        → IsTimed nd t
        → Times nd p incoming ts Fresh t t' adv
    Inserts-Times (leaf a fr) n w =
        (((Timed.new_time nd p incoming ts Fresh), tt, tt), (tt, tt, tt, tt), λ h. absurd (cc))
    Inserts-Times (again {d} {l} {r} same) (nd_, nl, nr) (wl, wr, tl, tr) =
        let time = nd.timestamp-announce d incoming ts in
        (
          (rw time (NotAfter-refl ts), nl, nr),
          (rw time nl, rw time nr, tl, tr),
          λ h c k. (rw time (NotAfter-trans ts (nd.timestamp d) c h k.0), k.1, k.2),
        )
    Inserts-Times (left {d} {l} {r} {l'} {adv} e ins) (nd_, nl, nr) (wl, wr, tl, tr) =
        let (none_after, timed, keeps) = Inserts-Times ins nl tl in
        (
          (Timed.bump_least nd p incoming ts Fresh adv d nd_, none_after, nr),
          (
            Timed.bump_covers nd p incoming ts Fresh adv d l l' none_after keeps wl,
            NoneAfter-later nd (nd.timestamp d) (Timed.raised nd p incoming ts Fresh adv d) r
                (Timed.bump_own nd p incoming ts Fresh adv d) wr,
            timed,
            tr,
          ),
          λ h c k. (
            Timed.bump_keeps nd p incoming ts Fresh adv d c h k.0,
            Timed.sub_keeps nd p incoming ts Fresh adv d l l' c h none_after keeps k.0 k.1,
            k.2,
          ),
        )
    Inserts-Times (right {d} {l} {r} {r'} {adv} e ins) (nd_, nl, nr) (wl, wr, tl, tr) =
        let (none_after, timed, keeps) = Inserts-Times ins nr tr in
        (
          (Timed.bump_least nd p incoming ts Fresh adv d nd_, nl, none_after),
          (
            NoneAfter-later nd (nd.timestamp d) (Timed.raised nd p incoming ts Fresh adv d) l
                (Timed.bump_own nd p incoming ts Fresh adv d) wl,
            Timed.bump_covers nd p incoming ts Fresh adv d r r' none_after keeps wr,
            tl,
            timed,
          ),
          λ h c k. (
            Timed.bump_keeps nd p incoming ts Fresh adv d c h k.0,
            k.1,
            Timed.sub_keeps nd p incoming ts Fresh adv d r r' c h none_after keeps k.0 k.2,
          ),
        )
    Inserts-Times (above_left {i} {f} {q} {d} {l} {r} a fr e) n w =
        let top = new_payload nd p incoming ts Fresh in
        (
          (
            Timed.merged_least nd top (nd.timestamp d) ts (Timed.new_time nd p incoming ts Fresh)
                n.0,
            n,
            tt,
          ),
          (
            Timed.covers nd p incoming ts Fresh i f q d l r (merged nd top (nd.timestamp d)) w
                (Timed.merged_given nd top (nd.timestamp d)),
            tt,
            w,
            tt,
          ),
          λ h c k. (
            Timed.merged_least nd top (nd.timestamp d) c
                (NotAfter-trans (nd.timestamp top) ts c (Timed.new_time nd p incoming ts Fresh)
                  (NotAfter-trans ts (nd.timestamp d) c h k.0))
                k.0,
            k,
            tt,
          ),
        )
    Inserts-Times (above_right {i} {f} {q} {d} {l} {r} a fr e) n w =
        let top = new_payload nd p incoming ts Fresh in
        (
          (
            Timed.merged_least nd top (nd.timestamp d) ts (Timed.new_time nd p incoming ts Fresh)
                n.0,
            tt,
            n,
          ),
          (
            tt,
            Timed.covers nd p incoming ts Fresh i f q d l r (merged nd top (nd.timestamp d)) w
                (Timed.merged_given nd top (nd.timestamp d)),
            tt,
            w,
          ),
          λ h c k. (
            Timed.merged_least nd top (nd.timestamp d) c
                (NotAfter-trans (nd.timestamp top) ts c (Timed.new_time nd p incoming ts Fresh)
                  (NotAfter-trans ts (nd.timestamp d) c h k.0))
                k.0,
            tt,
            k,
          ),
        )
    Inserts-Times (fork_left {i} {f} {q} {d} {l} {r} a b c m fr fr' ne fork tr) n w = (
      (
        fork_least d ts n.0 (NotAfter-refl ts),
        ((Timed.new_time nd p incoming ts Fresh), tt, tt),
        n,
      ),
      (
        (fork_leaf d, tt, tt),
        Timed.covers nd p incoming ts Fresh i f q d l r (merged nd (split_payload d) ts) w
            (fork_old d),
        (tt, tt, tt, tt),
        w,
      ),
      λ h c' k. (
        fork_least d c' k.0 (bounds d c' h k.0),
        (
          NotAfter-trans (nd.timestamp (new_payload nd p incoming ts Fresh)) ts c'
              (Timed.new_time nd p incoming ts Fresh) (bounds d c' h k.0),
          tt,
          tt,
        ),
        k,
      ),
    )
    Inserts-Times (fork_right {i} {f} {q} {d} {l} {r} a b c m fr fr' ne fork tr) n w = (
      (
        fork_least d ts n.0 (NotAfter-refl ts),
        n,
        ((Timed.new_time nd p incoming ts Fresh), tt, tt),
      ),
      (
        Timed.covers nd p incoming ts Fresh i f q d l r (merged nd (split_payload d) ts) w
            (fork_old d),
        (fork_leaf d, tt, tt),
        w,
        (tt, tt, tt, tt),
      ),
      λ h c' k. (
        fork_least d c' k.0 (bounds d c' h k.0),
        k,
        (
          NotAfter-trans (nd.timestamp (new_payload nd p incoming ts Fresh)) ts c'
              (Timed.new_time nd p incoming ts Fresh) (bounds d c' h k.0),
          tt,
          tt,
        ),
      ),
    )
