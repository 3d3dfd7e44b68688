-- ===== src/Client/Session/Follows.antt =====
-- The browser's tree follows the server's: updates do to the set of announced prefixes of the one
-- what the server's changes did to that of the other, through the sweeps of the browser.
use slash.Base.{
  ℕ, ◌+◌, ◌^◌, ◌<◌, ◌≡◌, ◌↔◌, refl, Bool, true, false, List, [], ◌∷◌, arith, length, subst,
  if◌then◌else◌,
}
use slash.Base.Outcome.{done}
use slash.Timestamp.{Timestamp}
use slash.Prefix.{Prefix}
use slash.Prefix.Laws.{IsPrefix}
use slash.Node.{ThinData, thin, thin_node_data}
use slash.Tree.{RadixTree}
use slash.Tree.Trie.{Trie, Announced}
use slash.Tree.Monad.{State}
use slash.Tree.Insert.Correct.{insert-IsInserted}
use slash.Tree.Withdraw.Correct.{withdraw-IsWithdrawn}
use slash.Tree.Sweep.Correct.{sweep_tombstones-IsSweep}
use slash.Tree.Ready.{IsReady, IsReady-charged, IsReady-swept}
use slash.Messages.{ThinBgpUpdate, UpdateType, announce, withdraw}
use slash.Messages.Replay.{After, Changed, Changed-iff}
use slash.RouteTable.Changes.{AreCanonical}
use slash.Client.Render.{update}
use slash.Client.Session.{
  SubscribedState, sweep_due, apply_update, mutate, handle_update, handle_updates,
}

apply_update-After :
    (n : ℕ) (now : Timestamp) (kind : UpdateType) (p : Prefix) (ts : Timestamp)
    (tree : RadixTree ThinData) (c : Trie ThinData)
    → IsReady (1 + n) tree c
    → IsPrefix p
    → (st : State ThinData) × (c' : Trie ThinData) × (apply_update now
          (record { prefix = p; timestamp = ts; update_type = kind })
          (record { tree = tree; dirty = [] })
        ≡ done (tt, st))
      × IsReady n st.tree c'
      × (st.tree.sweep_count ≡ tree.sweep_count)
      × ((x : Prefix) → Announced c' x ↔ After kind p (Announced c) x)
unfolding apply_update
apply_update-After n now announce p ts tree c ready hp =
    let (target, s', c', runs, rep', ins, charged) =
      insert-IsInserted thin_node_data p (thin now) ts (record { tree = tree; dirty = [] }) c
        ready.represents hp (omega (arith, ready.entries)) (omega (arith, ready.counts)) in
    (
      s',
      c',
      rw runs refl,
      IsReady-charged n tree s'.tree c c' ready rep' charged,
      charged.sweeps,
      ins.announced,
    )
apply_update-After n now withdraw p ts tree c ready hp =
    let (found, s', c', runs, rep', wd, _, charged) =
      withdraw-IsWithdrawn thin_node_data p ts (record { tree = tree; dirty = [] }) c
        ready.represents hp in
    (
      s',
      c',
      rw runs refl,
      IsReady-charged n tree s'.tree c c' ready rep' charged,
      charged.sweeps,
      wd.announced,
    )

-- The same with the sweep where it is due.
mutate-After :
    (n : ℕ) (now : Timestamp) (u : ThinBgpUpdate) (due : Bool) (tree : RadixTree ThinData)
    (c : Trie ThinData)
    → IsReady (1 + n) tree c
    → tree.sweep_count + (1 + n) < 2 ^ 32
    → IsPrefix u.prefix
    → (st : State ThinData) × (c' : Trie ThinData) × (mutate now u due
          (record { tree = tree; dirty = [] })
        ≡ done (tt, st))
      × IsReady n st.tree c'
      × (st.tree.sweep_count + n < 2 ^ 32)
      × ((x : Prefix) → Announced c' x ↔ After u.update_type u.prefix (Announced c) x)
unfolding mutate
mutate-After n now u false tree c ready sweeps hp =
    let (st, c', runs, ready', same, after) =
      apply_update-After n now u.update_type u.prefix u.timestamp tree c ready hp in
    (st, c', rw runs refl, ready', omega arith, after)
mutate-After n now u true tree c ready sweeps hp =
    let (st, c', runs, ready', same, after) =
      apply_update-After n now u.update_type u.prefix u.timestamp tree c ready hp in
    let (st', c'', sweep_runs, rep'', sw) =
      sweep_tombstones-IsSweep st c' ready'.represents (omega arith) in
    (
      st',
      c'',
      rw runs sweep_runs,
      IsReady-swept n st st' c' c'' ready' rep'' sw,
      omega (arith, sw.sweeps),
      λ x. (λ h. (after x).0 ((sw.announced x).0 h), λ h. (sw.announced x).1 ((after x).1 h)),
    )

module _ {B : Type 0} where
  -- The session is ready for `n` updates, with a tree that holds the trie.
  pub record IsFollowing (n : ℕ) (s : SubscribedState B) (c : Trie ThinData) : Type 0 where
    pub ready : IsReady n s.tree c
    pub sweeps : s.tree.sweep_count + n < 2 ^ 32

  handle_update-After :
      (n : ℕ) (now : Timestamp) (u : ThinBgpUpdate) (s : SubscribedState B) (c : Trie ThinData)
      → IsFollowing (1 + n) s c
      → IsPrefix u.prefix
      → (s' : SubscribedState B) × (c' : Trie ThinData) × (handle_update now u s ≡ done s')
        × IsFollowing n s' c'
        × ((x : Prefix) → Announced c' x ↔ After u.update_type u.prefix (Announced c) x)
  unfolding handle_update
  handle_update-After n now u s c fit hp =
      let due = sweep_due s.updates_since_sweep in
      let (st, c', runs, ready', sweeps', after) =
        mutate-After n now u due s.tree c fit.ready fit.sweeps hp in
      (
        record s {
          tree = st.tree;
          updates_since_sweep = if due then 0 else s.updates_since_sweep + 1;
          render_state = update st.dirty s.render_state;
        },
        c',
        rw runs refl,
        record { ready = ready'; sweeps = sweeps' },
        after,
      )

  -- The updates of a frame, one after the other.
  pub handle_updates-Changed :
      (n : ℕ) (clock : ℕ → Timestamp) (k : ℕ) (us : List ThinBgpUpdate) (s : SubscribedState B)
      (c : Trie ThinData)
      → IsFollowing (length us + n) s c
      → AreCanonical us
      → (s' : SubscribedState B) × (c' : Trie ThinData) × (handle_updates clock k us s ≡ done s')
        × IsFollowing n s' c'
        × ((x : Prefix) → Announced c' x ↔ Changed us (Announced c) x)
  unfolding handle_updates
  handle_updates-Changed n clock k [] s c fit canonical =
      let none_left : length {A = ThinBgpUpdate} [] + n ≡ n = omega arith in
      (s, c, refl, subst (λ m. IsFollowing m s c) none_left fit, λ x. (λ h. h, λ h. h))
  handle_updates-Changed n clock k (u ∷ rest) s c fit (here, canonical) =
      let one_more : length (u ∷ rest) + n ≡ 1 + (length rest + n) = omega arith in
      let (s1, c1, runs1, fit1, after1) =
        handle_update-After (length rest + n) (clock k) u s c
          (subst (λ m. IsFollowing m s c) one_more fit) here in
      let (s', c', runs, fit', after) =
        handle_updates-Changed n clock (k + 1) rest s1 c1 fit1 canonical in
      let first =
        Changed-iff rest (Announced c1) (After u.update_type u.prefix (Announced c)) after1 in
      (
        s',
        c',
        rw runs1 runs,
        fit',
        λ x. (λ h. (first x).0 ((after x).0 h), λ h. (after x).1 ((first x).1 h)),
      )
