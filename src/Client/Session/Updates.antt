-- ===== src/Client/Session/Updates.antt =====
-- What an update keeps: the GPU's buffer agrees with the tree but for the queue.
use slash.Base.{
  or_false_right, ℕ, ◌+◌, ◌^◌, ◌≤◌, ◌<◌, ◌≡◌, inl, inr, refl, Bool, true, false, ◌||◌, ◌==◌, List,
  [], ◌∷◌, ◌++◌, contains, contains-append, arith, if◌then◌else◌, sym, ◌∙◌, subst, Bool-cases,
  not_ltb→le, or_left, or_right, ==→eq, or-cases,
}
use slash.Base.Outcome.{done, bind-done}
use slash.Timestamp.{Timestamp}
use slash.Prefix.{Prefix}
use slash.Node.{ThinData, thin_node_data, thin}
use slash.Tree.Monad.{State}
use slash.Tree.Dirty.{Nothing, Logged, Tracks, Logged-refl}
use slash.Tree.Dirty.Rules.{Tracks-bind, Tracks-pure, Tracks-if}
use slash.Tree.Dirty.Insert.{Tracks-insert}
use slash.Tree.Dirty.Withdraw.{Tracks-withdraw}
use slash.Tree.Dirty.Sweep.{Tracks-sweep_tombstones}
use slash.Messages.{ThinBgpUpdate, UpdateType, announce, withdraw}
use slash.Client.Render.{Gpu, extend, update}
use slash.Client.Render.Laws.{IsInRange, Agrees}
use slash.Client.Session.{SubscribedState, apply_update, sweep_due, mutate, handle_update}

contains-extend :
    (queue xs : List ℕ) (j : ℕ) → contains (extend queue xs) j ≡ (contains queue j || contains xs j)
contains-extend queue [] j = sym (or_false_right (contains queue j))
contains-extend queue (x ∷ xs) j =
    contains-extend (if contains queue x then queue else queue ++ x ∷ []) xs j ∙ once
  where
    absorb : (q e c : Bool) → (e ≡ true → q ≡ true) → (q || c) ≡ (q || (e || c))
    absorb true e c h = refl
    absorb false true c h = absurd (let e : false ≡ true = h refl in cc)
    absorb false false c h = refl

    regroup : (q e c : Bool) → ((q || (e || false)) || c) ≡ (q || (e || c))
    regroup true e c = refl
    regroup false true c = refl
    regroup false false c = refl

    once :
        (contains (if contains queue x then queue else queue ++ x ∷ []) j || contains xs j)
        ≡ (contains queue j || ((x == j) || contains xs j))
    once = elim (Bool-cases (contains queue x)) [
      | inl in_ ↦ rw in_ (
          absorb (contains queue j) (x == j) (contains xs j)
            (λ e. subst (λ k. contains queue k ≡ true) (==→eq x j e) in_))
      | inr out ↦
          rw (out, contains-append queue (x ∷ []) j)
            (regroup (contains queue j) (x == j) (contains xs j))
    ]

-- An update reports what it changes, also where a sweep follows.
Tracks-apply :
    {s0 : State ThinData} {Y : ℕ → Type 0} (now : Timestamp) (p : Prefix) (ts : Timestamp)
    (kind : UpdateType)
    → Tracks s0 Y
        (apply_update now (record { prefix = p; timestamp = ts; update_type = kind }))
        (λ o. Y)
unfolding apply_update
Tracks-apply now p ts announce =
    Tracks-bind _ _ (Tracks-insert thin_node_data p (thin now) ts) λ target. Tracks-pure tt
Tracks-apply now p ts withdraw =
    Tracks-bind _ _ (Tracks-withdraw thin_node_data p ts) λ found. Tracks-pure tt

Tracks-mutate :
    {s0 : State ThinData} {Y : ℕ → Type 0} (now : Timestamp) (u : ThinBgpUpdate) (due : Bool)
    → Tracks s0 Y (mutate now u due) (λ o. Y)
unfolding mutate
Tracks-mutate now u due =
    Tracks-bind _ _ (Tracks-apply now u.prefix u.timestamp u.update_type)
      λ o. Tracks-if due _ _ Tracks-sweep_tombstones (Tracks-pure tt)

module _ {B : Type 0} (gpu : Gpu B) where
  -- The buffer has every entry that is not queued, unless the slab has outgrown it.
  abbrev pub IsSynced : SubscribedState B → Type 0
  IsSynced s =
      Agrees gpu s.render_state.slab_buffer s.render_state.dirty_node_queue s.tree.slab.entries

  -- The count of updates stays below the limit, and the tree's capacity is a `u32`.
  abbrev pub IsBounded : SubscribedState B → Type 0
  IsBounded s = (s.updates_since_sweep ≤ 5000) × (s.tree.slab.max_capacity < 2 ^ 32)

  abbrev pub IsQueued : SubscribedState B → Type 0
  IsQueued s = IsInRange s.render_state.dirty_node_queue s.tree.slab.entries

  abbrev after : SubscribedState B → State ThinData → SubscribedState B
  after s st = record s {
    tree = st.tree;
    updates_since_sweep = if sweep_due s.updates_since_sweep then 0 else s.updates_since_sweep + 1;
    render_state = update st.dirty s.render_state;
  }

  abbrev start : SubscribedState B → State ThinData
  start s = record { tree = s.tree; dirty = [] }

  handle_update-after :
      (now : Timestamp) (u : ThinBgpUpdate) (s s' : SubscribedState B)
      → IsBounded s
      → handle_update now u s ≡ done s'
      → (st : State ThinData) × Logged Nothing (start s) st × (after s st ≡ s')
  unfolding handle_update
  handle_update-after now u s s' (_, small) e =
      let due = sweep_due s.updates_since_sweep in
      let (a, runs, ends) =
        bind-done (mutate now u due (start s)) (λ (_, st). done (after s st)) s' e in
      (a.1, Tracks-mutate now u due (start s) a.0 a.1 runs (Logged-refl (start s) small), cc)

  module _ (s : SubscribedState B) (st : State ThinData) (l : Logged Nothing (start s) st) where
    after-IsBounded : IsBounded (after s st)
    after-IsBounded = elim (Bool-cases (sweep_due s.updates_since_sweep)) [
      | inl due ↦ rw due (omega arith, l.capacity)
      | inr not_due ↦
          rw not_due
            (omega (arith, not_ltb→le 5000 (s.updates_since_sweep + 1) not_due), l.capacity)
    ]

    -- What is queued after.
    queued :
        (j : ℕ)
        → contains (extend s.render_state.dirty_node_queue st.dirty) j
          ≡ (contains s.render_state.dirty_node_queue j || contains st.dirty j)
    queued j = contains-extend s.render_state.dirty_node_queue st.dirty j

    after-IsSynced : IsSynced s → IsSynced (after s st)
    unfolding update
    after-IsSynced (inl outgrown) = inl (omega (arith, l.longer))
    after-IsSynced (inr sync) = inr λ j n inside at. elim (l.changed j) [
      | inl same ↦ elim (sync j n inside (sym same ∙ at)) [
        | inl e ↦ inl e
        | inr q ↦ inr (
            queued j ∙ or_left (contains s.render_state.dirty_node_queue j) (contains st.dirty j) q)
      ]
      | inr (inl d) ↦
          inr (
            queued j
            ∙ or_right (contains s.render_state.dirty_node_queue j) (contains st.dirty j) d)
      | inr (inr none_) ↦ absurd none_
    ]

    after-IsQueued : IsQueued s → IsQueued (after s st)
    unfolding update
    after-IsQueued q j h =
        elim (or-cases (contains s.render_state.dirty_node_queue j) (contains st.dirty j)
          (sym (queued j) ∙ h)) [
            | inl old ↦ omega (arith, q j old, l.longer)
            | inr new ↦ elim (l.in_range j new) [ inl wrong ↦ cc | inr lt ↦ lt ]
          ]

  -- Everything that an update keeps.
  pub handle_update-IsBounded :
      (now : Timestamp) (u : ThinBgpUpdate) (s s' : SubscribedState B)
      → IsBounded s
      → handle_update now u s ≡ done s'
      → IsBounded s' × (s'.ip_version ≡ s.ip_version)
  handle_update-IsBounded now u s s' b e =
      let (st, l, same) = handle_update-after now u s s' b e in
      subst (λ t. IsBounded t × (t.ip_version ≡ s.ip_version)) same (after-IsBounded s st l, refl)

  pub handle_update-IsSynced :
      (now : Timestamp) (u : ThinBgpUpdate) (s s' : SubscribedState B)
      → IsBounded s
      → IsSynced s
      → handle_update now u s ≡ done s'
      → IsSynced s'
  handle_update-IsSynced now u s s' b sync e =
      let (st, l, same) = handle_update-after now u s s' b e in
      subst IsSynced same (after-IsSynced s st l sync)

  pub handle_update-IsQueued :
      (now : Timestamp) (u : ThinBgpUpdate) (s s' : SubscribedState B)
      → IsBounded s
      → IsQueued s
      → handle_update now u s ≡ done s'
      → IsQueued s'
  handle_update-IsQueued now u s s' b q e =
      let (st, l, same) = handle_update-after now u s s' b e in
      subst IsQueued same (after-IsQueued s st l q)
