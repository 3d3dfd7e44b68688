-- ===== src/Client/Session/Reach.antt =====
-- The runs of the client: what holds in every state that it reaches, and what a frame shows.
use slash.Base.{
  ℕ, ◌+◌, ◌^◌, ◌<◌, ◌≡◌, refl, Bool, true, false, Option, none, some, List, [], ◌∷◌, arith, ◌∙◌,
  subst,
}
use slash.Base.Outcome.{done, bind-done}
use slash.Timestamp.{Timestamp}
use slash.Prefix.{IpVersion, v4, v6}
use slash.Messages.{ThinBgpUpdate}
use slash.Wire.{
  Received, message, closed, failed, subscribe_request, trie_snapshot, thin_bgp_update,
  thin_bgp_update_frame,
}
use slash.Client.Render.{Gpu, RenderState, upload_slab, render}
use slash.Client.Render.Laws.{render-Agrees, upload-InSync}
use slash.Client.Session.{
  SubscribedState, ClientState, initializing, connecting, connected, synchronizing, subscribed,
  error, Wake, received, animation_frame, handle_update, handle_updates, initialize, connect,
  request, synchronize, steady,
}
use slash.Client.Session.Updates.{
  IsSynced, IsBounded, handle_update-IsBounded, handle_update-IsSynced,
}

-- The capacity of a received tree is a `u32`.
abbrev pub InU32 : Received → Type 0
InU32 (message (trie_snapshot v tree)) = tree.slab.max_capacity < 2 ^ 32
InU32 (message (subscribe_request v)) = Unit
InU32 (message (thin_bgp_update u)) = Unit
InU32 (message (thin_bgp_update_frame us)) = Unit
InU32 closed = Unit
InU32 failed = Unit

module _ {B : Type 0} (gpu : Gpu B) where
  -- The loop of `run`, one round at a time.
  pub data Step : ClientState B → ClientState B → Type 0 where
    initialized : (o : Option B) → Step initializing (initialize o)
    opened : (ok : Bool) (r : RenderState B) → Step (connecting r) (connect ok r)
    requested :
        (ok : Bool) (r : RenderState B) (v : IpVersion) → Step (connected r v) ((request ok r v).1)
    synced :
        (m : Received) (r : RenderState B) (v : IpVersion)
        → InU32 m
        → Step (synchronizing r v) (synchronize gpu m r v)
    woken :
        (w : Wake) (s : SubscribedState B) (c : ClientState B)
        → steady gpu w s ≡ done c
        → Step (subscribed s) c

  pub data Reachable : ClientState B → Type 0 where
    at_start : Reachable initializing
    after_step : {c c' : ClientState B} → Reachable c → Step c c' → Reachable c'

  abbrev pub IsLive : SubscribedState B → Type 0
  IsLive s = IsBounded gpu s × IsSynced gpu s × (s.ip_version ≡ v4)

  abbrev pub IsSound : ClientState B → Type 0
  IsSound initializing = Unit
  IsSound (connecting r) = Unit
  IsSound (connected r v) = v ≡ v4
  IsSound (synchronizing r v) = v ≡ v4
  IsSound (subscribed s) = IsLive s
  IsSound (error e) = Unit

  -- What every update keeps, a message of many updates keeps.
  handle_updates-keeps :
      (P : SubscribedState B → Type 0)
      → ((now : Timestamp) (u : ThinBgpUpdate) (s s' : SubscribedState B)
          → P s
          → handle_update now u s ≡ done s'
          → P s')
      → (clock : ℕ → Timestamp) (k : ℕ) (us : List ThinBgpUpdate) (s s' : SubscribedState B) → P s
      → handle_updates clock k us s ≡ done s'
      → P s'
  unfolding handle_updates
  handle_updates-keeps P keeps clock k [] s s' h e = let same : s ≡ s' = cc in subst P same h
  handle_updates-keeps P keeps clock k (u ∷ us) s s' h e =
      let (s1, e1, e2) = bind-done (handle_update (clock k) u s) _ s' e in
      handle_updates-keeps P keeps clock (k + 1) us s1 s' (keeps (clock k) u s s1 h e1) e2

  abbrev Holds : (SubscribedState B → Type 0) → ClientState B → Type 0
  Holds P initializing = Unit
  Holds P (connecting r) = Unit
  Holds P (connected r v) = ⊥
  Holds P (synchronizing r v) = ⊥
  Holds P (subscribed s) = P s
  Holds P (error e) = ⊥

  -- What every update and every frame keep, the steady state keeps while it lasts.
  module _ (P : SubscribedState B → Type 0)
      (on_update : (now : Timestamp) (u : ThinBgpUpdate) (s s' : SubscribedState B)
        → P s
        → handle_update now u s ≡ done s'
        → P s')
      (on_frame : (now : Timestamp) (available ok : Bool) (s : SubscribedState B)
          (r : RenderState B)
        → P s
        → render gpu available s.tree.root now s.tree.slab s.render_state ≡ done (ok, r)
        → P (record s { render_state = r })) where
    pub steady-keeps :
        (w : Wake) (s : SubscribedState B) (c : ClientState B)
        → P s
        → steady gpu w s ≡ done c
        → Holds P c
    unfolding steady
    steady-keeps (received clock closed) s c h e =
        let same : connecting s.render_state ≡ c = cc in subst (Holds P) same tt
    steady-keeps (received clock failed) s c h e =
        let same : connecting s.render_state ≡ c = cc in subst (Holds P) same tt
    steady-keeps (received clock (message (thin_bgp_update u))) s c h e =
        let (s', e1, e2) = bind-done (handle_update (clock 0) u s) _ c e in
        let same : subscribed s' ≡ c = cc in subst (Holds P) same (on_update (clock 0) u s s' h e1)
    steady-keeps (received clock (message (thin_bgp_update_frame us))) s c h e =
        let (s', e1, e2) = bind-done (handle_updates clock 0 us s) _ c e in
        let same : subscribed s' ≡ c = cc in
        subst (Holds P) same (handle_updates-keeps P on_update clock 0 us s s' h e1)
    steady-keeps (received clock (message (subscribe_request v))) s c h e =
        let same : subscribed s ≡ c = cc in subst (Holds P) same h
    steady-keeps (received clock (message (trie_snapshot v tree))) s c h e =
        let same : subscribed s ≡ c = cc in subst (Holds P) same h
    steady-keeps (animation_frame now available) s c h e =
        let (a, e1, e2) =
          bind-done (render gpu available s.tree.root now s.tree.slab s.render_state) _ c e in
        let same : subscribed (record s { render_state = a.1 }) ≡ c = cc in
        subst (Holds P) same (on_frame now available a.0 s a.1 h e1)

  pub on_frame-IsSynced :
      (now : Timestamp) (available ok : Bool) (s : SubscribedState B) (r : RenderState B)
      → IsSynced gpu s
      → render gpu available s.tree.root now s.tree.slab s.render_state ≡ done (ok, r)
      → IsSynced gpu (record s { render_state = r }) × (r.dirty_node_queue ≡ [])
  on_frame-IsSynced now available ok s r sync e =
      let (empty, agrees) =
        render-Agrees gpu available ok s.tree.root now s.tree.slab s.render_state r sync e in
      (agrees, empty)

  steady-IsSound :
      (w : Wake) (s : SubscribedState B) (c : ClientState B)
      → IsLive s
      → steady gpu w s ≡ done c
      → IsSound c
  steady-IsSound w s c live e = weaken c (
      steady-keeps IsLive
        (λ now u s s' (b, sync, v) e.
          let (b', v') = handle_update-IsBounded gpu now u s s' b e in
          (b', handle_update-IsSynced gpu now u s s' b sync e, v' ∙ v))
        (λ now available ok s r (b, sync, v) e.
          (b, (on_frame-IsSynced now available ok s r sync e).0, v))
        w s c live e)
    where
      weaken : (c : ClientState B) → Holds IsLive c → IsSound c
      weaken initializing h = tt
      weaken (connecting r) h = tt
      weaken (connected r v) h = absurd h
      weaken (synchronizing r v) h = absurd h
      weaken (subscribed s) h = h
      weaken (error e) h = tt

  synchronize-IsSound :
      (m : Received) (r : RenderState B) (v : IpVersion)
      → InU32 m
      → v ≡ v4
      → IsSound (synchronize gpu m r v)
  unfolding synchronize upload_slab
  synchronize-IsSound closed r v small e = tt
  synchronize-IsSound failed r v small e = tt
  synchronize-IsSound (message (subscribe_request v')) r v small e = e
  synchronize-IsSound (message (thin_bgp_update u)) r v small e = e
  synchronize-IsSound (message (thin_bgp_update_frame us)) r v small e = e
  synchronize-IsSound (message (trie_snapshot v4 tree)) r v4 small e = (
    (omega arith, small),
    upload-InSync gpu r.slab_buffer r.dirty_node_queue tree.slab.entries,
    refl,
  )
  synchronize-IsSound (message (trie_snapshot v6 tree)) r v4 small e = e
  synchronize-IsSound (message (trie_snapshot v tree)) r v6 small e = cc

  -- One step of the client keeps a sound state sound.
  Step-IsSound : {c c' : ClientState B} → Step c c' → IsSound c → IsSound c'
  unfolding initialize connect request
  Step-IsSound (initialized none) sound = tt
  Step-IsSound (initialized (some b)) sound = tt
  Step-IsSound (opened false r) sound = tt
  Step-IsSound (opened true r) sound = refl
  Step-IsSound (requested false r v) sound = tt
  Step-IsSound (requested true r v) sound = sound
  Step-IsSound (synced m r v small) sound = synchronize-IsSound m r v small sound
  Step-IsSound (woken w s c e) sound = steady-IsSound w s c sound e

  pub Reachable-IsSound : {c : ClientState B} → Reachable c → IsSound c
  Reachable-IsSound at_start = tt
  Reachable-IsSound (after_step run step) = Step-IsSound step (Reachable-IsSound run)
