-- ===== src/Client/Session/Frames.antt =====
-- What a frame shows, from the snapshot on.
use slash.Base.{
  ℕ, ◌^◌, ◌≤◌, ◌<◌, ◌≡◌, inl, inr, refl, Bool, true, some, [], length, contains, arith, subst,
  Bool-cases,
}
use slash.Base.Outcome.{done, panic}
use slash.Timestamp.{Timestamp}
use slash.Prefix.{IpVersion, version_eq}
use slash.Node.{ThinData}
use slash.Slab
use slash.Slab.{VecSlab}
use slash.Tree.{RadixTree}
use slash.Wire.{message, trie_snapshot, RenderUniforms}
use slash.Shader.{Pixel, fs_main}
use slash.Shader.Agree.{fs_main-ReadsAs}
use slash.Client.Render.{Gpu, RenderState, upload_slab}
use slash.Client.Render.Laws.{gpu_get, upload-InSync, render-panic, render-ShowsTree}
use slash.Client.Session.{SubscribedState, subscribed, Wake, animation_frame, synchronize, steady}
use slash.Client.Session.Updates.{
  IsSynced, IsBounded, IsQueued, handle_update-IsBounded, handle_update-IsSynced,
  handle_update-IsQueued,
}
use slash.Client.Session.Reach.{steady-keeps, on_frame-IsSynced}

module _ {B : Type 0} (gpu : Gpu B) where
  -- The steady state from one state to another.
  pub data Session (s : SubscribedState B) : SubscribedState B → Type 0 where
    fresh : Session s s
    later :
        {s1 s2 : SubscribedState B} (w : Wake)
        → Session s s1
        → steady gpu w s1 ≡ done (subscribed s2)
        → Session s s2

  abbrev IsCurrent : SubscribedState B → Type 0
  IsCurrent s = IsBounded gpu s × IsSynced gpu s × IsQueued gpu s

  Session-IsCurrent : {s s' : SubscribedState B} → IsCurrent s → Session s s' → IsCurrent s'
  Session-IsCurrent h fresh = h
  Session-IsCurrent h (later w run e) =
      steady-keeps gpu IsCurrent
        (λ now u s s' (b, sync, q) e. (
          (handle_update-IsBounded gpu now u s s' b e).0,
          handle_update-IsSynced gpu now u s s' b sync e,
          handle_update-IsQueued gpu now u s s' b q e,
        ))
        (λ now available ok s r (b, sync, q) e.
          let (sync', empty) = on_frame-IsSynced gpu now available ok s r sync e in
          (b, sync', λ j h. let wrong = rw empty at h in cc))
        w _ _ (Session-IsCurrent h run) e

  -- What a snapshot makes of the state.
  abbrev seeded : RenderState B → IpVersion → RadixTree ThinData → SubscribedState B
  seeded r v tree = record {
    render_state = upload_slab gpu tree.slab r;
    ip_version = v;
    tree = tree;
    updates_since_sweep = 0;
  }

  synchronize-seeded :
      (r : RenderState B) (v v' : IpVersion) (tree : RadixTree ThinData) (s : SubscribedState B)
      → synchronize gpu (message (trie_snapshot v tree)) r v' ≡ subscribed s
      → seeded r v tree ≡ s
  unfolding synchronize
  synchronize-seeded r v v' tree s e = elim (Bool-cases (version_eq v v')) [
    | inl same ↦ let e' = rw same at e in cc
    | inr other ↦ let e' = rw other at e in cc
  ]

  seeded-IsCurrent :
      (r : RenderState B) (v : IpVersion) (tree : RadixTree ThinData)
      → r.dirty_node_queue ≡ []
      → tree.slab.max_capacity < 2 ^ 32
      → IsCurrent (seeded r v tree)
  unfolding upload_slab
  seeded-IsCurrent r v tree empty small = (
    (omega arith, small),
    upload-InSync gpu r.slab_buffer r.dirty_node_queue tree.slab.entries,
    λ j h. let wrong = rw empty at h in cc,
  )

  -- Let the client take a snapshot while nothing is queued for the GPU, and then go through any
  -- messages and frames to a state that is still subscribed, whose slab fits the buffer. Then the
  -- next animation frame on which the surface is available does not panic and presents a frame, and
  -- where the shader on the tree itself gives a pixel, the shader on the buffers of that frame
  -- gives that pixel.
  pub frame_shows_tree :
      (r : RenderState B) (v v' : IpVersion) (tree : RadixTree ThinData) (s s' : SubscribedState B)
      (now : Timestamp) (x y : ℕ) (pixel : Pixel)
      → r.dirty_node_queue ≡ []
      → tree.slab.max_capacity < 2 ^ 32
      → synchronize gpu (message (trie_snapshot v tree)) r v' ≡ subscribed s
      → Session s s'
      → length s'.tree.slab.entries ≤ gpu.size s'.render_state.slab_buffer
      → fs_main (Slab.get s'.tree.slab) (record { root = s'.tree.root; now = now }) x y ≡ done pixel
      → (r' : RenderState B) × (b : B) × (uniforms : RenderUniforms) × (steady gpu
            (animation_frame now true)
            s'
          ≡ done (subscribed (record s' { render_state = r' })))
        × (r'.frame ≡ some (b, uniforms))
        × (fs_main (gpu_get gpu b) uniforms x y ≡ done pixel)
  unfolding steady
  frame_shows_tree r v v' tree s s' now x y pixel empty small starts run fits here =
      let current =
        Session-IsCurrent
          (subst IsCurrent (synchronize-seeded r v v' tree s starts)
            (seeded-IsCurrent r v tree empty small))
          run in
      let (bounded, synced, queued) = current in
      elim synced [
        | inl outgrown ↦ absurd (omega arith)
        | inr sync ↦
            let (r', runs, empty', sync', (b, shown, reads)) =
              render-ShowsTree gpu s'.tree.root now s'.tree.slab s'.render_state sync queued fits in
            (
              r',
              b,
              record { root = s'.tree.root; now = now },
              rw runs refl,
              shown,
              fs_main-ReadsAs _ _ _ x y pixel reads here,
            )
      ]

  -- Where an index of an earlier tree is still queued when the client takes a snapshot whose slab
  -- does not reach it, the next animation frame panics.
  pub stale_queue-panic :
      (r : RenderState B) (v v' : IpVersion) (tree : RadixTree ThinData) (s : SubscribedState B)
      (now : Timestamp) (available : Bool) (i : ℕ)
      → contains r.dirty_node_queue i ≡ true
      → length tree.slab.entries ≤ i
      → synchronize gpu (message (trie_snapshot v tree)) r v' ≡ subscribed s
      → steady gpu (animation_frame now available) s ≡ panic
  unfolding steady upload_slab
  stale_queue-panic r v v' tree s now available i queued out starts =
      subst (λ t. steady gpu (animation_frame now available) t ≡ panic)
        (synchronize-seeded r v v' tree s starts)
        (rw
          (render-panic gpu available tree.root now tree.slab (upload_slab gpu tree.slab r) i queued
            out)
          refl)
