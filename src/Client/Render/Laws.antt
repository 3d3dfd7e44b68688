-- ===== src/Client/Render/Laws.antt =====
-- The buffer and the slab agree but for the queue, and a frame is drawn from a buffer that agrees.
use slash.Base.{
  ℕ, ◌+◌, ◌*◌, ◌≤◌, ◌<◌, ◌≡◌, ◌⊎◌, inl, inr, refl, Bool, true, false, Option, some, List, [], ◌∷◌,
  length, get_elem?, contains, ◌==◌, if◌then◌else◌, arith, sym, ◌∙◌, ap, subst, Option-cases, ==→eq,
  get_elem?-some, lt-length_of_get, or-cases, or_left, or_right, eq→==,
}
use native.Mathlib.Decide.{ℕ_discrete, dec_lt}
use slash.Base.Outcome.{Outcome, done, panic, expect, bind-done}
use slash.Timestamp.{Timestamp}
use slash.Node.{Node, ThinData}
use slash.Slab
use slash.Slab.{VecSlab}
use slash.Wire.{RenderUniforms}
use slash.Shader.Agree.{ReadsAs}
use slash.Client.Render.{Gpu, RenderState, node_size, flush_loop, flush_dirties, render}

-- Every index in the queue is one of the slab.
abbrev pub IsInRange : List ℕ → List (Node ThinData) → Type 0
IsInRange queue entries = (j : ℕ) → contains queue j ≡ true → j < length entries

module _ {B : Type 0} (gpu : Gpu B) where
  -- Every entry is in its slot, or in the queue.
  abbrev pub InSync : B → List ℕ → List (Node ThinData) → Type 0
  InSync b queue entries =
      (j : ℕ) (n : Node ThinData)
      → j < gpu.size b
      → get_elem? entries j ≡ some n
      → (gpu.read b j ≡ some n) ⊎ (contains queue j ≡ true)

  -- What the shader reads from a buffer.
  abbrev pub gpu_get : B → ℕ → Outcome (Node ThinData)
  gpu_get b i = expect (gpu.read b i)

  flush_one :
      (b : B) (i : ℕ) (queue : List ℕ) (entries : List (Node ThinData)) (n : Node ThinData)
      → InSync b (i ∷ queue) entries
      → get_elem? entries i ≡ some n
      → InSync (gpu.write_buffer b (i * node_size) (n ∷ [])) queue entries
  flush_one b i queue entries n sync here j m inside at = elim (ℕ_discrete j i) [
    | yes e ↦
        let lt : i + 1 ≤ gpu.size b = omega (arith, gpu.size-write b (i * node_size) (n ∷ [])) in
        let put = gpu.read-written b i 0 (n ∷ []) n lt refl in
        let index : i + 0 ≡ j = omega arith in
        let same : n ≡ m = let at' = subst (λ k. get_elem? entries k ≡ some m) e at in cc in
        inl (
          subst (λ k. gpu.read (gpu.write_buffer b (i * node_size) (n ∷ [])) k ≡ some m) index
            (put ∙ ap some same))
    | no ne ↦
        let apart : (j < i) ⊎ (i + 1 ≤ j) = ground arith in
        let kept = gpu.read-elsewhere b i j (n ∷ []) apart in
        elim (sync j m (subst (λ k. j < k) (gpu.size-write b (i * node_size) (n ∷ [])) inside) at) [
          | inl e ↦ inl (kept ∙ e)
          | inr q ↦ elim (or-cases (i == j) (contains queue j) q) [
            | inl e ↦ absurd (ne (sym (==→eq i j e)))
            | inr h ↦ inr h
          ]
        ]
  ]

  -- A buffer after all writes of the queue.
  flush_loop-InSync :
      (slab : VecSlab (Node ThinData)) (queue : List ℕ) (b : B)
      → InSync b queue slab.entries
      → IsInRange queue slab.entries
      → (b' : B) × (flush_loop gpu slab queue b ≡ done b')
        × (gpu.size b' ≡ gpu.size b)
        × InSync b' [] slab.entries
  unfolding flush_loop Slab.get
  flush_loop-InSync slab [] b sync range = (b, refl, refl, sync)
  flush_loop-InSync slab (i ∷ rest) b sync range =
      let (n, here) =
        get_elem?-some slab.entries i
          (range i (or_left (i == i) (contains rest i) (eq→== i i refl))) in
      let (b', runs, size, sync') =
        flush_loop-InSync slab rest (gpu.write_buffer b (i * node_size) (n ∷ []))
          (flush_one b i rest slab.entries n sync here)
          (λ j h. range j (or_right (i == j) (contains rest j) h)) in
      (b', rw here runs, size ∙ gpu.size-write b (i * node_size) (n ∷ []), sync')

  -- The same where the slab may have outgrown the buffer.
  abbrev pub Agrees : B → List ℕ → List (Node ThinData) → Type 0
  Agrees b queue entries = (gpu.size b < length entries) ⊎ InSync b queue entries

  -- A run that returns, where the queue may have indices that the slab does not.
  flush_loop-Agrees :
      (slab : VecSlab (Node ThinData)) (queue : List ℕ) (b b' : B)
      → Agrees b queue slab.entries
      → flush_loop gpu slab queue b ≡ done b'
      → Agrees b' [] slab.entries
  unfolding flush_loop Slab.get
  flush_loop-Agrees slab [] b b' sync e =
      let same : b ≡ b' = cc in subst (λ x. Agrees x [] slab.entries) same sync
  flush_loop-Agrees slab (i ∷ rest) b b' sync e = elim (Option-cases (get_elem? slab.entries i)) [
    | inl out ↦ let e' = rw out at e in cc
    | inr (n, here) ↦
        flush_loop-Agrees slab rest (gpu.write_buffer b (i * node_size) (n ∷ [])) b'
          (elim sync [
            | inl outgrown ↦ inl (omega (arith, gpu.size-write b (i * node_size) (n ∷ [])))
            | inr sync ↦ inr (flush_one b i rest slab.entries n sync here)
          ])
          (rw here at e)
  ]

  pub render-Agrees :
      (available ok : Bool) (root : Option ℕ) (now : Timestamp) (slab : VecSlab (Node ThinData))
      (r r' : RenderState B)
      → Agrees r.slab_buffer r.dirty_node_queue slab.entries
      → render gpu available root now slab r ≡ done (ok, r')
      → (r'.dirty_node_queue ≡ []) × Agrees r'.slab_buffer r'.dirty_node_queue slab.entries
  unfolding render flush_dirties
  render-Agrees available ok root now slab r r' sync e =
      let (flushed, e1, e2) = bind-done (flush_dirties gpu slab r) _ (ok, r') e in
      let (b, e3, e4) =
        bind-done (flush_loop gpu slab r.dirty_node_queue r.slab_buffer) _ flushed e1 in
      let agrees = flush_loop-Agrees slab r.dirty_node_queue r.slab_buffer b sync e3 in
      let buffer : b ≡ flushed.slab_buffer = cc in
      let queue : [] ≡ flushed.dirty_node_queue = cc in
      kept available flushed buffer queue agrees e2
    where
      kept :
          (available : Bool) (flushed : RenderState B) {b : B}
          → b ≡ flushed.slab_buffer
          → [] ≡ flushed.dirty_node_queue
          → Agrees b [] slab.entries
          → ◌≡◌ {A = Outcome (Bool × RenderState B)}
              (let written = record flushed {
                uniform_buffer = record { root = root; now = now };
              } in
                done (
                  if available
                  then (
                    true,
                    record written { frame = some (written.slab_buffer, written.uniform_buffer) },
                  )
                  else (false, written)))
              (done (ok, r'))
          → (r'.dirty_node_queue ≡ []) × Agrees r'.slab_buffer r'.dirty_node_queue slab.entries
      kept true flushed {b} buffer queue agrees e =
          let buffer' : flushed.slab_buffer ≡ r'.slab_buffer = cc in
          let queue' : flushed.dirty_node_queue ≡ r'.dirty_node_queue = cc in
          (
            sym (queue ∙ queue'),
            subst (λ x. Agrees x r'.dirty_node_queue slab.entries) (buffer ∙ buffer')
                (subst (λ q. Agrees b q slab.entries) (queue ∙ queue') agrees),
          )
      kept false flushed {b} buffer queue agrees e =
          let buffer' : flushed.slab_buffer ≡ r'.slab_buffer = cc in
          let queue' : flushed.dirty_node_queue ≡ r'.dirty_node_queue = cc in
          (
            sym (queue ∙ queue'),
            subst (λ x. Agrees x r'.dirty_node_queue slab.entries) (buffer ∙ buffer')
                (subst (λ q. Agrees b q slab.entries) (queue ∙ queue') agrees),
          )

  pub upload-InSync :
      (b : B) (queue : List ℕ) (entries : List (Node ThinData))
      → Agrees (gpu.write_buffer b 0 entries) queue entries
  upload-InSync b queue entries = elim (dec_lt (gpu.size b) (length entries)) [
    | yes outgrown ↦ inl (omega (arith, gpu.size-write b 0 entries))
    | no fits ↦ inr λ j n inside at.
        let start : 0 * node_size ≡ 0 = omega arith in
        let index : 0 + j ≡ j = omega arith in
        inl (
          subst (λ k. gpu.read (gpu.write_buffer b 0 entries) k ≡ some n) index
            (subst (λ o. gpu.read (gpu.write_buffer b o entries) (0 + j) ≡ some n) start
              (gpu.read-written b 0 j entries n (omega arith) at)))
  ]

  flush_loop-panic :
      (slab : VecSlab (Node ThinData)) (i : ℕ) (queue : List ℕ) (b : B)
      → contains queue i ≡ true
      → length slab.entries ≤ i
      → flush_loop gpu slab queue b ≡ panic
  unfolding flush_loop Slab.get
  flush_loop-panic slab i [] b h out = cc
  flush_loop-panic slab i (x ∷ rest) b h out = elim (Option-cases (get_elem? slab.entries x)) [
    | inl e ↦ rw e refl
    | inr (n, e) ↦ elim (or-cases (x == i) (contains rest i) h) [
      | inl same ↦ absurd (omega (arith, ==→eq x i same, lt-length_of_get slab.entries x n e))
      | inr later ↦
          rw e
            (flush_loop-panic slab i rest (gpu.write_buffer b (x * node_size) (n ∷ [])) later out)
    ]
  ]

  -- An index that is queued and that the slab does not have.
  pub render-panic :
      (available : Bool) (root : Option ℕ) (now : Timestamp) (slab : VecSlab (Node ThinData))
      (r : RenderState B) (i : ℕ)
      → contains r.dirty_node_queue i ≡ true
      → length slab.entries ≤ i
      → render gpu available root now slab r ≡ panic
  unfolding render flush_dirties
  render-panic available root now slab r i queued out =
      rw (flush_loop-panic slab i r.dirty_node_queue r.slab_buffer queued out) refl

  -- What a frame shows.
  abbrev pub ShowsTree : RenderState B → VecSlab (Node ThinData) → Option ℕ → Timestamp → Type 0
  ShowsTree r slab root now =
      (b : B) × (r.frame ≡ some (b, record { root = root; now = now }))
      × ReadsAs (Slab.get slab) (gpu_get b)

  pub render-ShowsTree :
      (root : Option ℕ) (now : Timestamp) (slab : VecSlab (Node ThinData)) (r : RenderState B)
      → InSync r.slab_buffer r.dirty_node_queue slab.entries
      → IsInRange r.dirty_node_queue slab.entries
      → length slab.entries ≤ gpu.size r.slab_buffer
      → (r' : RenderState B) × (render gpu true root now slab r ≡ done (true, r'))
        × (r'.dirty_node_queue ≡ [])
        × InSync r'.slab_buffer [] slab.entries
        × ShowsTree r' slab root now
  unfolding render flush_dirties Slab.get
  render-ShowsTree root now slab r sync range fits =
      let (b, runs, size, sync') =
        flush_loop-InSync slab r.dirty_node_queue r.slab_buffer sync range in
      let uniforms : RenderUniforms = record { root = root; now = now } in
      (
        record r {
          slab_buffer = b;
          uniform_buffer = uniforms;
          dirty_node_queue = [];
          frame = some (b, uniforms);
        },
        rw runs refl,
        refl,
        sync',
        (
          b,
          refl,
          λ i n e.
              let at = entry i n e in
              let inside : i < gpu.size b = omega (arith, lt-length_of_get slab.entries i n at) in
              elim (sync' i n inside at) [ inl h ↦ rw h refl | inr h ↦ cc ],
        ),
      )
    where
      entry :
          (i : ℕ) (n : Node ThinData)
          → expect (get_elem? slab.entries i) ≡ done n
          → get_elem? slab.entries i ≡ some n
      entry i n e = elim (Option-cases (get_elem? slab.entries i)) [
        | inl h ↦ let e' = rw h at e in cc
        | inr (m, h) ↦ let e' = rw h at e in let same : m ≡ n = cc in h ∙ ap some same
      ]
