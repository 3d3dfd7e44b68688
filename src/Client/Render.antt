-- ===== src/Client/Render.antt =====
-- crates/client/src/render.rs: what reaches the GPU. WebGPU is a parameter: an interface of a
-- storage buffer with the laws that its documentation gives for `Queue::write_buffer`. Surfaces,
-- pipelines and the draw call are not modelled; a drawn frame is the pair of buffers that it was
-- drawn from. `dirty_node_queue` is a list of the members of the source's `HashSet`, in the order in
-- which it is iterated, which nothing here depends on.
pub mod Laws
use slash.Base.{
  ℕ, zero, suc, ◌+◌, ◌*◌, ◌≤◌, ◌<◌, ◌≡◌, ◌⊎◌, Bool, true, false, Option, none, some, List, [], ◌∷◌,
  ◌++◌, length, get_elem?, contains, if◌then◌else◌,
}
use slash.Base.Outcome.{Outcome, done, ◌>>=◌, ◌>>◌}
use slash.Timestamp.{Timestamp, ts_zero}
use slash.Node.{Node, ThinData}
use slash.Slab
use slash.Slab.{VecSlab}
use slash.Wire.{RenderUniforms}

-- `NODE_SIZE`: two children, four words and a length, the flags, and two words of time, of 4 bytes
-- each.
abbrev pub node_size : ℕ
node_size = 40

-- A storage buffer of nodes. Offsets are in bytes; slot `i` is at byte `i * node_size`, and `size`
-- counts slots. A write that ends in the buffer puts its nodes there, and no write changes the size
-- or another slot.
pub record Gpu (B : Type 0) : Type 0 where
  pub size : B → ℕ
  pub write_buffer : B → ℕ → List (Node ThinData) → B
  pub read : B → ℕ → Option (Node ThinData)
  pub size-write :
      (b : B) (offset : ℕ) (xs : List (Node ThinData)) → size (write_buffer b offset xs) ≡ size b
  pub read-written :
      (b : B) (i j : ℕ) (xs : List (Node ThinData)) (n : Node ThinData)
      → i + length xs ≤ size b
      → get_elem? xs j ≡ some n
      → read (write_buffer b (i * node_size) xs) (i + j) ≡ some n
  pub read-elsewhere :
      (b : B) (i k : ℕ) (xs : List (Node ThinData))
      → (k < i) ⊎ (i + length xs ≤ k)
      → read (write_buffer b (i * node_size) xs) k ≡ read b k

pub record RenderState (B : Type 0) : Type 0 where
  pub slab_buffer : B
  pub uniform_buffer : RenderUniforms
  pub dirty_node_queue : List ℕ
  -- The buffers that the last presented frame was drawn from.
  pub frame : Option (B × RenderUniforms)

-- `RenderState::init` on a new buffer; WebGPU fills a buffer with zeros.
unfoldable pub init : {B : Type 0} → B → RenderState B
init b = record {
  slab_buffer = b;
  uniform_buffer = record { root = none; now = ts_zero };
  dirty_node_queue = [];
  frame = none;
}

-- `HashSet::extend`.
abbrev pub extend : List ℕ → List ℕ → List ℕ
extend queue [] = queue
extend queue (idx ∷ rest) = extend (if contains queue idx then queue else queue ++ idx ∷ []) rest

unfoldable pub update : {B : Type 0} → List ℕ → RenderState B → RenderState B
update dirty r = record r { dirty_node_queue = extend r.dirty_node_queue dirty }

module _ {B : Type 0} (gpu : Gpu B) where
  unfoldable pub upload_slab : VecSlab (Node ThinData) → RenderState B → RenderState B
  upload_slab slab r = record r { slab_buffer = gpu.write_buffer r.slab_buffer 0 slab.entries }

  unfoldable pub flush_loop : VecSlab (Node ThinData) → List ℕ → B → Outcome B
  flush_loop slab [] b = done b
  flush_loop slab (idx ∷ rest) b = do
    node ← Slab.get slab idx
    flush_loop slab rest (gpu.write_buffer b (idx * node_size) (node ∷ []))

  unfoldable pub flush_dirties : VecSlab (Node ThinData) → RenderState B → Outcome (RenderState B)
  flush_dirties slab r = do
    b ← flush_loop slab r.dirty_node_queue r.slab_buffer
    done (record r { slab_buffer = b; dirty_node_queue = [] })

  -- `available` is whether the surface has a texture; without one the result is an error, after
  -- both buffers were written.
  unfoldable pub render :
      (available : Bool)
      → Option ℕ
      → Timestamp
      → VecSlab (Node ThinData)
      → RenderState B
      → Outcome (Bool × RenderState B)
  render available root now slab r = do
    r' ← flush_dirties slab r
    let written = record r' { uniform_buffer = record { root = root; now = now } }
    done (
        if available
        then (true, record written { frame = some (written.slab_buffer, written.uniform_buffer) })
        else (false, written))
