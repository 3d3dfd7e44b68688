-- ===== src/Examples/Client.antt =====
-- A browser with a tree of one node, an update and a frame; a buffer that fills the interface.
use slash.Base.{
  ℕ, zero, suc, ◌+◌, ◌*◌, ◌/◌, ◌-◌, ◌^◌, ◌≤◌, ◌<◌, ◌≡◌, ◌⊎◌, inl, inr, refl, true, none, some, List,
  [], ◌∷◌, length, get_elem?, arith, ap, subst,
}
use slash.Base.Outcome.{done, panic}
use slash.Timestamp.{Timestamp, ts, ts_zero}
use slash.Prefix.{prefix, v4, v6, Prefix}
use slash.Address.{address}
use slash.Node.{Node, ThinData, thin}
use slash.Slab
use slash.Slab.{write}
use slash.Node.{is_announced, set_announced}
use slash.Address
use slash.Prefix
use slash.Tree.{lookup_from, lookup_loop}
use slash.Tree.Insert.{insert, insert_at, insert_recursive, reannounce}
use slash.Tree.Monad.{get_node, update_node, mark_dirty, set_root}
use slash.Hilbert.{
  point_to_ip, point_to_ip_loop, point_to_ip_step, reflect, axis_bit, set_index_bit, rotate,
  complement_low_axis_bits, low_bit_mask,
}
use slash.Tree.{RadixTree}
use slash.Messages.{ThinBgpUpdate, announce}
use slash.Wire.{message, trie_snapshot, thin_bgp_update, RenderUniforms}
use slash.Shader.{faded, fs_main, shade, age_ms}
use slash.Client.Render.{Gpu, RenderState, init, node_size, update, upload_slab}
use slash.Client.Render.Laws.{gpu_get}
use slash.Client.Session.{
  SubscribedState, subscribed, received, animation_frame, synchronize, steady, handle_update,
  mutate, apply_update,
}
use slash.Client.Session.Frames.{fresh, later, frame_shows_tree, stale_queue-panic}

abbrev pub Nodes : Type 0
Nodes = List (Node ThinData)

abbrev put : Nodes → ℕ → Nodes → Nodes
put [] i xs = []
put (b ∷ bs) (suc i) xs = b ∷ put bs i xs
put (b ∷ bs) zero [] = b ∷ bs
put (b ∷ bs) zero (x ∷ xs) = x ∷ put bs zero xs

pub length-put : (b : Nodes) (i : ℕ) (xs : Nodes) → length (put b i xs) ≡ length b
length-put [] i xs = refl
length-put (b ∷ bs) (suc i) xs = ap suc (length-put bs i xs)
length-put (b ∷ bs) zero [] = refl
length-put (b ∷ bs) zero (x ∷ xs) = ap suc (length-put bs zero xs)

pub get_elem?-put_inside :
    (b : Nodes) (i j : ℕ) (xs : Nodes) (n : Node ThinData)
    → i + length xs ≤ length b
    → get_elem? xs j ≡ some n
    → get_elem? (put b i xs) (i + j) ≡ some n
get_elem?-put_inside [] i j [] n h e = cc
get_elem?-put_inside [] i j (x ∷ xs) n h e = absurd (omega arith)
get_elem?-put_inside (b ∷ bs) (suc i) j xs n h e =
    let k : suc (i + j) ≡ suc i + j = omega arith in
    subst (λ m. get_elem? (b ∷ put bs i xs) m ≡ some n) k
      (get_elem?-put_inside bs i j xs n (omega arith) e)
get_elem?-put_inside (b ∷ bs) zero j [] n h e = cc
get_elem?-put_inside (b ∷ bs) zero zero (x ∷ xs) n h e = e
get_elem?-put_inside (b ∷ bs) zero (suc j) (x ∷ xs) n h e =
    let k : suc (0 + j) ≡ 0 + suc j = omega arith in
    subst (λ m. get_elem? (x ∷ put bs zero xs) m ≡ some n) k
      (get_elem?-put_inside bs zero j xs n (omega arith) e)

pub get_elem?-put_outside :
    (b : Nodes) (i k : ℕ) (xs : Nodes)
    → (k < i) ⊎ (i + length xs ≤ k)
    → get_elem? (put b i xs) k ≡ get_elem? b k
get_elem?-put_outside [] i k xs h = refl
get_elem?-put_outside (b ∷ bs) (suc i) zero xs h = refl
get_elem?-put_outside (b ∷ bs) (suc i) (suc k) xs h =
    get_elem?-put_outside bs i k xs
      (elim h [ inl lt ↦ inl (omega arith) | inr le ↦ inr (omega arith) ])
get_elem?-put_outside (b ∷ bs) zero k [] h = refl
get_elem?-put_outside (b ∷ bs) zero zero (x ∷ xs) h = elim h [
  | inl lt ↦ absurd (omega arith)
  | inr le ↦ absurd (omega arith)
]
get_elem?-put_outside (b ∷ bs) zero (suc k) (x ∷ xs) h =
    get_elem?-put_outside bs zero k xs
      (elim h [ inl lt ↦ absurd (omega arith) | inr le ↦ inr (omega arith) ])

abbrev pub list_gpu : Gpu Nodes
list_gpu = record {
  size = λ b. length b;
  write_buffer = λ b offset xs. put b (offset / node_size) xs;
  read = λ b i. get_elem? b i;
  size-write = λ b offset xs. length-put b (offset / node_size) xs;
  read-written = λ b i j xs n h e.
      subst (λ k. get_elem? (put b k xs) (i + j) ≡ some n) (slot i)
        (get_elem?-put_inside b i j xs n h e);
  read-elsewhere = λ b i k xs h.
      subst (λ m. get_elem? (put b m xs) k ≡ get_elem? b k) (slot i)
        (get_elem?-put_outside b i k xs h);
}
  where
    slot : (i : ℕ) → i ≡ i * 40 / 40
    slot i = omega arith

abbrev pub everything : Prefix
everything = prefix (address 0 0 0 0) 0

abbrev pub leaf : Timestamp → Node ThinData
leaf t = record { child0 = none; child1 = none; prefix = everything; flags = 1; payload = thin t }

abbrev pub tree_at : Timestamp → RadixTree ThinData
tree_at t = record {
  slab = record { entries = leaf ts_zero ∷ leaf t ∷ []; free_list = []; max_capacity = 2 ^ 32 - 1 };
  root = some 1;
  announced_count = 1;
  sweep_count = 0;
}

abbrev buffer : Nodes
buffer = leaf ts_zero ∷ leaf ts_zero ∷ leaf ts_zero ∷ []

abbrev news : ThinBgpUpdate
news = record { prefix = everything; timestamp = ts 0 9; update_type = announce }

abbrev pub first : SubscribedState Nodes
first = record {
  render_state = record {
    slab_buffer = leaf ts_zero ∷ leaf (ts 0 5) ∷ leaf ts_zero ∷ [];
    uniform_buffer = record { root = none; now = ts_zero };
    dirty_node_queue = [];
    frame = none;
  };
  ip_version = v4;
  tree = tree_at (ts 0 5);
  updates_since_sweep = 0;
}

abbrev second : SubscribedState Nodes
second = record {
  render_state = record {
    slab_buffer = leaf ts_zero ∷ leaf (ts 0 5) ∷ leaf ts_zero ∷ [];
    uniform_buffer = record { root = none; now = ts_zero };
    dirty_node_queue = 1 ∷ [];
    frame = none;
  };
  ip_version = v4;
  tree = tree_at (ts 0 9);
  updates_since_sweep = 1;
}

first_snapshot :
    synchronize list_gpu (message (trie_snapshot v4 (tree_at (ts 0 5)))) (init buffer) v4
    ≡ subscribed first
unfolding synchronize upload_slab init
first_snapshot = refl

first_update :
    steady list_gpu (received (λ k. ts 0 10) (message (thin_bgp_update news))) first
    ≡ done (subscribed second)
unfolding steady handle_update mutate apply_update insert insert_at insert_recursive reannounce
    get_node update_node Slab.get write mark_dirty set_root is_announced set_announced update
first_update = refl

init-empty : (init buffer).dirty_node_queue ≡ []
unfolding init
init-empty = refl

second_pixel :
    fs_main (Slab.get second.tree.slab) (record { root = some 1; now = ts 0 20 }) 3 5
    ≡ done (faded 11)
unfolding fs_main shade age_ms lookup_from lookup_loop Slab.get point_to_ip point_to_ip_loop
    point_to_ip_step reflect axis_bit set_index_bit rotate complement_low_axis_bits low_bit_mask
    is_announced Prefix.from_address Prefix.common_prefix_len Address.common_prefix_len
    Prefix.bit_at Address.bit_at Address.masked Address.masked_word
second_pixel = refl

frame_shows_tree_example :
    (r' : RenderState Nodes) × (b : Nodes) × (uniforms : RenderUniforms) × (steady list_gpu
        (animation_frame (ts 0 20) true)
        second
      ≡ done (subscribed (record second { render_state = r' })))
    × (r'.frame ≡ some (b, uniforms))
    × (fs_main (gpu_get list_gpu b) uniforms 3 5 ≡ done (faded 11))
frame_shows_tree_example =
    frame_shows_tree list_gpu (init buffer) v4 v4 (tree_at (ts 0 5)) first second (ts 0 20) 3 5
      (faded 11) init-empty (omega arith) first_snapshot
      (later (received (λ k. ts 0 10) (message (thin_bgp_update news))) fresh first_update)
      (omega arith) second_pixel

-- A queue that an earlier connection left.
abbrev stale : RenderState Nodes
stale = record (first.render_state) { dirty_node_queue = 2 ∷ [] }

abbrev after_stale : SubscribedState Nodes
after_stale = record first { render_state = stale }

stale_snapshot :
    synchronize list_gpu (message (trie_snapshot v4 (tree_at (ts 0 5)))) stale v4
    ≡ subscribed after_stale
unfolding synchronize upload_slab
stale_snapshot = refl

stale_queue-panic_example : steady list_gpu (animation_frame (ts 0 20) true) after_stale ≡ panic
stale_queue-panic_example =
    stale_queue-panic list_gpu stale v4 v4 (tree_at (ts 0 5)) after_stale (ts 0 20) true 2 refl
      (omega arith) stale_snapshot
