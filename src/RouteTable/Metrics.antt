-- ===== src/RouteTable/Metrics.antt =====
-- The gauges of crates/server/src/route_table.rs, and that they tell what the tries hold. The size
-- of a node in bytes and the capacity that a `Vec` has allocated are parameters; a gauge's
-- floating-point number is the number that it is made of.
use slash.Base.{
  ℕ, ◌+◌, ◌*◌, ◌^◌, ◌<◌, ◌≡◌, refl, Option, none, some, ◌-◌, List, [], ◌∷◌, length, arith, subst,
}
use slash.Base.Outcome.{done}
use slash.Timestamp.{Timestamp}
use slash.Prefix.{IpVersion, v4, v6}
use slash.Prefix.Cidr.{Text, IpAddr}
use slash.Prefix.Cidr.Laws.{IsIp}
use slash.Node.{Node, ThickData, thick_node_data}
use slash.Slab
use slash.Slab.{VecSlab}
use slash.Slab.Alloc.{with_capacity-IsSlab}
use slash.Tree.{node_count, with_root}
use slash.Tree.Insert.{default_node}
use slash.Tree.Trie.{nil, Trie, size, count_announced, Represents}
use slash.Tree.Exact.{IsExact, IsExact-conserved, node_count-IsExact}
use slash.Tree.Ready.{IsReady}
use slash.RouteTable.{ThickTree, RouteTable, tree_for, new_table}
use slash.RouteTable.Steps.{Step, run_steps}
use slash.RouteTable.Steps.Changed.{AreReady}
use slash.RouteTable.Steps.Changed.All.{steps-Stepped}

pub record Gauges : Type 0 where
  pub total_nodes : ℕ
  pub announced_nodes : ℕ
  pub sweeps_total : ℕ
  pub slab_size : ℕ
  pub slab_capacity : ℕ

new_tree : ThickTree
new_tree = with_root (Slab.new (default_node thick_node_data)) none

new_tree-Represents : Represents new_tree nil
unfolding new_tree Slab.new count_announced with_root
new_tree-Represents = record {
  slab = with_capacity-IsSlab (default_node thick_node_data) (2 ^ 32 - 1) (omega arith);
  stored = tt;
  root = refl;
  separate = tt;
  shape = tt;
  tally = refl;
}

new_tree-IsReady : (n : ℕ) → 2 * n < 2 ^ 32 → IsReady n new_tree nil
unfolding new_tree Slab.new Slab.with_capacity with_root
new_tree-IsReady n h = record {
  represents = new_tree-Represents;
  entries = omega arith;
  counts = omega arith;
}

-- The table that the server starts with has room for less than 2^31 steps.
pub new_table-AreReady :
    (Json Seconds : Type 0) (n : ℕ)
    → 2 * n < 2 ^ 32
    → AreReady n (new_table {Json = Json} {Seconds = Seconds}) nil nil
unfolding new_table new_tree with_root
new_table-AreReady Json Seconds n h = record {
  ready4 = new_tree-IsReady n h;
  ready6 = new_tree-IsReady n h;
  sweeps4 = omega arith;
  sweeps6 = omega arith;
}

new_tree-IsExact : IsExact new_tree nil
unfolding new_tree Slab.new Slab.with_capacity with_root size
new_tree-IsExact = record { exact = refl }

pub new_table-IsExact :
    (Json Seconds : Type 0)
    → IsExact ((new_table {Json = Json} {Seconds = Seconds}).tree_v4) nil
      × IsExact ((new_table {Json = Json} {Seconds = Seconds}).tree_v6) nil
unfolding new_table new_tree
new_table-IsExact Json Seconds = (new_tree-IsExact, new_tree-IsExact)

-- The gauges of a tree tell the nodes of a trie, and those that are announced.
abbrev pub Shows : Gauges → Trie ThickData → Type 0
Shows g t = (g.total_nodes ≡ size t) × (g.announced_nodes ≡ count_announced t)

module _ (size_of_node : ℕ) (vec_capacity : VecSlab (Node ThickData) → ℕ) where
  -- `Slab::size` and `Slab::size_capacity`.
  abbrev pub slab_size : VecSlab (Node ThickData) → ℕ
  slab_size s = size_of_node * length s.entries

  abbrev pub size_capacity : VecSlab (Node ThickData) → ℕ
  size_capacity s = size_of_node * vec_capacity s

  unfoldable pub gauges : ThickTree → Gauges
  gauges tree = record {
    total_nodes = node_count tree;
    announced_nodes = tree.announced_count;
    sweeps_total = tree.sweep_count;
    slab_size = slab_size tree.slab;
    slab_capacity = size_capacity tree.slab;
  }

  unfoldable pub record_metrics :
      {Json Seconds : Type 0} → RouteTable Json Seconds → List (IpVersion × Gauges)
  record_metrics t = (v4, gauges (tree_for v4 t)) ∷ (v6, gauges (tree_for v6 t)) ∷ []

  gauges-Shows :
      (tree : ThickTree) (t : Trie ThickData)
      → Represents tree t
      → IsExact tree t
      → Shows (gauges tree) t
  unfolding gauges
  gauges-Shows tree t rep e = (node_count-IsExact tree t rep e, rep.tally)

  module _ {Json Seconds : Type 0} (parse_ip : Text → Option IpAddr) (parse_len : Text → Option ℕ)
      (from_sec : Seconds → Timestamp)
      (in_range : (text : Text) (ip : IpAddr) → parse_ip text ≡ some ip → IsIp ip) where
    -- Let a parser of addresses give results of 32 or 128 bits. Where both tries of the table are
    -- well formed with room for some steps, and every entry of their slabs but the first is free,
    -- still to come or a node, the steps return; then the slab of each family holds a well-formed
    -- trie, and the gauges of the family are its number of nodes and of announced nodes.
    pub record_metrics-Shows :
        (steps : List (Step Json Seconds)) (t : RouteTable Json Seconds) (t4 t6 : Trie ThickData)
        → AreReady (length steps) t t4 t6
        → IsExact t.tree_v4 t4
        → IsExact t.tree_v6 t6
        → (t' : RouteTable Json Seconds) × (run_steps parse_ip parse_len from_sec steps t ≡ done t')
          × (g4 g6 : Gauges) × (record_metrics t' ≡ (v4, g4) ∷ (v6, g6) ∷ [])
          × (t4' t6' : Trie ThickData) × Represents t'.tree_v4 t4'
          × Represents t'.tree_v6 t6'
          × Shows g4 t4'
          × Shows g6 t6'
    unfolding record_metrics
    record_metrics-Shows steps t t4 t6 ready e4 e6 =
        let all : length steps ≡ length steps + 0 = omega arith in
        let (t', us, vs, runs, _, _, st) =
          steps-Stepped parse_ip parse_len from_sec in_range 0 steps t t4 t6
            (subst (λ k. AreReady k t t4 t6) all ready) in
        let rep4 = st.ready.ready4.represents in
        let rep6 = st.ready.ready6.represents in
        (
          t',
          runs,
          gauges t'.tree_v4,
          gauges t'.tree_v6,
          refl,
          st.after4,
          st.after6,
          rep4,
          rep6,
          gauges-Shows t'.tree_v4 st.after4 rep4
              (IsExact-conserved t.tree_v4 t'.tree_v4 t4 st.after4 st.conserved4 e4),
          gauges-Shows t'.tree_v6 st.after6 rep6
              (IsExact-conserved t.tree_v6 t'.tree_v6 t6 st.after6 st.conserved6 e6),
        )
