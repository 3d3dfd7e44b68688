-- ===== src/Examples/Gauges.antt =====
-- The gauges of the server after its first steps.
use slash.Base.{ℕ, ◌≡◌, arith, List, [], ◌∷◌}
use slash.Base.Outcome.{done}
use slash.Timestamp.{ts}
use slash.Prefix.{v4, v6}
use slash.Node.{ThickData}
use slash.Tree.Trie.{Trie, nil, Represents}
use slash.Messages.{announce, withdraw}
use slash.RouteTable.{RouteTable, new_table}
use slash.RouteTable.Steps.{Step, change, publish, sweep_tree, run_steps}
use slash.RouteTable.Metrics.{
  Gauges, Shows, record_metrics, new_table-AreReady, new_table-IsExact, record_metrics-Shows,
}
use slash.Examples.{cidr, ip_parser, len_parser, ip_parser-IsIp}
use slash.Examples.Connection.{news, from_sec}

-- A route comes and goes, and a sweep takes its node away.
abbrev steps : List (Step (Unit {0}) ℕ)
steps =
    change (ts 0 7) cidr announce
    ∷ change (ts 0 7) cidr withdraw
    ∷ publish news
    ∷ sweep_tree v4
    ∷ change (ts 0 8) cidr announce
    ∷ []

record_metrics-Shows_example :
    (t' : RouteTable (Unit {0}) ℕ) × (run_steps ip_parser len_parser from_sec steps new_table
      ≡ done t')
    × (g4 g6 : Gauges) × (record_metrics 40 (λ s. 1024) t' ≡ (v4, g4) ∷ (v6, g6) ∷ [])
    × (t4' t6' : Trie ThickData) × Represents t'.tree_v4 t4'
    × Represents t'.tree_v6 t6'
    × Shows g4 t4'
    × Shows g6 t6'
record_metrics-Shows_example =
    record_metrics-Shows 40 (λ s. 1024) ip_parser len_parser from_sec ip_parser-IsIp steps new_table
      nil nil (new_table-AreReady (Unit {0}) ℕ 5 (omega arith)) (new_table-IsExact (Unit {0}) ℕ).0
      (new_table-IsExact (Unit {0}) ℕ).1
