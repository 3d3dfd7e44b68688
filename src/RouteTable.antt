-- ===== src/RouteTable.antt =====
-- crates/server/src/route_table.rs: two tries, one for each family, that RIS Live messages change,
-- and the log of what went out to subscribers. The lock of a trie is held by one thread for the
-- whole of an operation on that trie, so an operation is a step on the table. `Timestamp::from_sec`
-- is a parameter. The logging and the MRT reader are not modelled. A `HashMap` of routes is the
-- list of its pairs in the order of iteration.
pub mod Ingest
pub mod Seed
pub mod Changes
pub mod Steps
pub mod Metrics
use slash.Base.{ℕ, Option, none, List, [], ◌∷◌, ◌++◌, inl, inr}
use slash.Base.Outcome.{Outcome, done, ◌>>=◌}
use slash.Timestamp.{Timestamp, ts_zero}
use slash.Prefix.{IpVersion, v4, v6, Prefix}
use slash.Prefix.Cidr.{Text, IpAddr, parse_cidr}
use slash.Node.{ThickData, thick, thick_node_data}
use slash.Slab
use slash.Tree.{RadixTree, with_root}
use slash.Tree.Monad.{M}
use slash.Tree.Insert.{insert, default_node}
use slash.Tree.Withdraw.{withdraw}
use slash.Tree.Sweep.{sweep_tombstones}
use slash.Messages.{
  RisMessage, RisMessageBody, update, keepalive, open_, notification, ris_peer_state, flatten,
  announced_texts,
}

abbrev pub ThickTree : Type 0
ThickTree = RadixTree ThickData

pub record RouteTable (Json Seconds : Type 0) : Type 0 where
  pub tree_v4 : ThickTree
  pub tree_v6 : ThickTree
  -- What `updates` has broadcast, the oldest message first.
  pub updates : List (RisMessage Json Seconds)

-- A change of one trie, whose reports of dirty nodes go nowhere.
abbrev pub run_on : {A : Type 0} → M ThickData A → ThickTree → Outcome ThickTree
run_on m tree = m (record { tree = tree; dirty = [] }) >>= λ r. done (r.1.tree)

-- The two changes of a trie that `apply_message` makes.
abbrev pub announce_on : Timestamp → Prefix → ThickTree → Outcome ThickTree
announce_on ts p tree = run_on (insert thick_node_data p (thick ts_zero) ts) tree

abbrev pub withdraw_on : Timestamp → Prefix → ThickTree → Outcome ThickTree
withdraw_on ts p tree = run_on (withdraw thick_node_data p ts) tree

unfoldable pub insert_routes : List (Prefix × Timestamp) → ThickTree → Outcome ThickTree
insert_routes [] tree = done tree
insert_routes ((p, ts) ∷ rest) tree =
    run_on (insert thick_node_data p (thick ts) ts) tree >>= λ tree. insert_routes rest tree

module _ {Json Seconds : Type 0} where
  unfoldable pub new_table : RouteTable Json Seconds
  new_table =
      let empty = with_root (Slab.new (default_node thick_node_data)) none in
      record { tree_v4 = empty; tree_v6 = empty; updates = [] }

  abbrev pub tree_for : IpVersion → RouteTable Json Seconds → ThickTree
  tree_for v4 t = t.tree_v4
  tree_for v6 t = t.tree_v6

  abbrev pub set_tree : IpVersion → ThickTree → RouteTable Json Seconds → RouteTable Json Seconds
  set_tree v4 tree t = record t { tree_v4 = tree }
  set_tree v6 tree t = record t { tree_v6 = tree }

  -- Locks the trie of the family and changes it.
  abbrev pub on_tree :
      IpVersion
      → (ThickTree → Outcome ThickTree)
      → RouteTable Json Seconds
      → Outcome (RouteTable Json Seconds)
  on_tree v change t = change (tree_for v t) >>= λ tree. done (set_tree v tree t)

  unfoldable pub bulk_insert_routes :
      IpVersion
      → List (Prefix × Timestamp)
      → RouteTable Json Seconds
      → Outcome (RouteTable Json Seconds)
  bulk_insert_routes version routes t = on_tree version (insert_routes routes) t

  unfoldable pub sweep : RouteTable Json Seconds → Outcome (RouteTable Json Seconds)
  sweep t = on_tree v4 (run_on sweep_tombstones) t >>= λ t. on_tree v6 (run_on sweep_tombstones) t

  -- The snapshot, and how many messages were broadcast before the receiver.
  unfoldable pub subscribe :
      IpVersion → RouteTable Json Seconds → ThickTree × List (RisMessage Json Seconds)
  subscribe version t = (tree_for version t, t.updates)

  module _ (parse_ip : Text → Option IpAddr) (parse_len : Text → Option ℕ)
      (from_sec : Seconds → Timestamp) where
    -- A parse error is logged and skipped.
    unfoldable pub apply_prefix :
        Text
        → (Prefix → ThickTree → Outcome ThickTree)
        → RouteTable Json Seconds
        → Outcome (RouteTable Json Seconds)
    apply_prefix cidr apply t = parse_cidr parse_ip parse_len cidr >>= λ parsed. elim parsed [
      | inl error ↦ done t
      | inr (version, p) ↦ on_tree version (apply p) t
    ]

    unfoldable pub apply_prefixes :
        List Text
        → (Prefix → ThickTree → Outcome ThickTree)
        → RouteTable Json Seconds
        → Outcome (RouteTable Json Seconds)
    apply_prefixes [] apply t = done t
    apply_prefixes (cidr ∷ rest) apply t =
        apply_prefix cidr apply t >>= λ t'. apply_prefixes rest apply t'

    -- Every announced prefix is inserted, then every withdrawn one withdrawn.
    unfoldable pub apply_body :
        RisMessageBody Json
        → Timestamp
        → RouteTable Json Seconds
        → Outcome (RouteTable Json Seconds)
    apply_body (update u) ts t =
        apply_prefixes (announced_texts (flatten u.announcements)) (announce_on ts) t >>= λ t'.
        apply_prefixes (flatten u.withdrawals) (withdraw_on ts) t'
    apply_body keepalive ts t = done t
    apply_body (open_ o) ts t = done t
    apply_body (notification n) ts t = done t
    apply_body (ris_peer_state s) ts t = done t

    unfoldable pub apply_message :
        RisMessage Json Seconds → RouteTable Json Seconds → Outcome (RouteTable Json Seconds)
    apply_message message t = apply_body message.body (from_sec message.timestamp) t

    -- The message goes out after it was applied.
    unfoldable pub ingest :
        RisMessage Json Seconds → RouteTable Json Seconds → Outcome (RouteTable Json Seconds)
    ingest message t =
        apply_message message t >>= λ t'. done (record t' { updates = t'.updates ++ message ∷ [] })
