-- ===== src/Examples/Follows.antt =====
-- The server's table and the browser's tree with one route, and a message that announces the route
-- and withdraws it, of which the browser's snapshot holds the announcement already.
use slash.Base.{ℕ, ◌+◌, ◌≡◌, ◌↔◌, refl, arith, inl, inr, [], ◌∷◌}
use slash.Base.Outcome.{done}
use slash.Timestamp.{ts}
use slash.Prefix.{v4, v6, Prefix}
use slash.Node.{ThinData, ThickData, thick}
use slash.Slab.Alloc.{IsSlab}
use slash.Tree.Trie.{Trie, nil, node, Represents, count_announced, Announced}
use slash.Tree.Ready.{IsReady}
use slash.Messages.{ThinBgpUpdate, announce, withdraw, thin_updates, to_thin_updates}
use slash.Messages.Replay.{Changed}
use slash.Prefix
use slash.Prefix.Cidr.{parse_cidr, cidr_of, split_once}
use slash.Wire.{thin_bgp_update_frame, message}
use slash.RouteTable.{RouteTable, ThickTree}
use slash.RouteTable.Changes.{server_changes, server_changes-Changed}
use slash.RouteTable.Ingest.{arrived, run}
use slash.Connection.{framed, chunk_updates, message_updates}
use slash.Connection.Applied.{run-changes}
use slash.RouteTable.Steps.{Step, change, publish, sweep_tree}
use slash.Base.{List}
use slash.Examples.{cidr}
use slash.Examples.Connection.{beat}
use slash.Client.Session.{SubscribedState, subscribed, received, steady}
use slash.Client.Session.Follows.{IsFollowing}
use slash.Client.Session.Stream.{IsCopy, stream-IsCopy}
use slash.Examples.{
  ten_8, ten_8-IsTruncation, tree, trie, tree-Represents, thick_tree, ip_parser, len_parser,
  ip_parser-IsIp,
}
use slash.Examples.Client.{Nodes, first, list_gpu}
use slash.Examples.Connection.{news, from_sec, table}

thick_slab-IsSlab : IsSlab thick_tree.slab
thick_slab-IsSlab = record {
  reserved = omega arith;
  freed_in_range = tt;
  freed_once = tt;
  fits = omega arith;
  capacity = omega arith;
}

abbrev thick_trie : Trie ThickData
thick_trie = node 1 ten_8 1 (thick (ts 0 5)) nil nil

thick_tree-Represents : Represents thick_tree thick_trie
unfolding count_announced
thick_tree-Represents = record {
  slab = thick_slab-IsSlab;
  stored =
      (refl, record { nonzero = omega arith; in_range = omega arith; not_freed = refl }, tt, tt);
  root = refl;
  separate = (refl, refl, (λ j h. refl), tt, tt);
  shape = (ten_8-IsTruncation.valid, tt, tt, tt, tt);
  tally = refl;
}

abbrev browser : SubscribedState Nodes
browser = record first { tree = tree }

-- The updates of the message.
abbrev announced : ThinBgpUpdate
announced = record { prefix = ten_8; timestamp = ts 0 7; update_type = announce }

abbrev gone : ThinBgpUpdate
gone = record { prefix = ten_8; timestamp = ts 0 7; update_type = withdraw }

framed_v4 :
    framed ip_parser len_parser from_sec v4 (news ∷ [])
    ≡ done (thin_bgp_update_frame (announced ∷ gone ∷ []))
unfolding framed chunk_updates message_updates to_thin_updates thin_updates parse_cidr cidr_of
    split_once Prefix.new
framed_v4 = refl

framed_v6 : framed ip_parser len_parser from_sec v6 (news ∷ []) ≡ done (thin_bgp_update_frame [])
unfolding framed chunk_updates message_updates to_thin_updates thin_updates parse_cidr cidr_of
    split_once Prefix.new
framed_v6 = refl

stream-IsCopy_example :
    (t' : RouteTable (Unit {0}) ℕ) × (t4' t6' : Trie ThickData) × (s' : SubscribedState Nodes)
    × (c' : Trie ThinData) × (run ip_parser len_parser from_sec (arrived news ∷ []) table ≡ done t')
    × (steady list_gpu
          (received (λ k. ts 0 (20 + k)) (message (thin_bgp_update_frame (announced ∷ gone ∷ []))))
          browser
        ≡ done (subscribed s'))
    × IsReady 1 t'.tree_v4 t4'
    × IsReady 1 t'.tree_v6 t6'
    × IsFollowing 1 s' c'
    × ((x : Prefix) → Announced t4' x ↔ Changed (announced ∷ gone ∷ []) (Announced thick_trie) x)
    × ((x : Prefix) → Announced t6' x ↔ Changed [] (Announced thick_trie) x)
    × IsCopy t4' c'
stream-IsCopy_example =
    stream-IsCopy (Unit {0}) ip_parser len_parser from_sec ip_parser-IsIp list_gpu
      (λ k. ts 0 (20 + k)) 1 (news ∷ []) (announced ∷ gone ∷ []) [] (announced ∷ []) (gone ∷ [])
      table thick_trie thick_trie browser trie framed_v4 framed_v6
      (record { represents = thick_tree-Represents; entries = omega arith; counts = omega arith })
      (record { represents = thick_tree-Represents; entries = omega arith; counts = omega arith })
      (record {
        ready = record {
          represents = tree-Represents;
          entries = omega arith;
          counts = omega arith;
        };
        sweeps = omega arith;
      })
      refl (λ x. (λ h. inr h, λ h. elim h [ inl e ↦ inl (e, refl) | inr k ↦ k ]))

-- What the message does to the IPv4 trie.
abbrev changed :
    (tree' : ThickTree) × (t' : Trie ThickData) × (server_changes (announced ∷ gone ∷ []) thick_tree
      ≡ done tree')
    × IsReady 0 tree' t'
    × ((x : Prefix) → Announced t' x ↔ Changed (announced ∷ gone ∷ []) (Announced thick_trie) x)
changed =
    server_changes-Changed 0 (announced ∷ gone ∷ []) thick_tree thick_trie
      (record { represents = thick_tree-Represents; entries = omega arith; counts = omega arith })
      (ten_8-IsTruncation.valid, (ten_8-IsTruncation.valid, tt))

chunk_v4 : chunk_updates ip_parser len_parser from_sec v4 (news ∷ []) ≡ done (announced ∷ gone ∷ [])
unfolding chunk_updates message_updates to_thin_updates thin_updates parse_cidr cidr_of split_once
    Prefix.new
chunk_v4 = refl

chunk_v6 : chunk_updates ip_parser len_parser from_sec v6 (news ∷ []) ≡ done []
unfolding chunk_updates message_updates to_thin_updates thin_updates parse_cidr cidr_of split_once
    Prefix.new
chunk_v6 = refl

nothing_changed : server_changes [] thick_tree ≡ done thick_tree
unfolding server_changes
nothing_changed = refl

run-changes_example :
    run ip_parser len_parser from_sec (arrived news ∷ []) table
    ≡ done (record { tree_v4 = changed.0; tree_v6 = thick_tree; updates = news ∷ [] })
run-changes_example =
    run-changes (Unit {0}) ip_parser len_parser from_sec (news ∷ []) table (announced ∷ gone ∷ [])
      [] changed.0 thick_tree chunk_v4 chunk_v6 changed.2 nothing_changed

-- A subscription while the server has applied the announcement of the message but not its withdrawal,
-- with sweeps around it.
abbrev before_snapshot : List (Step (Unit {0}) ℕ)
before_snapshot = sweep_tree v4 ∷ publish beat ∷ change (ts 0 7) cidr announce ∷ []

abbrev after_snapshot : List (Step (Unit {0}) ℕ)
after_snapshot = change (ts 0 7) cidr withdraw ∷ sweep_tree v4 ∷ publish news ∷ []
