-- ===== src/Examples/Connection.antt =====
-- A connection to a table without routes; the parsers know one text.
use slash.Base.{ℕ, refl, true, Option, none, some, List, [], ◌∷◌}
use slash.Timestamp.{Timestamp, ts}
use slash.Prefix.{v4}
use slash.Tree.{from_thick_tree}
use slash.Messages.{RisMessage, update, keepalive}
use slash.Wire.{Slash0Message, subscribe_request, trie_snapshot, thin_bgp_update_frame, message}
use slash.RouteTable.{RouteTable, tree_for, subscribe}
use slash.Connection.{
  synchronizing, active, advance_idle, advance_synchronizing, framed, advance_chunk, chunk_updates,
  message_updates,
}
use slash.Examples.{ip_parser, len_parser, bgp_update, thick_tree}
use slash.Connection.Runs.{
  Source, got, subscribed_to, chunk_of, Step, on_idle, on_snapshot, on_chunk, Run, starts, goes_on,
}
use slash.Connection.Order.{IsInOrder, IsServed, Run-IsInOrder}

abbrev Message : Type 0
Message = RisMessage (Unit {0}) ℕ

abbrev pub beat : Message
beat = record {
  timestamp = 7;
  peer = [];
  peer_asn = [];
  id = [];
  host = [];
  raw = none;
  body = keepalive;
}

abbrev pub news : Message
news = record beat { body = update bgp_update }

abbrev pub from_sec : ℕ → Timestamp
from_sec n = ts 0 n

abbrev pub table : RouteTable (Unit {0}) ℕ
table = record { tree_v4 = thick_tree; tree_v6 = thick_tree; updates = [] }

abbrev snapshot : Slash0Message
snapshot = trie_snapshot v4 (from_thick_tree (tree_for v4 table))

asked :
    Run
      (Unit {0})
      ip_parser
      len_parser
      from_sec
      []
      (got (message (subscribe_request v4)) ∷ [])
      (synchronizing v4)
unfolding advance_idle
asked = goes_on starts (on_idle (message (subscribe_request v4)))

taken :
    Step
      (Unit {0})
      ip_parser
      len_parser
      from_sec
      (synchronizing v4)
      (snapshot ∷ [])
      (subscribed_to table ∷ [])
      (active v4 [])
unfolding advance_synchronizing subscribe
taken = on_snapshot true table v4 refl

-- A message and a lag.
abbrev chunk : List (Option Message)
chunk = some beat ∷ none ∷ []

sent_chunk :
    Step
      (Unit {0})
      ip_parser
      len_parser
      from_sec
      (active v4 [])
      (thin_bgp_update_frame [] ∷ [])
      (chunk_of chunk ∷ [])
      (active v4 [])
unfolding advance_chunk framed chunk_updates message_updates
sent_chunk = on_chunk true chunk v4 [] refl

abbrev log : List Slash0Message
log = thin_bgp_update_frame [] ∷ snapshot ∷ []

abbrev made : List (Source (Unit {0}) ℕ)
made = chunk_of chunk ∷ subscribed_to table ∷ got (message (subscribe_request v4)) ∷ []

Run-IsInOrder_example :
    IsInOrder (Unit {0}) ip_parser len_parser from_sec made log
    × IsServed (Unit {0}) ip_parser len_parser from_sec made log (active v4 [])
Run-IsInOrder_example =
    Run-IsInOrder (Unit {0}) ip_parser len_parser from_sec
      (goes_on (goes_on asked taken) sent_chunk)
