-- ===== src/Connection/Applied.antt =====
-- What the server does to a trie for a message, and what a connection sends of the message.
use mathlib.Core.List.{append_assoc, append-nil}
use slash.Base.{ℕ, ◌≡◌, refl, Option, List, [], ◌∷◌, ◌++◌, map, subst, sym, ◌∙◌, ap}
use slash.Base.Outcome.{Outcome, done, bind-done}
use slash.Timestamp.{Timestamp}
use slash.Prefix.{v4, v6}
use slash.Prefix.Cidr.{Text, IpAddr}
use slash.Messages.{
  RisMessage, RisMessageBody, BgpUpdate, ThinBgpUpdate, announce, withdraw, update, keepalive,
  open_, notification, ris_peer_state, flatten, announced_texts, thin_updates, to_thin_updates,
  tagged,
}
use slash.RouteTable.{ThickTree, RouteTable, apply_body, apply_message, ingest}
use slash.RouteTable.Changes.{
  server_changes, server_changes-split, thin_updates-split, apply_prefixes-changes,
}
use slash.RouteTable.Ingest.{arrived, run}
use slash.Connection.{message_updates, chunk_updates}

module _ (Json : Type 0) {Seconds : Type 0} (parse_ip : Text → Option IpAddr)
    (parse_len : Text → Option ℕ) (from_sec : Seconds → Timestamp) where
  -- An update's announcements first, then its withdrawals, in both tries.
  update-changes :
      (u : BgpUpdate) (ts : Timestamp) (t : RouteTable Json Seconds) (us vs : List ThinBgpUpdate)
      (a b : ThickTree)
      → thin_updates parse_ip parse_len ts v4 (tagged u) ≡ done us
      → thin_updates parse_ip parse_len ts v6 (tagged u) ≡ done vs
      → server_changes us t.tree_v4 ≡ done a
      → server_changes vs t.tree_v6 ≡ done b
      → apply_body parse_ip parse_len from_sec (update u) ts t
        ≡ done (record t { tree_v4 = a; tree_v6 = b })
  unfolding apply_body
  update-changes u ts t us vs a b e4 e6 c4 c6 =
      let news = announced_texts (flatten u.announcements) in
      let olds = flatten u.withdrawals in
      let (us1, us2, f4, s4, w4) =
        thin_updates-split parse_ip parse_len ts v4 (map (λ c. (c, announce)) news)
          (map (λ c. (c, withdraw)) olds) us e4 in
      let (vs1, vs2, f6, s6, w6) =
        thin_updates-split parse_ip parse_len ts v6 (map (λ c. (c, announce)) news)
          (map (λ c. (c, withdraw)) olds) vs e6 in
      let (a1, a_first, a_second) =
        server_changes-split us1 us2 t.tree_v4 a
          (subst (λ ws. server_changes ws t.tree_v4 ≡ done a) w4 c4) in
      let (b1, b_first, b_second) =
        server_changes-split vs1 vs2 t.tree_v6 b
          (subst (λ ws. server_changes ws t.tree_v6 ≡ done b) w6 c6) in
      let first =
        apply_prefixes-changes Json parse_ip parse_len from_sec announce ts news t us1 vs1 a1 b1 f4
          f6 a_first b_first in
      let t1 : RouteTable Json Seconds = record t { tree_v4 = a1; tree_v6 = b1 } in
      rw first (
        apply_prefixes-changes Json parse_ip parse_len from_sec withdraw ts olds t1 us2 vs2 a b s4
          s6 a_second b_second)

  -- A message without an update changes nothing.
  no_updates :
      (t : RouteTable Json Seconds) (us vs : List ThinBgpUpdate) (a b : ThickTree)
      → ◌≡◌ {A = Outcome (List ThinBgpUpdate)} (done []) (done us)
      → ◌≡◌ {A = Outcome (List ThinBgpUpdate)} (done []) (done vs)
      → server_changes us t.tree_v4 ≡ done a
      → server_changes vs t.tree_v6 ≡ done b
      → ◌≡◌ {A = Outcome (RouteTable Json Seconds)}
          (done t)
          (done (record t { tree_v4 = a; tree_v6 = b }))
  unfolding server_changes
  no_updates t us vs a b e4 e6 c4 c6 =
      let nil4 : [] ≡ us = cc in
      let nil6 : [] ≡ vs = cc in
      let same4 : server_changes [] t.tree_v4 ≡ done a = rw (sym nil4) at c4 in
      let same6 : server_changes [] t.tree_v6 ≡ done b = rw (sym nil6) at c6 in
      let at4 : t.tree_v4 ≡ a = cc in let at6 : t.tree_v6 ≡ b = cc in rw (sym at4, sym at6) refl

  message-changes :
      (body : RisMessageBody Json) (m : RisMessage Json Seconds) (t : RouteTable Json Seconds)
      (us vs : List ThinBgpUpdate) (a b : ThickTree)
      → message_updates parse_ip parse_len from_sec v4 (record m { body = body }) ≡ done us
      → message_updates parse_ip parse_len from_sec v6 (record m { body = body }) ≡ done vs
      → server_changes us t.tree_v4 ≡ done a
      → server_changes vs t.tree_v6 ≡ done b
      → apply_message parse_ip parse_len from_sec (record m { body = body }) t
        ≡ done (record t { tree_v4 = a; tree_v6 = b })
  unfolding apply_message apply_body message_updates to_thin_updates
  message-changes (update u) m t us vs a b e4 e6 c4 c6 =
      update-changes u (from_sec m.timestamp) t us vs a b e4 e6 c4 c6
  message-changes keepalive m t us vs a b e4 e6 c4 c6 = no_updates t us vs a b e4 e6 c4 c6
  message-changes (open_ o) m t us vs a b e4 e6 c4 c6 = no_updates t us vs a b e4 e6 c4 c6
  message-changes (notification n) m t us vs a b e4 e6 c4 c6 = no_updates t us vs a b e4 e6 c4 c6
  message-changes (ris_peer_state p) m t us vs a b e4 e6 c4 c6 = no_updates t us vs a b e4 e6 c4 c6

  -- A table that a run returns.
  abbrev logged :
      ThickTree → ThickTree → List (RisMessage Json Seconds) → Outcome (RouteTable Json Seconds)
  logged a b log = done (record { tree_v4 = a; tree_v6 = b; updates = log })

  -- Where the updates that a connection of each family sends of some messages change the two tries
  -- of a table one after the other without a panic, the receive loop on the messages returns the
  -- table with just these two tries, and has published the messages.
  pub run-changes :
      (ms : List (RisMessage Json Seconds)) (t : RouteTable Json Seconds)
      (us vs : List ThinBgpUpdate) (a b : ThickTree)
      → chunk_updates parse_ip parse_len from_sec v4 ms ≡ done us
      → chunk_updates parse_ip parse_len from_sec v6 ms ≡ done vs
      → server_changes us t.tree_v4 ≡ done a
      → server_changes vs t.tree_v6 ≡ done b
      → run parse_ip parse_len from_sec (map arrived ms) t
        ≡ done (record { tree_v4 = a; tree_v6 = b; updates = t.updates ++ ms })
  unfolding run chunk_updates ingest server_changes
  run-changes [] t us vs a b e4 e6 c4 c6 =
      no_updates t us vs a b e4 e6 c4 c6 ∙ ap (logged a b) (sym (append-nil t.updates))
  run-changes (m ∷ ms) t us vs a b e4 e6 c4 c6 =
      let (us1, f4, r4) = bind-done (message_updates parse_ip parse_len from_sec v4 m) _ us e4 in
      let (us2, s4, w4) = bind-done (chunk_updates parse_ip parse_len from_sec v4 ms) _ us r4 in
      let (vs1, f6, r6) = bind-done (message_updates parse_ip parse_len from_sec v6 m) _ vs e6 in
      let (vs2, s6, w6) = bind-done (chunk_updates parse_ip parse_len from_sec v6 ms) _ vs r6 in
      let whole4 : us ≡ us1 ++ us2 = cc in
      let whole6 : vs ≡ vs1 ++ vs2 = cc in
      let (a1, a_first, a_second) =
        server_changes-split us1 us2 t.tree_v4 a
          (subst (λ ws. server_changes ws t.tree_v4 ≡ done a) whole4 c4) in
      let (b1, b_first, b_second) =
        server_changes-split vs1 vs2 t.tree_v6 b
          (subst (λ ws. server_changes ws t.tree_v6 ≡ done b) whole6 c6) in
      let first = message-changes m.body m t us1 vs1 a1 b1 f4 f6 a_first b_first in
      let t1 : RouteTable Json Seconds = record {
        tree_v4 = a1;
        tree_v6 = b1;
        updates = t.updates ++ m ∷ [];
      } in
      let runs : run parse_ip parse_len from_sec (map arrived (m ∷ ms)) t
          ≡ logged a b ((t.updates ++ m ∷ []) ++ ms) =
        rw first (run-changes ms t1 us2 vs2 a b s4 s6 a_second b_second) in
      runs ∙ ap (logged a b) (append_assoc t.updates (m ∷ []) ms)
