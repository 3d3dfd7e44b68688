-- ===== src/Client/Session/Stream.antt =====
-- A stream of messages through the whole system: the server ingests the messages and a connection
-- frames them, and the browser handles the frame. Also where the browser's snapshot was taken after
-- a part of the messages, which the stream then repeats.
use slash.Base.{
  ℕ, ◌+◌, ◌≡◌, ◌⊎◌, ◌↔◌, inl, inr, refl, Bool-cases, List, [], ◌∷◌, ◌++◌, map, length, Option, some,
  sym, ◌∙◌, subst, ap,
}
use slash.Base.Outcome.{Outcome, done, bind-done}
use slash.Timestamp.{Timestamp}
use slash.Prefix.{IpVersion, v4, v6, version_eq, Prefix}
use slash.Prefix.Cidr.{Text, IpAddr, CidrParseError, parse_cidr}
use slash.Prefix.Cidr.Laws.{IsIp, IsParsed, parse_cidr-IsParsed, parsed-IsPrefix}
use slash.Node.{ThinData, ThickData}
use slash.Tree.Trie.{Trie, Announced}
use slash.Tree.Ready.{IsReady}
use slash.Messages.{
  RisMessage, RisMessageBody, ThinBgpUpdate, UpdateType, update, keepalive, open_, notification,
  ris_peer_state, tagged, thin_update, thin_updates, to_thin_updates,
}
use slash.Messages.Replay.{Changed, Changed-iff, Changed-replay}
use slash.Wire.{thin_bgp_update_frame, message}
use slash.RouteTable.{RouteTable}
use slash.RouteTable.Changes.{AreCanonical, server_changes-Changed}
use slash.RouteTable.Ingest.{arrived, run}
use slash.Connection.{message_updates, chunk_updates, framed}
use slash.Connection.Applied.{run-changes}
use slash.Client.Render.{Gpu}
use slash.Client.Session.{SubscribedState, subscribed, received, steady}
use slash.Client.Session.Follows.{IsFollowing, handle_updates-Changed}

AreCanonical-append :
    (us vs : List ThinBgpUpdate) → AreCanonical us → AreCanonical vs → AreCanonical (us ++ vs)
AreCanonical-append [] vs h k = k
AreCanonical-append (u ∷ us) vs h k = (h.0, AreCanonical-append us vs h.1 k)

-- No updates.
nothing :
    (us : List ThinBgpUpdate)
    → ◌≡◌ {A = Outcome (List ThinBgpUpdate)} (done []) (done us)
    → AreCanonical us
nothing us e = let none_left : [] ≡ us = cc in subst AreCanonical none_left tt

-- The two tries announce the same prefixes.
abbrev pub IsCopy : Trie ThickData → Trie ThinData → Type 0
IsCopy t c = (x : Prefix) → Announced t x ↔ Announced c x

module _ (Json : Type 0) {Seconds : Type 0} (parse_ip : Text → Option IpAddr)
    (parse_len : Text → Option ℕ) (from_sec : Seconds → Timestamp)
    (in_range : (text : Text) (ip : IpAddr) → parse_ip text ≡ some ip → IsIp ip) where
  thin_update-AreCanonical :
      (ts : Timestamp) (v : IpVersion) (kind : UpdateType) (cidr : Text)
      (r : CidrParseError ⊎ IpVersion × Prefix)
      → IsParsed parse_ip parse_len cidr r
      → AreCanonical (thin_update parse_ip parse_len ts v kind r)
  thin_update-AreCanonical ts v kind cidr (inl error) parsed = tt
  thin_update-AreCanonical ts v kind cidr (inr (w, p)) parsed = elim (Bool-cases (version_eq w v)) [
    | inl same ↦ rw same (parsed-IsPrefix parse_ip parse_len cidr w p parsed, tt)
    | inr other ↦ rw other tt
  ]

  thin_updates-AreCanonical :
      (ts : Timestamp) (v : IpVersion) (texts : List (Text × UpdateType)) (us : List ThinBgpUpdate)
      → thin_updates parse_ip parse_len ts v texts ≡ done us
      → AreCanonical us
  unfolding thin_updates
  thin_updates-AreCanonical ts v [] us e =
      let none_left : [] ≡ us = cc in subst AreCanonical none_left tt
  thin_updates-AreCanonical ts v ((cidr, kind) ∷ rest) us e =
      let (r, parsed, is) = parse_cidr-IsParsed parse_ip parse_len cidr in_range in
      let (r', parsed', e') = bind-done (parse_cidr parse_ip parse_len cidr) _ us e in
      let (others, e1, e2) = bind-done (thin_updates parse_ip parse_len ts v rest) _ us e' in
      let same : r ≡ r' = cc in
      let whole : thin_update parse_ip parse_len ts v kind r' ++ others ≡ us = cc in
      subst AreCanonical whole (
        AreCanonical-append (thin_update parse_ip parse_len ts v kind r') others
          (thin_update-AreCanonical ts v kind cidr r'
            (subst (IsParsed parse_ip parse_len cidr) same is))
          (thin_updates-AreCanonical ts v rest others e1))

  message-AreCanonical :
      (v : IpVersion) (body : RisMessageBody Json) (m : RisMessage Json Seconds)
      (us : List ThinBgpUpdate)
      → message_updates parse_ip parse_len from_sec v (record m { body = body }) ≡ done us
      → AreCanonical us
  unfolding message_updates to_thin_updates
  message-AreCanonical v (update u) m us e =
      thin_updates-AreCanonical (from_sec m.timestamp) v (tagged u) us e
  message-AreCanonical v keepalive m us e = nothing us e
  message-AreCanonical v (open_ o) m us e = nothing us e
  message-AreCanonical v (notification n) m us e = nothing us e
  message-AreCanonical v (ris_peer_state p) m us e = nothing us e

  pub chunk_updates-AreCanonical :
      (v : IpVersion) (ms : List (RisMessage Json Seconds)) (us : List ThinBgpUpdate)
      → chunk_updates parse_ip parse_len from_sec v ms ≡ done us
      → AreCanonical us
  unfolding chunk_updates
  chunk_updates-AreCanonical v [] us e = nothing us e
  chunk_updates-AreCanonical v (m ∷ ms) us e =
      let (vs, e1, e2) = bind-done (message_updates parse_ip parse_len from_sec v m) _ us e in
      let (others, e3, e4) = bind-done (chunk_updates parse_ip parse_len from_sec v ms) _ us e2 in
      let both : vs ++ others ≡ us = cc in
      subst AreCanonical both (
        AreCanonical-append vs others (message-AreCanonical v m.body m vs e1)
          (chunk_updates-AreCanonical v ms others e3))

  pub framed-chunk :
      (v : IpVersion) (ms : List (RisMessage Json Seconds)) (us : List ThinBgpUpdate)
      → framed parse_ip parse_len from_sec v ms ≡ done (thin_bgp_update_frame us)
      → chunk_updates parse_ip parse_len from_sec v ms ≡ done us
  unfolding framed
  framed-chunk v ms us e =
      let (us', e1, e2) =
        bind-done (chunk_updates parse_ip parse_len from_sec v ms) _ (thin_bgp_update_frame us) e in
      let same : us' ≡ us = cc in e1 ∙ ap done same

  -- Let a parser of addresses give results of 32 or 128 bits, let both tries of the table and the
  -- tree of a browser hold well-formed tries with room for the updates of some messages, and let
  -- the prefixes that the browser announces be those of the IPv4 trie after a first part of these
  -- updates (none, or those that its snapshot holds already). Then the receive loop of the server
  -- ingests the messages and the browser handles their IPv4 frame, sweeps included, without a
  -- panic; each trie announces what its updates make of the old prefixes, and the browser announces
  -- just the prefixes of the IPv4 trie.
  pub stream-IsCopy :
      {B : Type 0} (gpu : Gpu B) (clock : ℕ → Timestamp) (n : ℕ)
      (ms : List (RisMessage Json Seconds)) (us vs xs ys : List ThinBgpUpdate)
      (t : RouteTable Json Seconds) (t4 t6 : Trie ThickData) (s : SubscribedState B)
      (c : Trie ThinData)
      → framed parse_ip parse_len from_sec v4 ms ≡ done (thin_bgp_update_frame us)
      → framed parse_ip parse_len from_sec v6 ms ≡ done (thin_bgp_update_frame vs)
      → IsReady (length us + n) t.tree_v4 t4
      → IsReady (length vs + n) t.tree_v6 t6
      → IsFollowing (length us + n) s c
      → us ≡ xs ++ ys
      → ((x : Prefix) → Announced c x ↔ Changed xs (Announced t4) x)
      → (t' : RouteTable Json Seconds) × (t4' t6' : Trie ThickData) × (s' : SubscribedState B)
        × (c' : Trie ThinData) × (run parse_ip parse_len from_sec (map arrived ms) t ≡ done t')
        × (steady gpu (received clock (message (thin_bgp_update_frame us))) s
            ≡ done (subscribed s'))
        × IsReady n t'.tree_v4 t4'
        × IsReady n t'.tree_v6 t6'
        × IsFollowing n s' c'
        × ((x : Prefix) → Announced t4' x ↔ Changed us (Announced t4) x)
        × ((x : Prefix) → Announced t6' x ↔ Changed vs (Announced t6) x)
        × IsCopy t4' c'
  unfolding steady
  stream-IsCopy gpu clock n ms us vs xs ys t t4 t6 s c f4 f6 ready4 ready6 following ahead copy =
      let e4 = framed-chunk v4 ms us f4 in
      let e6 = framed-chunk v6 ms vs f6 in
      let canonical = chunk_updates-AreCanonical v4 ms us e4 in
      let (a, t4', changes4, ready4', after4) =
        server_changes-Changed n us t.tree_v4 t4 ready4 canonical in
      let (b, t6', changes6, ready6', after6) =
        server_changes-Changed n vs t.tree_v6 t6 ready6 (chunk_updates-AreCanonical v6 ms vs e6) in
      let (s', c', handled, following', after_c) =
        handle_updates-Changed n clock 0 us s c following canonical in
      let caught_up = Changed-iff us (Announced c) (Changed xs (Announced t4)) copy in
      let replay =
        subst
          (λ ws.
            (x : Prefix) → Changed ws (Changed xs (Announced t4)) x ↔ Changed ws (Announced t4) x)
          (sym ahead) (Changed-replay xs ys (Announced t4)) in
      (
        record { tree_v4 = a; tree_v6 = b; updates = t.updates ++ ms },
        t4',
        t6',
        s',
        c',
        run-changes Json parse_ip parse_len from_sec ms t us vs a b e4 e6 changes4 changes6,
        rw handled refl,
        ready4',
        ready6',
        following',
        after4,
        after6,
        λ x. (
          λ h. (after_c x).1 ((caught_up x).1 ((replay x).1 ((after4 x).0 h))),
          λ h. (after4 x).1 ((replay x).0 ((caught_up x).0 ((after_c x).0 h))),
        ),
      )
