-- ===== src/Connection/Order.antt =====
-- What a connection sends in a run is in order, and made of what it should be.
use slash.Base.{
  ℕ, ◌≡◌, refl, Bool, true, false, Option, none, some, List, [], ◌∷◌, ◌++◌, sym, ◌∙◌, ap, subst,
  if◌then◌else◌, Bool-cases, inl, inr,
}
use slash.Base.Outcome.{Outcome, done, bind-done}
use slash.Timestamp.{Timestamp}
use slash.Prefix.{IpVersion, v4, v6, version_eq}
use slash.Prefix.Cidr.{Text, IpAddr}
use slash.Tree.{from_thick_tree}
use slash.Messages.{RisMessage, ThinBgpUpdate}
use slash.Wire.{
  Slash0Message, subscribe_request, trie_snapshot, thin_bgp_update, thin_bgp_update_frame, Received,
  message, closed, failed,
}
use slash.RouteTable.{RouteTable, ThickTree, tree_for, subscribe}
use slash.Connection.{
  Connection, idle, closing, synchronizing, active, advance_idle, advance_synchronizing,
  advance_active, received_of, chunk_updates, framed, advance_chunk,
}
use slash.Connection.Runs.{
  Source, got, subscribed_to, chunk_of, Step, on_idle, on_snapshot, on_active, on_chunk, Run,
  starts, goes_on,
}

-- The family of the last snapshot.
abbrev pub last_snapshot : List Slash0Message → Option IpVersion
last_snapshot [] = none
last_snapshot (trie_snapshot v tree ∷ rest) = some v
last_snapshot (subscribe_request v ∷ rest) = last_snapshot rest
last_snapshot (thin_bgp_update u ∷ rest) = last_snapshot rest
last_snapshot (thin_bgp_update_frame us ∷ rest) = last_snapshot rest

-- The trie of a family.
abbrev pub trie_of : {Json Seconds : Type 0} → IpVersion → RouteTable Json Seconds → ThickTree
trie_of v4 table = table.tree_v4
trie_of v6 table = table.tree_v6

tree_for-trie_of :
    {Json Seconds : Type 0} (v : IpVersion) (table : RouteTable Json Seconds)
    → tree_for v table ≡ trie_of v table
tree_for-trie_of v4 table = refl
tree_for-trie_of v6 table = refl

version_of_eq : (v w : IpVersion) → version_eq v w ≡ true → v ≡ w
version_of_eq v4 v4 h = refl
version_of_eq v6 v6 h = refl
version_of_eq v4 v6 h = cc
version_of_eq v6 v4 h = cc

module _ (Json : Type 0) {Seconds : Type 0} (parse_ip : Text → Option IpAddr)
    (parse_len : Text → Option ℕ) (from_sec : Seconds → Timestamp) where
  -- The family of the last request.
  abbrev pub last_request : List (Source Json Seconds) → Option IpVersion
  last_request [] = none
  last_request (got (message (subscribe_request v)) ∷ made) = some v
  last_request (got (message (trie_snapshot v tree)) ∷ made) = last_request made
  last_request (got (message (thin_bgp_update u)) ∷ made) = last_request made
  last_request (got (message (thin_bgp_update_frame us)) ∷ made) = last_request made
  last_request (got closed ∷ made) = last_request made
  last_request (got failed ∷ made) = last_request made
  last_request (subscribed_to table ∷ made) = last_request made
  last_request (chunk_of chunk ∷ made) = last_request made

  -- Snapshots of the tables subscribed to, each for the family of the request before, and frames of
  -- the chunks for the family of the snapshot before.
  abbrev pub IsInOrder : List (Source Json Seconds) → List Slash0Message → Type 0
  IsInOrder [] [] = Unit
  IsInOrder [] (m ∷ rest) = ⊥
  IsInOrder (got r ∷ made) log = IsInOrder made log
  IsInOrder (subscribed_to table ∷ made) [] = ⊥
  IsInOrder (subscribed_to table ∷ made) (subscribe_request v ∷ rest) = ⊥
  IsInOrder (subscribed_to table ∷ made) (thin_bgp_update u ∷ rest) = ⊥
  IsInOrder (subscribed_to table ∷ made) (thin_bgp_update_frame us ∷ rest) = ⊥
  IsInOrder (subscribed_to table ∷ made) (trie_snapshot v tree ∷ rest) =
      (last_request made ≡ some v)
      × (tree ≡ from_thick_tree (trie_of v table))
      × IsInOrder made rest
  IsInOrder (chunk_of chunk ∷ made) [] = ⊥
  IsInOrder (chunk_of chunk ∷ made) (subscribe_request v ∷ rest) = ⊥
  IsInOrder (chunk_of chunk ∷ made) (thin_bgp_update u ∷ rest) = ⊥
  IsInOrder (chunk_of chunk ∷ made) (trie_snapshot v tree ∷ rest) = ⊥
  IsInOrder (chunk_of chunk ∷ made) (thin_bgp_update_frame us ∷ rest) =
      ((v : IpVersion) × (last_snapshot rest ≡ some v)
        × (framed parse_ip parse_len from_sec v (received_of chunk)
            ≡ done (thin_bgp_update_frame us)))
      × IsInOrder made rest

  -- The messages that the table of the last subscription had broadcast.
  abbrev pub last_stream : List (Source Json Seconds) → Option (List (RisMessage Json Seconds))
  last_stream [] = none
  last_stream (got r ∷ made) = last_stream made
  last_stream (subscribed_to table ∷ made) = some table.updates
  last_stream (chunk_of chunk ∷ made) = last_stream made

  -- A connection synchronizes with the family of the last request. An active one serves that
  -- family, which is the one of its last snapshot, and takes the broadcast from where the table of
  -- that snapshot had come to.
  abbrev pub IsServed :
      List (Source Json Seconds) → List Slash0Message → Connection Json Seconds → Type 0
  IsServed made log idle = Unit
  IsServed made log closing = Unit
  IsServed made log (synchronizing v) = last_request made ≡ some v
  IsServed made log (active v seen) =
      (last_request made ≡ some v) × (last_snapshot log ≡ some v) × (last_stream made ≡ some seen)

  advance_active-IsServed :
      (r : Received) (v : IpVersion) (seen : List (RisMessage Json Seconds))
      (made : List (Source Json Seconds)) (log : List Slash0Message)
      → IsServed made log (active v seen)
      → IsServed (got r ∷ made) log (advance_active r v seen)
  unfolding advance_active
  advance_active-IsServed closed v seen made log e = tt
  advance_active-IsServed failed v seen made log e = tt
  advance_active-IsServed (message (trie_snapshot w tree)) v seen made log e = e
  advance_active-IsServed (message (thin_bgp_update u)) v seen made log e = e
  advance_active-IsServed (message (thin_bgp_update_frame us)) v seen made log e = e
  advance_active-IsServed (message (subscribe_request w)) v seen made log
        (asked, snapshot, stream) =
      elim (Bool-cases (version_eq v w)) [
        | inl same ↦ rw same (ap some (sym (version_of_eq v w same)), snapshot, stream)
        | inr other ↦ rw other refl
      ]

  advance_idle-IsServed :
      (r : Received) (made : List (Source Json Seconds)) (log : List Slash0Message)
      → IsServed (got r ∷ made) log (advance_idle r)
  unfolding advance_idle
  advance_idle-IsServed closed made log = tt
  advance_idle-IsServed failed made log = tt
  advance_idle-IsServed (message (subscribe_request v)) made log = refl
  advance_idle-IsServed (message (trie_snapshot v tree)) made log = tt
  advance_idle-IsServed (message (thin_bgp_update u)) made log = tt
  advance_idle-IsServed (message (thin_bgp_update_frame us)) made log = tt

  -- What a step adds to a log in order, and where it goes.
  abbrev Continues :
      List Slash0Message
      → List (Source Json Seconds)
      → Connection Json Seconds
      → List Slash0Message
      → List (Source Json Seconds)
      → Type 0
  Continues out from c' log made =
      IsInOrder (from ++ made) (out ++ log) × IsServed (from ++ made) (out ++ log) c'

  snapshot_Continues :
      (sent : Bool) (table : RouteTable Json Seconds) (v : IpVersion) (log : List Slash0Message)
      (made : List (Source Json Seconds)) {out : List Slash0Message} {c : Connection Json Seconds}
      → IsInOrder made log
      → last_request made ≡ some v
      → advance_synchronizing sent table v ≡ done (out, c)
      → Continues out (subscribed_to table ∷ []) c log made
  unfolding advance_synchronizing subscribe
  snapshot_Continues false table v log made {out} {c} order asked e = cc
  snapshot_Continues true table v log made {out} {c} order asked e =
      let from = subscribed_to table ∷ [] in
      let thin_tree = from_thick_tree (tree_for v table) in
      let out_ : trie_snapshot v thin_tree ∷ [] ≡ out = cc in
      let c_ : active v (table.updates) ≡ c = cc in
      subst (λ o. Continues o from c log made) out_
        (subst (λ c. Continues (trie_snapshot v thin_tree ∷ []) from c log made) c_
          ((asked, ap from_thick_tree (tree_for-trie_of v table), order), (asked, refl, refl)))

  chunk_Continues :
      (sent : Bool) (chunk : List (Option (RisMessage Json Seconds))) (v : IpVersion)
      (seen : List (RisMessage Json Seconds)) (log : List Slash0Message)
      (made : List (Source Json Seconds)) {out : List Slash0Message} {c : Connection Json Seconds}
      → IsInOrder made log
      → IsServed made log (active v seen)
      → advance_chunk parse_ip parse_len from_sec sent chunk v seen ≡ done (out, c)
      → Continues out (if sent then chunk_of chunk ∷ [] else []) c log made
  unfolding advance_chunk framed
  chunk_Continues sent chunk v seen log made {out} {c} order served e =
      let (msg, e1, e2) =
        bind-done (framed parse_ip parse_len from_sec v (received_of chunk)) _ (out, c) e in
      let (us, e3, e4) =
        bind-done (chunk_updates parse_ip parse_len from_sec v (received_of chunk)) _ msg e1 in
      let frame : thin_bgp_update_frame us ≡ msg = cc in
      go sent us (e1 ∙ ap done (sym frame))
        (ap (λ m. done (if sent then (m ∷ [], active v seen) else ([], closing))) frame ∙ e2)
    where
      go :
          (sent : Bool) (us : List ThinBgpUpdate)
          → framed parse_ip parse_len from_sec v (received_of chunk)
            ≡ done (thin_bgp_update_frame us)
          → ◌≡◌ {A = Outcome (List Slash0Message × Connection Json Seconds)}
              (done
                (if sent then (thin_bgp_update_frame us ∷ [], active v seen) else ([], closing)))
              (done (out, c))
          → Continues out (if sent then chunk_of chunk ∷ [] else []) c log made
      go false us f e =
          let out_ : [] ≡ out = cc in
          let c_ : closing ≡ c = cc in
          subst (λ o. Continues o [] c log made) out_
            (subst (λ c. Continues [] [] c log made) c_ (order, tt))
      go true us f e =
          let from = chunk_of chunk ∷ [] in
          let out_ : thin_bgp_update_frame us ∷ [] ≡ out = cc in
          let c_ : active v seen ≡ c = cc in
          subst (λ o. Continues o from c log made) out_
            (subst (λ c. Continues (thin_bgp_update_frame us ∷ []) from c log made) c_
              (((v, served.1, f), order), served))

  Step-Continues :
      {c c' : Connection Json Seconds} {out : List Slash0Message}
      {from : List (Source Json Seconds)} (log : List Slash0Message)
      (made : List (Source Json Seconds))
      → Step Json parse_ip parse_len from_sec c out from c'
      → IsInOrder made log
      → IsServed made log c
      → Continues out from c' log made
  Step-Continues log made (on_idle r) order served = (order, advance_idle-IsServed r made log)
  Step-Continues log made (on_active r v seen) order served =
      (order, advance_active-IsServed r v seen made log served)
  Step-Continues log made (on_snapshot sent table v e) order served =
      snapshot_Continues sent table v log made order served e
  Step-Continues log made (on_chunk sent chunk v seen e) order served =
      chunk_Continues sent chunk v seen log made order served e

  -- In every run of a connection what was sent is one message for each table subscribed to and for
  -- each chunk sent on, in their order: for a table a snapshot of the family of the last request,
  -- which is the thin copy of the trie of that family in that table, and for a chunk its frame for
  -- the family of the last snapshot before it. An active connection serves the family of the last
  -- request, which is that of its last snapshot, and takes the broadcast from where the table of
  -- that snapshot had come to.
  pub Run-IsInOrder :
      {log : List Slash0Message} {made : List (Source Json Seconds)} {c : Connection Json Seconds}
      → Run Json parse_ip parse_len from_sec log made c
      → IsInOrder made log × IsServed made log c
  Run-IsInOrder starts = (tt, tt)
  Run-IsInOrder (goes_on {log} {made = made} run step) =
      let (order, served) = Run-IsInOrder run in Step-Continues log made step order served
