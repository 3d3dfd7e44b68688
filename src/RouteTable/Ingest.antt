-- ===== src/RouteTable/Ingest.antt =====
-- The receive loop of crates/server/src/route_table.rs: what it applies and what it publishes.
use slash.Base.{ℕ, ◌≡◌, refl, ◌⊎◌, inl, inr, Option, List, [], ◌∷◌, ◌++◌, map, sym, ◌∙◌, ap}
use slash.Base.Outcome.{Outcome, done, ◌>>=◌, bind-done}
use slash.Timestamp.{Timestamp}
use slash.Prefix.{IpVersion, v4, v6, Prefix}
use slash.Prefix.Cidr.{Text, IpAddr, CidrParseError, parse_cidr}
use slash.Messages.{
  RisMessage, RisMessageBody, update, keepalive, open_, notification, ris_peer_state, flatten,
  announced_texts,
}
use slash.RouteTable.{
  ThickTree, RouteTable, announce_on, tree_for, set_tree, on_tree, apply_prefix, apply_prefixes,
  apply_body, apply_message, ingest,
}
use mathlib.Core.List.{append_assoc, append-nil}

-- What `recv` gives: a message, that so many were dropped, or the end.
pub data Recv (Json Seconds : Type 0) : Type 0 where
  arrived : RisMessage Json Seconds → Recv Json Seconds
  lagged : (dropped : ℕ) → Recv Json Seconds
  ended : Recv Json Seconds

module _ {Json Seconds : Type 0} where
  -- The messages up to the end of the stream.
  abbrev pub arrivals : List (Recv Json Seconds) → List (RisMessage Json Seconds)
  arrivals [] = []
  arrivals (arrived m ∷ rest) = m ∷ arrivals rest
  arrivals (lagged n ∷ rest) = arrivals rest
  arrivals (ended ∷ rest) = []

  on_tree-updates :
      (v : IpVersion) (change : ThickTree → Outcome ThickTree) (t t' : RouteTable Json Seconds)
      → on_tree v change t ≡ done t'
      → t'.updates ≡ t.updates
  on_tree-updates v change t t' e =
      let (tree, e1, e2) = bind-done (change (tree_for v t)) _ t' e in
      let same : set_tree v tree t ≡ t' = cc in
      ap (λ (s : RouteTable Json Seconds). s.updates) (sym same) ∙ kept v tree
    where
      kept : (v : IpVersion) (tree : ThickTree) → (set_tree v tree t).updates ≡ t.updates
      kept v4 tree = refl
      kept v6 tree = refl

  same_updates : (t t' : RouteTable Json Seconds) → t ≡ t' → t'.updates ≡ t.updates
  same_updates t t' e = ap (λ (s : RouteTable Json Seconds). s.updates) (sym e)

  module _ (parse_ip : Text → Option IpAddr) (parse_len : Text → Option ℕ)
      (from_sec : Seconds → Timestamp) where
    -- `RouteTable::run`: it goes on after a lag and stops at the end. A run on part of what arrives
    -- stops there.
    unfoldable pub run :
        List (Recv Json Seconds) → RouteTable Json Seconds → Outcome (RouteTable Json Seconds)
    run [] t = done t
    run (arrived m ∷ rest) t = ingest parse_ip parse_len from_sec m t >>= λ t'. run rest t'
    run (lagged n ∷ rest) t = run rest t
    run (ended ∷ rest) t = done t

    apply_prefix-updates :
        (cidr : Text) (apply : Prefix → ThickTree → Outcome ThickTree)
        (t t' : RouteTable Json Seconds)
        → apply_prefix parse_ip parse_len from_sec cidr apply t ≡ done t'
        → t'.updates ≡ t.updates
    unfolding apply_prefix
    apply_prefix-updates cidr apply t t' e =
        let (parsed, e1, e2) = bind-done (parse_cidr parse_ip parse_len cidr) _ t' e in go parsed e2
      where
        go :
            (parsed : CidrParseError ⊎ IpVersion × Prefix)
            → ◌≡◌ {A = Outcome (RouteTable Json Seconds)}
                (elim parsed [
                  | inl error ↦ done t
                  | inr (version, p) ↦ on_tree version (apply p) t
                ])
                (done t')
            → t'.updates ≡ t.updates
        go (inl error) e = same_updates t t' cc
        go (inr (version, p)) e = on_tree-updates version (apply p) t t' e

    apply_prefixes-updates :
        (texts : List Text) (apply : Prefix → ThickTree → Outcome ThickTree)
        (t t' : RouteTable Json Seconds)
        → apply_prefixes parse_ip parse_len from_sec texts apply t ≡ done t'
        → t'.updates ≡ t.updates
    unfolding apply_prefixes
    apply_prefixes-updates [] apply t t' e = same_updates t t' cc
    apply_prefixes-updates (cidr ∷ rest) apply t t' e =
        let (t1, e1, e2) =
          bind-done (apply_prefix parse_ip parse_len from_sec cidr apply t) _ t' e in
        apply_prefixes-updates rest apply t1 t' e2 ∙ apply_prefix-updates cidr apply t t1 e1

    apply_body-updates :
        (body : RisMessageBody Json) (ts : Timestamp) (t t' : RouteTable Json Seconds)
        → apply_body parse_ip parse_len from_sec body ts t ≡ done t'
        → t'.updates ≡ t.updates
    unfolding apply_body
    apply_body-updates (update u) ts t t' e =
        let (t1, e1, e2) =
          bind-done
            (apply_prefixes parse_ip parse_len from_sec (announced_texts (flatten u.announcements))
              (announce_on ts) t)
            _ t' e in
        apply_prefixes-updates (flatten u.withdrawals) _ t1 t' e2
        ∙ apply_prefixes-updates (announced_texts (flatten u.announcements)) _ t t1 e1
    apply_body-updates keepalive ts t t' e = same_updates t t' cc
    apply_body-updates (open_ o) ts t t' e = same_updates t t' cc
    apply_body-updates (notification n) ts t t' e = same_updates t t' cc
    apply_body-updates (ris_peer_state s) ts t t' e = same_updates t t' cc

    ingest-updates :
        (m : RisMessage Json Seconds) (t t' : RouteTable Json Seconds)
        → ingest parse_ip parse_len from_sec m t ≡ done t'
        → t'.updates ≡ t.updates ++ m ∷ []
    unfolding ingest apply_message
    ingest-updates m t t' e =
        let (t1, e1, e2) =
          bind-done (apply_body parse_ip parse_len from_sec m.body (from_sec m.timestamp) t) _ t'
            e in
        let before = apply_body-updates m.body (from_sec m.timestamp) t t1 e1 in
        let same : record t1 { updates = t1.updates ++ m ∷ [] } ≡ t' = cc in
        ap (λ (s : RouteTable Json Seconds). s.updates) (sym same) ∙ ap (λ us. us ++ m ∷ []) before

    -- Where the receive loop returns a table, it returns the same table on the messages alone that
    -- arrive before the end of the stream, without the lags; it has published those messages in
    -- their order after the earlier ones, and nothing else.
    pub run-arrivals :
        (events : List (Recv Json Seconds)) (t t' : RouteTable Json Seconds)
        → run events t ≡ done t'
        → (run (map arrived (arrivals events)) t ≡ done t')
          × (t'.updates ≡ t.updates ++ arrivals events)
    unfolding run
    run-arrivals [] t t' e = (e, same_updates t t' (cc) ∙ sym (append-nil t.updates))
    run-arrivals (arrived m ∷ rest) t t' e =
        let (t1, e1, e2) = bind-done (ingest parse_ip parse_len from_sec m t) _ t' e in
        let (runs, updates) = run-arrivals rest t1 t' e2 in
        (
          rw e1 runs,
          updates
              ∙ ap (λ us. us ++ arrivals rest) (ingest-updates m t t1 e1)
              ∙ append_assoc t.updates (m ∷ []) (arrivals rest),
        )
    run-arrivals (lagged n ∷ rest) t t' e = run-arrivals rest t t' e
    run-arrivals (ended ∷ rest) t t' e = (e, same_updates t t' (cc) ∙ sym (append-nil t.updates))
