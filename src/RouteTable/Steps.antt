-- ===== src/RouteTable/Steps.antt =====
-- The steps that the locks of the tries make atomic: `ingest` locks a trie for one prefix at a time
-- and publishes the message after the last, and `sweep` locks the tries one after the other. The
-- ingest task, the sweeps and the subscribers go on in any order of such steps.
pub mod Changed
use slash.Base.{
  ℕ, suc, ◌+◌, ◌^◌, ◌<◌, ◌≡◌, ◌↔◌, ◌⊎◌, inl, inr, refl, Option, some, List, [], ◌∷◌, ◌++◌, map, sym,
  ◌∙◌, ap,
}
use slash.Base.Outcome.{Outcome, done, panic, out_of_fuel, ◌>>=◌, bind_assoc, bind_done}
use slash.Timestamp.{Timestamp}
use slash.Prefix.{IpVersion, v4, v6, Prefix}
use slash.Prefix.Cidr.{Text, IpAddr, CidrParseError, parse_cidr}
use slash.Tree.Sweep.{sweep_tombstones}
use slash.Messages.{
  RisMessage, RisMessageBody, ThinBgpUpdate, UpdateType, announce, withdraw, update, keepalive,
  open_, notification, ris_peer_state, flatten, announced_texts, thin_update, tagged,
}
use slash.RouteTable.{
  ThickTree, RouteTable, run_on, tree_for, set_tree, on_tree, apply_prefix, apply_prefixes,
  apply_body, apply_message, ingest, sweep,
}
use slash.RouteTable.Changes.{server_change}

pub data Step (Json Seconds : Type 0) : Type 0 where
  change : (ts : Timestamp) (cidr : Text) (kind : UpdateType) → Step Json Seconds
  publish : RisMessage Json Seconds → Step Json Seconds
  sweep_tree : IpVersion → Step Json Seconds

module _ {Json Seconds : Type 0} where
  -- What a message changes.
  abbrev pub changes_of : Timestamp → List (Text × UpdateType) → List (Step Json Seconds)
  changes_of ts [] = []
  changes_of ts ((cidr, kind) ∷ rest) = change ts cidr kind ∷ changes_of ts rest

  pub changes_of-append :
      (ts : Timestamp) (xs ys : List (Text × UpdateType))
      → changes_of ts (xs ++ ys) ≡ changes_of ts xs ++ changes_of ts ys
  changes_of-append ts [] ys = refl
  changes_of-append ts ((cidr, kind) ∷ xs) ys =
      ap (λ steps. change ts cidr kind ∷ steps) (changes_of-append ts xs ys)

abbrev pub texts_of : {Json : Type 0} → RisMessageBody Json → List (Text × UpdateType)
texts_of (update u) = tagged u
texts_of keepalive = []
texts_of (open_ o) = []
texts_of (notification n) = []
texts_of (ris_peer_state s) = []

abbrev pub steps_of :
    {Json Seconds : Type 0}
    → (Seconds → Timestamp)
    → RisMessage Json Seconds
    → List (Step Json Seconds)
steps_of from_sec m = changes_of (from_sec m.timestamp) (texts_of m.body) ++ publish m ∷ []

module _ {Json Seconds : Type 0} (parse_ip : Text → Option IpAddr) (parse_len : Text → Option ℕ)
    (from_sec : Seconds → Timestamp) where
  unfoldable pub run_step :
      Step Json Seconds → RouteTable Json Seconds → Outcome (RouteTable Json Seconds)
  run_step (change ts cidr kind) t =
      apply_prefix parse_ip parse_len from_sec cidr (λ p. server_change kind p ts) t
  run_step (publish m) t = done (record t { updates = t.updates ++ m ∷ [] })
  run_step (sweep_tree v) t = on_tree v (run_on sweep_tombstones) t

  unfoldable pub run_steps :
      List (Step Json Seconds) → RouteTable Json Seconds → Outcome (RouteTable Json Seconds)
  run_steps [] t = done t
  run_steps (step ∷ rest) t = run_step step t >>= λ t'. run_steps rest t'

  pub run_steps-append :
      (xs ys : List (Step Json Seconds)) (t : RouteTable Json Seconds)
      → run_steps (xs ++ ys) t ≡ (run_steps xs t >>= λ t'. run_steps ys t')
  unfolding run_steps
  run_steps-append [] ys t = refl
  run_steps-append (x ∷ xs) ys t =
      (λ i. run_step x t >>= λ t'. run_steps-append xs ys t' i)
      ∙ sym (bind_assoc (run_step x t) (λ t'. run_steps xs t') (λ t'. run_steps ys t'))

  apply_prefixes-steps :
      (kind : UpdateType) (ts : Timestamp) (texts : List Text) (t : RouteTable Json Seconds)
      → apply_prefixes parse_ip parse_len from_sec texts (λ p. server_change kind p ts) t
        ≡ run_steps (changes_of ts (map (λ cidr. (cidr, kind)) texts)) t
  unfolding apply_prefixes run_steps run_step
  apply_prefixes-steps kind ts [] t = refl
  apply_prefixes-steps kind ts (cidr ∷ rest) t = λ i.
      apply_prefix parse_ip parse_len from_sec cidr (λ p. server_change kind p ts) t >>= λ t'.
      apply_prefixes-steps kind ts rest t' i

  apply_body-steps :
      (ts : Timestamp) (body : RisMessageBody Json) (t : RouteTable Json Seconds)
      → apply_body parse_ip parse_len from_sec body ts t
        ≡ run_steps (changes_of ts (texts_of body)) t
  unfolding apply_body run_steps
  apply_body-steps ts (update u) t =
      let news = map (λ cidr. (cidr, announce)) (announced_texts (flatten u.announcements)) in
      let olds = map (λ cidr. (cidr, withdraw)) (flatten u.withdrawals) in
      (λ i.
        apply_prefixes-steps announce ts (announced_texts (flatten u.announcements)) t i >>= λ t'.
        apply_prefixes-steps withdraw ts (flatten u.withdrawals) t' i)
      ∙ sym (run_steps-append (changes_of ts news) (changes_of ts olds) t)
      ∙ ap (λ steps. run_steps steps t) (sym (changes_of-append ts news olds))
  apply_body-steps ts keepalive t = refl
  apply_body-steps ts (open_ o) t = refl
  apply_body-steps ts (notification n) t = refl
  apply_body-steps ts (ris_peer_state s) t = refl

  -- Ingesting a message is the run of its steps: a step for each announced text and then for each
  -- withdrawn one, each under the lock of a trie, and then the publication of the message.
  pub ingest-steps :
      (m : RisMessage Json Seconds) (t : RouteTable Json Seconds)
      → ingest parse_ip parse_len from_sec m t ≡ run_steps (steps_of from_sec m) t
  unfolding ingest apply_message run_steps run_step
  ingest-steps m t =
      let changes = changes_of (from_sec m.timestamp) (texts_of m.body) in
      (λ i. apply_body-steps (from_sec m.timestamp) m.body t i >>= λ t'.
      done (record t' { updates = t'.updates ++ m ∷ [] }))
      ∙ sym (run_steps-append changes (publish m ∷ []) t)

  pub sweep-steps :
      (t : RouteTable Json Seconds) → sweep t ≡ run_steps (sweep_tree v4 ∷ sweep_tree v6 ∷ []) t
  unfolding sweep run_steps run_step
  sweep-steps t = λ i. on_tree v4 (run_on sweep_tombstones) t >>= λ t'.
      sym (bind_done (on_tree v6 (run_on sweep_tombstones) t')) i
