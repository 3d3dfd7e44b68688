-- ===== src/Connection/Aligned.antt =====
-- The updates of the steps of messages, and what a connection sends of the messages.
use slash.Base.{ℕ, ◌≡◌, refl, Option, List, [], ◌∷◌, ◌++◌, sym, ◌∙◌, ap}
use mathlib.Core.List.{append_assoc, append-nil}
use slash.Base.Outcome.{Outcome, done, ◌>>=◌, bind-done, bind_done}
use slash.Timestamp.{Timestamp}
use slash.Prefix.{IpVersion}
use slash.Prefix.Cidr.{Text, IpAddr, parse_cidr}
use slash.Messages.{
  RisMessage, RisMessageBody, ThinBgpUpdate, UpdateType, update, keepalive, open_, notification,
  ris_peer_state, thin_updates, to_thin_updates,
}
use slash.RouteTable.Steps.{Step, change, publish, sweep_tree, changes_of, texts_of, steps_of}
use slash.RouteTable.Steps.Changed.{published, step_updates, steps_updates}
use slash.Connection.{message_updates, chunk_updates}

module _ {Json Seconds : Type 0} where
  -- The steps of the ingest task.
  abbrev pub ingesting : List (Step Json Seconds) → List (Step Json Seconds)
  ingesting [] = []
  ingesting (change ts cidr kind ∷ rest) = change ts cidr kind ∷ ingesting rest
  ingesting (publish m ∷ rest) = publish m ∷ ingesting rest
  ingesting (sweep_tree v ∷ rest) = ingesting rest

  pub published-append :
      (xs ys : List (Step Json Seconds)) → published (xs ++ ys) ≡ published xs ++ published ys
  published-append [] ys = refl
  published-append (change ts cidr kind ∷ xs) ys = published-append xs ys
  published-append (publish m ∷ xs) ys = ap (λ ms. m ∷ ms) (published-append xs ys)
  published-append (sweep_tree v ∷ xs) ys = published-append xs ys

  pub published-ingesting :
      (xs : List (Step Json Seconds)) → published (ingesting xs) ≡ published xs
  published-ingesting [] = refl
  published-ingesting (change ts cidr kind ∷ xs) = published-ingesting xs
  published-ingesting (publish m ∷ xs) = ap (λ ms. m ∷ ms) (published-ingesting xs)
  published-ingesting (sweep_tree v ∷ xs) = published-ingesting xs

module _ (Json : Type 0) {Seconds : Type 0} (parse_ip : Text → Option IpAddr)
    (parse_len : Text → Option ℕ) (from_sec : Seconds → Timestamp) where
  pub published-changes_of :
      (ts : Timestamp) (texts : List (Text × UpdateType))
      → published (changes_of {Json = Json} {Seconds = Seconds} ts texts) ≡ []
  published-changes_of ts [] = refl
  published-changes_of ts ((cidr, kind) ∷ rest) = published-changes_of ts rest

  abbrev pub all_steps : List (RisMessage Json Seconds) → List (Step Json Seconds)
  all_steps [] = []
  all_steps (m ∷ ms) = steps_of from_sec m ++ all_steps ms

  pub published-all_steps : (ms : List (RisMessage Json Seconds)) → published (all_steps ms) ≡ ms
  published-all_steps [] = refl
  published-all_steps (m ∷ ms) =
      let changes : List (Step Json Seconds) =
        changes_of (from_sec m.timestamp) (texts_of m.body) in
      published-append (changes ++ publish m ∷ []) (all_steps ms)
      ∙ ap (λ xs. xs ++ published (all_steps ms)) (published-append changes (publish m ∷ []))
      ∙ ap (λ xs. (xs ++ m ∷ []) ++ published (all_steps ms))
          (published-changes_of (from_sec m.timestamp) (texts_of m.body))
      ∙ ap (λ xs. m ∷ xs) (published-all_steps ms)

  module _ (v : IpVersion) where
    abbrev of_steps : List (Step Json Seconds) → Outcome (List ThinBgpUpdate)
    of_steps steps = steps_updates parse_ip parse_len from_sec v steps

    pub steps_updates-ingesting :
        (xs : List (Step Json Seconds)) → of_steps (ingesting xs) ≡ of_steps xs
    unfolding steps_updates step_updates
    steps_updates-ingesting [] = refl
    steps_updates-ingesting (change ts cidr kind ∷ xs) = λ i.
        step_updates {Json = Json} parse_ip parse_len from_sec v (change ts cidr kind) >>= λ us.
        steps_updates-ingesting xs i >>= λ vs. done (us ++ vs)
    steps_updates-ingesting (publish m ∷ xs) = λ i. steps_updates-ingesting xs i >>= λ vs. done vs
    steps_updates-ingesting (sweep_tree w ∷ xs) =
        steps_updates-ingesting xs ∙ sym (bind_done (of_steps xs))

    pub steps_updates-split :
        (xs ys : List (Step Json Seconds)) (us : List ThinBgpUpdate)
        → of_steps (xs ++ ys) ≡ done us
        → (us1 us2 : List ThinBgpUpdate) × (of_steps xs ≡ done us1)
          × (of_steps ys ≡ done us2)
          × (us ≡ us1 ++ us2)
    unfolding steps_updates
    steps_updates-split [] ys us e = ([], us, refl, e, refl)
    steps_updates-split (x ∷ xs) ys us e =
        let (u, e1, e2) = bind-done (step_updates parse_ip parse_len from_sec v x) _ us e in
        let (rest, e3, e4) = bind-done (of_steps (xs ++ ys)) _ us e2 in
        let (us1, us2, first, second, both) = steps_updates-split xs ys rest e3 in
        let whole : u ++ rest ≡ us = cc in
        (
          u ++ us1,
          us2,
          rw (e1, first) refl,
          second,
          sym whole ∙ ap (λ ws. u ++ ws) both ∙ sym (append_assoc u us1 us2),
        )

    steps_updates-join :
        (xs ys : List (Step Json Seconds)) (us vs : List ThinBgpUpdate)
        → of_steps xs ≡ done us
        → of_steps ys ≡ done vs
        → of_steps (xs ++ ys) ≡ done (us ++ vs)
    unfolding steps_updates
    steps_updates-join [] ys us vs e e' = let none_first : [] ≡ us = cc in rw (sym none_first) e'
    steps_updates-join (x ∷ xs) ys us vs e e' =
        let (u, e1, e2) = bind-done (step_updates parse_ip parse_len from_sec v x) _ us e in
        let (rest, e3, e4) = bind-done (of_steps xs) _ us e2 in
        let whole : u ++ rest ≡ us = cc in
        let joined = steps_updates-join xs ys rest vs e3 e' in
        rw (e1, joined, sym whole) (ap done (sym (append_assoc u rest vs)))

    thin_updates-steps :
        (ts : Timestamp) (texts : List (Text × UpdateType)) (us : List ThinBgpUpdate)
        → thin_updates parse_ip parse_len ts v texts ≡ done us
        → of_steps (changes_of ts texts) ≡ done us
    unfolding steps_updates step_updates thin_updates
    thin_updates-steps ts [] us e = e
    thin_updates-steps ts ((cidr, kind) ∷ rest) us e =
        let (parsed, e1, e2) = bind-done (parse_cidr parse_ip parse_len cidr) _ us e in
        let (others, e3, e4) = bind-done (thin_updates parse_ip parse_len ts v rest) _ us e2 in
        let below = thin_updates-steps ts rest others e3 in rw (e1, below) e4

    message_updates-texts :
        (body : RisMessageBody Json) (m : RisMessage Json Seconds) (us : List ThinBgpUpdate)
        → message_updates parse_ip parse_len from_sec v (record m { body = body }) ≡ done us
        → thin_updates parse_ip parse_len (from_sec m.timestamp) v (texts_of body) ≡ done us
    unfolding message_updates to_thin_updates thin_updates
    message_updates-texts (update u) m us e = e
    message_updates-texts keepalive m us e = e
    message_updates-texts (open_ o) m us e = e
    message_updates-texts (notification n) m us e = e
    message_updates-texts (ris_peer_state p) m us e = e

    -- What is sent of messages is what their steps change.
    pub chunk_updates-steps :
        (ms : List (RisMessage Json Seconds)) (us : List ThinBgpUpdate)
        → chunk_updates parse_ip parse_len from_sec v ms ≡ done us
        → of_steps (all_steps ms) ≡ done us
    unfolding chunk_updates steps_updates step_updates
    chunk_updates-steps [] us e = e
    chunk_updates-steps (m ∷ ms) us e =
        let ts = from_sec m.timestamp in
        let texts = texts_of m.body in
        let changes : List (Step Json Seconds) = changes_of ts texts in
        let (um, e1, e2) = bind-done (message_updates parse_ip parse_len from_sec v m) _ us e in
        let (rest, e3, e4) = bind-done (chunk_updates parse_ip parse_len from_sec v ms) _ us e2 in
        let whole : um ++ rest ≡ us = cc in
        let changed = thin_updates-steps ts texts um (message_updates-texts m.body m um e1) in
        let one = steps_updates-join changes (publish m ∷ []) um [] changed refl in
        let one' : of_steps (changes ++ publish m ∷ []) ≡ done um = one ∙ ap done (append-nil um) in
        steps_updates-join (changes ++ publish m ∷ []) (all_steps ms) um rest one'
          (chunk_updates-steps ms rest e3)
        ∙ ap done whole
