-- ===== src/RisStream/Same.antt =====
-- The mock source in place of RIS Live: it broadcasts on the lines of a file what the relay
-- broadcasts on the same texts.
use slash.Base.{
  arith, Bool, true, Option, none, some, List, [], ◌∷◌, ◌++◌, map, ◌≡◌, refl, ap, sym, ◌∙◌,
}
use slash.Prefix.Cidr.{Text}
use slash.Messages.{RisMessage}
use slash.RisStream.{
  ServerMessage, ris_message, ris_error, ris_rrc_list, ris_subscribe_ok, pong, record_, text,
  reading, Relay, publish, on_record, relay_in, relay, relay_all,
}
use slash.RisStream.Mock.{
  MockEvent, waited, sent, panicked, message_of, messages_of, mock_loop, subscribe_from_file,
}

module _ {Json Seconds : Type 0} where
  -- What the events of the mock source broadcast, the first message first.
  abbrev pub broadcasts :
      {Pause : Type 0} → List (MockEvent Json Seconds Pause) → List (RisMessage Json Seconds)
  broadcasts [] = []
  broadcasts (waited p ∷ rest) = broadcasts rest
  broadcasts (sent m ∷ rest) = m ∷ broadcasts rest
  broadcasts (panicked ∷ rest) = broadcasts rest

  -- Messages that go out one after the other on top of those before.
  abbrev pub onto :
      List (RisMessage Json Seconds)
      → List (RisMessage Json Seconds)
      → List (RisMessage Json Seconds)
  onto [] before = before
  onto (m ∷ rest) before = onto rest (m ∷ before)

  onto-append :
      (a b before : List (RisMessage Json Seconds)) → onto (a ++ b) before ≡ onto b (onto a before)
  onto-append [] b before = refl
  onto-append (m ∷ a) b before = onto-append a b (m ∷ before)

  module _ {Pause : Type 0} (pause : Seconds → Seconds → Option Pause)
      (has_receiver : RisMessage Json Seconds → Bool)
      (pauses : (a b : Seconds) → (d : Pause) × (pause a b ≡ some d))
      (received : (m : RisMessage Json Seconds) → has_receiver m ≡ true) where
    mock_loop-broadcasts :
        (simulate_time : Bool) (last : Option Seconds) (l : List (RisMessage Json Seconds))
        → broadcasts (mock_loop pause has_receiver simulate_time last l) ≡ l
    unfolding mock_loop
    mock_loop-broadcasts simulate_time last [] = refl
    mock_loop-broadcasts simulate_time none (m ∷ rest) =
        ground (arith, received m, mock_loop-broadcasts simulate_time (some m.timestamp) rest)
    mock_loop-broadcasts simulate_time (some last) (m ∷ rest) = ground (
      arith,
      received m,
      (pauses last m.timestamp).1,
      mock_loop-broadcasts simulate_time (some m.timestamp) rest,
    )

    module _ (parse : Text → Option (ServerMessage Json Seconds)) where
      -- A text leaves the relay reading, with what is in the text on top.
      relay_text :
          (o : Option (ServerMessage Json Seconds)) (r : Relay Json Seconds)
          → ((publish true o r).phase ≡ r.phase)
            × ((publish true o r).sent ≡ onto (elim o [ none ↦ [] | some m ↦ message_of m ]) r.sent)
      unfolding publish message_of
      relay_text none r = (refl, refl)
      relay_text (some (ris_message m)) r = (refl, refl)
      relay_text (some (ris_error e)) r = (refl, refl)
      relay_text (some (ris_rrc_list l)) r = (refl, refl)
      relay_text (some (ris_subscribe_ok o)) r = (refl, refl)
      relay_text (some pong) r = (refl, refl)

      relay_texts :
          (lines : List Text) (r : Relay Json Seconds)
          → r.phase ≡ reading
          → (relay_all parse (map (λ t. record_ (text t true)) lines) r).sent
            ≡ onto (messages_of parse (map some lines)) r.sent
      unfolding relay_all relay relay_in on_record messages_of
      relay_texts [] r e = refl
      relay_texts (t ∷ rest) r e =
          let step : relay parse (record_ (text t true)) r ≡ publish true (parse t) r = rw e refl in
          let (p, s) = relay_text (parse t) r in
          ap (λ u. (relay_all parse (map (λ t. record_ (text t true)) rest) u).sent) step
          ∙ relay_texts rest (publish true (parse t) r) (p ∙ e)
          ∙ ap (λ u. onto (messages_of parse (map some rest)) u) s
          ∙ sym (
              onto-append (elim (parse t) [ none ↦ [] | some m ↦ message_of m ])
                (messages_of parse (map some rest)) r.sent)

      -- Where every pause can be computed, a receiver is left for every message and the clock
      -- stands after the epoch, the mock source returns for a file of readable lines, and it
      -- broadcasts on them what a relay that reads broadcasts on the same texts, at the recorded
      -- rate or not.
      pub subscribe_from_file-relay_all :
          (simulate_time : Bool) (lines : List Text) (r : Relay Json Seconds)
          → r.phase ≡ reading
          → (events : List (MockEvent Json Seconds Pause)) × (subscribe_from_file pause has_receiver
                simulate_time parse
                (some (map some lines))
              ≡ some events)
            × ((relay_all parse (map (λ t. record_ (text t true)) lines) r).sent
                ≡ onto (broadcasts events) r.sent)
      unfolding subscribe_from_file
      subscribe_from_file-relay_all simulate_time lines r e =
          let messages = messages_of parse (map some lines) in
          (
            mock_loop pause has_receiver simulate_time none messages,
            refl,
            relay_texts lines r e
                ∙ ap (λ l. onto l r.sent) (sym (mock_loop-broadcasts simulate_time none messages)),
          )
