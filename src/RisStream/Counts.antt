-- ===== src/RisStream/Counts.antt =====
-- The counters agree with what was broadcast.
use slash.Base.{
  ℕ, suc, ◌+◌, ◌%◌, ◌^◌, ◌≡◌, sym, refl, Bool, true, false, if◌then◌else◌, Option, none, some, List,
  [], ◌∷◌, length, arith, length-append,
}
use slash.Prefix.Cidr.{Text}
use slash.Messages.{
  RisMessage, RisMessageBody, Announcement, update, keepalive, open_, notification, ris_peer_state,
  announced_texts, flatten,
}
use slash.RisStream.{
  ServerMessage, ris_message, ris_error, ris_rrc_list, ris_subscribe_ok, pong, text, close,
  read_error, unexpected, ended, Event, cancelled, record_, slept, Phase, reading, pausing, stopped,
  Relay, count_prefixes, record_body, publish, increment, on_record, relay_in, relay, relay_all,
}

count_prefixes-length : (l : List Announcement) → count_prefixes l ≡ length (announced_texts l)
count_prefixes-length [] = refl
count_prefixes-length (a ∷ rest) =
    omega (arith, count_prefixes-length rest, length-append a.prefixes (announced_texts rest))

increment-total : (a n c : ℕ) → a ≡ n % 2 ^ 64 → increment c a ≡ (c + n) % 2 ^ 64
increment-total a n c e = omega (arith, e)

increment-length : (a n : ℕ) → a ≡ n % 2 ^ 64 → increment 1 a ≡ suc n % 2 ^ 64
increment-length a n e = omega (arith, e)

module _ {Json : Type 0} where
  -- The texts that messages announce and withdraw.
  abbrev pub announced_by : RisMessageBody Json → List Text
  announced_by (update u) = announced_texts (flatten u.announcements)
  announced_by keepalive = []
  announced_by (open_ o) = []
  announced_by (notification n) = []
  announced_by (ris_peer_state s) = []

  abbrev pub withdrawn_by : RisMessageBody Json → List Text
  withdrawn_by (update u) = flatten u.withdrawals
  withdrawn_by keepalive = []
  withdrawn_by (open_ o) = []
  withdrawn_by (notification n) = []
  withdrawn_by (ris_peer_state s) = []

module _ {Json Seconds : Type 0} where
  abbrev pub total : (RisMessageBody Json → List Text) → List (RisMessage Json Seconds) → ℕ
  total texts [] = 0
  total texts (m ∷ rest) = length (texts m.body) + total texts rest

  -- The counters count what was broadcast, in 64 bits.
  pub record IsCounted (r : Relay Json Seconds) : Type 0 where
    pub messages : r.metrics.messages_total ≡ length r.sent % 2 ^ 64
    pub announced : r.metrics.prefixes_announced_total ≡ total announced_by r.sent % 2 ^ 64
    pub withdrawn : r.metrics.prefixes_withdrawn_total ≡ total withdrawn_by r.sent % 2 ^ 64

  counted :
      (m : RisMessage Json Seconds) (body : RisMessageBody Json) (r : Relay Json Seconds)
      → m.body ≡ body
      → IsCounted r
      → IsCounted (record r { metrics = record_body body r.metrics; sent = m ∷ r.sent })
  unfolding record_body
  counted m (update u) r e c = record {
    messages = increment-length r.metrics.messages_total (length r.sent) c.messages;
    announced =
        rw (e, sym (count_prefixes-length (flatten u.announcements)))
          (increment-total r.metrics.prefixes_announced_total (total announced_by r.sent)
            (count_prefixes (flatten u.announcements)) c.announced);
    withdrawn = rw e (
        increment-total r.metrics.prefixes_withdrawn_total (total withdrawn_by r.sent)
          (length (flatten u.withdrawals)) c.withdrawn);
  }
  counted m keepalive r e c = record {
    messages = increment-length r.metrics.messages_total (length r.sent) c.messages;
    announced = rw e (omega (arith, c.announced));
    withdrawn = rw e (omega (arith, c.withdrawn));
  }
  counted m (open_ o) r e c = record {
    messages = increment-length r.metrics.messages_total (length r.sent) c.messages;
    announced = rw e (omega (arith, c.announced));
    withdrawn = rw e (omega (arith, c.withdrawn));
  }
  counted m (notification n) r e c = record {
    messages = increment-length r.metrics.messages_total (length r.sent) c.messages;
    announced = rw e (omega (arith, c.announced));
    withdrawn = rw e (omega (arith, c.withdrawn));
  }
  counted m (ris_peer_state s) r e c = record {
    messages = increment-length r.metrics.messages_total (length r.sent) c.messages;
    announced = rw e (omega (arith, c.announced));
    withdrawn = rw e (omega (arith, c.withdrawn));
  }

  -- A change of the phase alone.
  moved :
      (r : Relay Json Seconds) (p : Phase) (b : Bool)
      → IsCounted r
      → IsCounted (record r { phase = p; stopping = b })
  moved r p b c = record { messages = c.messages; announced = c.announced; withdrawn = c.withdrawn }

  publish-IsCounted :
      (after_epoch : Bool) (o : Option (ServerMessage Json Seconds)) (r : Relay Json Seconds)
      → IsCounted r
      → IsCounted (publish after_epoch o r)
  unfolding publish
  publish-IsCounted true (some (ris_message m)) r c = counted m m.body r refl c
  publish-IsCounted false (some (ris_message m)) r c = moved r stopped r.stopping c
  publish-IsCounted b (some (ris_error e)) r c = c
  publish-IsCounted b (some (ris_rrc_list l)) r c = c
  publish-IsCounted b (some (ris_subscribe_ok o)) r c = c
  publish-IsCounted b (some pong) r c = c
  publish-IsCounted b none r c = c

  module _ (parse : Text → Option (ServerMessage Json Seconds)) where
    relay_in-IsCounted :
        (p : Phase) (e : Event) (r : Relay Json Seconds)
        → IsCounted r
        → IsCounted (relay_in parse p e r)
    unfolding relay_in on_record
    relay_in-IsCounted reading cancelled r c = moved r pausing true c
    relay_in-IsCounted reading (record_ (text t b)) r c = publish-IsCounted b (parse t) r c
    relay_in-IsCounted reading (record_ close) r c = moved r pausing r.stopping c
    relay_in-IsCounted reading (record_ read_error) r c = moved r pausing r.stopping c
    relay_in-IsCounted reading (record_ unexpected) r c = c
    relay_in-IsCounted reading (record_ ended) r c = moved r pausing r.stopping c
    relay_in-IsCounted reading (slept ok) r c = c
    relay_in-IsCounted pausing cancelled r c = moved r stopped r.stopping c
    relay_in-IsCounted pausing (record_ rec) r c = c
    relay_in-IsCounted pausing (slept ok) r c =
        moved r (if r.stopping then stopped else reading) r.stopping c
    relay_in-IsCounted stopped e r c = c

    -- If the counters of the relay agree with what was broadcast, they agree after any events:
    -- modulo 2 ^ 64, the count of messages is that of the broadcast messages, and the counts of
    -- announced and withdrawn prefixes are those of the texts that the broadcast messages announce
    -- and withdraw.
    pub relay_all-IsCounted :
        (events : List Event) (r : Relay Json Seconds)
        → IsCounted r
        → IsCounted (relay_all parse events r)
    unfolding relay_all relay
    relay_all-IsCounted [] r c = c
    relay_all-IsCounted (e ∷ rest) r c =
        relay_all-IsCounted rest (relay_in parse r.phase e r) (relay_in-IsCounted r.phase e r c)
