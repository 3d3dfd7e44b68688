-- ===== src/RisStream.antt =====
-- crates/ris_client/src/stream.rs: the task that relays RIS Live to the broadcast channel, from what
-- it awaits: the shutdown signal, a record of the websocket, the end of the pause with a new
-- connection or without. A record's text goes through `parse`, serde's parser of a `ServerMessage`,
-- which is a parameter. What went out and the counters of the metrics, which wrap at 64 bits, are the
-- state. The histogram of ages is floating point and left out; that the clock stands before the
-- epoch, where the age panics and ends the task, comes with the text.
pub mod Counts
pub mod Shutdown
pub mod Mock
pub mod Same
use slash.Base.{
  ℕ, ◌+◌, ◌%◌, ◌^◌, Bool, true, false, if◌then◌else◌, Option, none, some, List, [], ◌∷◌, ◌++◌,
  length,
}
use slash.Prefix.Cidr.{Text}
use slash.Messages.{
  RisMessage, RisMessageBody, BgpUpdate, Announcement, update, keepalive, open_, notification,
  ris_peer_state, flatten,
}
use slash.Messages.Subscription.{RisError, RisSubscribeOk}

pub data ServerMessage (Json Seconds : Type 0) : Type 0 where
  ris_message : RisMessage Json Seconds → ServerMessage Json Seconds
  ris_error : RisError → ServerMessage Json Seconds
  ris_rrc_list : List Text → ServerMessage Json Seconds
  ris_subscribe_ok : RisSubscribeOk → ServerMessage Json Seconds
  pong : ServerMessage Json Seconds

-- What the websocket gives: a text, with whether the clock stands after the epoch when it comes, a
-- close frame, an error, a frame of another kind, its end.
pub data Record : Type 0 where
  text : Text → (after_epoch : Bool) → Record
  close read_error unexpected ended : Record

pub data Event : Type 0 where
  cancelled : Event
  record_ : Record → Event
  slept : (reconnected : Bool) → Event

-- The task waits for a record, or for the end of the pause, or it has ended, also by a panic.
pub data Phase : Type 0 where
  reading pausing stopped : Phase

pub record MessageMetrics : Type 0 where
  pub messages_total : ℕ
  pub prefixes_announced_total : ℕ
  pub prefixes_withdrawn_total : ℕ

pub record Relay (Json Seconds : Type 0) : Type 0 where
  pub phase : Phase
  -- `done`, which ends the outer loop.
  pub stopping : Bool
  pub metrics : MessageMetrics
  -- What was broadcast, the last message first.
  pub sent : List (RisMessage Json Seconds)

-- The sum over the announcements of how many prefixes each has.
abbrev pub count_prefixes : List Announcement → ℕ
count_prefixes [] = 0
count_prefixes (a ∷ rest) = length a.prefixes + count_prefixes rest

-- A u64 counter.
abbrev pub increment : ℕ → ℕ → ℕ
increment n counter = (counter + n) % 2 ^ 64

module _ {Json : Type 0} where
  -- `MessageMetrics::record`, after the age.
  unfoldable pub record_body : RisMessageBody Json → MessageMetrics → MessageMetrics
  record_body (update u) m = record m {
    messages_total = increment 1 m.messages_total;
    prefixes_announced_total =
        increment (count_prefixes (flatten u.announcements)) m.prefixes_announced_total;
    prefixes_withdrawn_total =
        increment (length (flatten u.withdrawals)) m.prefixes_withdrawn_total;
  }
  record_body keepalive m = record m { messages_total = increment 1 m.messages_total }
  record_body (open_ o) m = record m { messages_total = increment 1 m.messages_total }
  record_body (notification n) m = record m { messages_total = increment 1 m.messages_total }
  record_body (ris_peer_state s) m = record m { messages_total = increment 1 m.messages_total }

module _ {Json Seconds : Type 0} where
  -- What is done with a parsed text: only a RIS message is counted and broadcast, and it panics
  -- before that where its age cannot be computed.
  unfoldable pub publish :
      (after_epoch : Bool)
      → Option (ServerMessage Json Seconds)
      → Relay Json Seconds
      → Relay Json Seconds
  publish true (some (ris_message m)) r = record r {
    metrics = record_body m.body r.metrics;
    sent = m ∷ r.sent;
  }
  publish false (some (ris_message m)) r = record r { phase = stopped }
  publish after_epoch (some (ris_error e)) r = r
  publish after_epoch (some (ris_rrc_list l)) r = r
  publish after_epoch (some (ris_subscribe_ok o)) r = r
  publish after_epoch (some pong) r = r
  publish after_epoch none r = r

  -- `while !done`, at the end of a round.
  abbrev pub next_round : Relay Json Seconds → Relay Json Seconds
  next_round r = record r { phase = if r.stopping then stopped else reading }

  module _ (parse : Text → Option (ServerMessage Json Seconds)) where
    -- The inner loop, on a record: a break leads into the pause.
    unfoldable pub on_record : Record → Relay Json Seconds → Relay Json Seconds
    on_record (text t after_epoch) r = publish after_epoch (parse t) r
    on_record close r = record r { phase = pausing }
    on_record read_error r = record r { phase = pausing }
    on_record unexpected r = r
    on_record ended r = record r { phase = pausing }

    -- The two selects. The signal while it reads sets `done` and breaks into the pause; the pause
    -- ends with the signal, which breaks the outer loop, or with its time, after which the next
    -- round reads from a new connection, or from the old one where there is none.
    unfoldable pub relay_in : Phase → Event → Relay Json Seconds → Relay Json Seconds
    relay_in reading cancelled r = record r { phase = pausing; stopping = true }
    relay_in reading (record_ rec) r = on_record rec r
    relay_in reading (slept ok) r = r
    relay_in pausing cancelled r = record r { phase = stopped }
    relay_in pausing (record_ rec) r = r
    relay_in pausing (slept ok) r = next_round r
    relay_in stopped e r = r

    unfoldable pub relay : Event → Relay Json Seconds → Relay Json Seconds
    relay e r = relay_in r.phase e r

    unfoldable pub relay_all : List Event → Relay Json Seconds → Relay Json Seconds
    relay_all [] r = r
    relay_all (e ∷ rest) r = relay_all rest (relay e r)
