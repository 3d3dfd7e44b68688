-- ===== src/RisStream/Mock.antt =====
-- crates/ris_client/src/mock_event_source.rs: RIS messages from the lines of a file in place of RIS
-- Live. A line that cannot be read is none. serde's parser is a parameter; so are the pause between
-- two times, none where `Duration::from_secs_f64` panics, and whether a receiver is left for a
-- message.
use slash.Base.{Bool, Option, none, some, List, [], ◌∷◌, ◌++◌, if◌then◌else◌}
use slash.Prefix.Cidr.{Text}
use slash.Messages.{RisMessage}
use slash.RisStream.{ServerMessage, ris_message, ris_error, ris_rrc_list, ris_subscribe_ok, pong}

-- What the task does: it waits, broadcasts a message, or panics and does nothing more.
pub data MockEvent (Json Seconds Pause : Type 0) : Type 0 where
  waited : Pause → MockEvent Json Seconds Pause
  sent : RisMessage Json Seconds → MockEvent Json Seconds Pause
  panicked : MockEvent Json Seconds Pause

module _ {Json Seconds : Type 0} where
  -- The second filter: only a RIS message goes on.
  unfoldable pub message_of : ServerMessage Json Seconds → List (RisMessage Json Seconds)
  message_of (ris_message m) = m ∷ []
  message_of (ris_error e) = []
  message_of (ris_rrc_list l) = []
  message_of (ris_subscribe_ok o) = []
  message_of pong = []

  -- A line that is not a message is dropped.
  unfoldable pub messages_of :
      (Text → Option (ServerMessage Json Seconds))
      → List (Option Text)
      → List (RisMessage Json Seconds)
  messages_of parse [] = []
  messages_of parse (none ∷ rest) = messages_of parse rest
  messages_of parse (some line ∷ rest) =
      elim (parse line) [ none ↦ [] | some message ↦ message_of message ] ++ messages_of parse rest

  module _ {Pause : Type 0} (pause : Seconds → Seconds → Option Pause)
      (has_receiver : RisMessage Json Seconds → Bool) (simulate_time : Bool) where
    -- The loop of the task from the time of the message before. The pause is computed, and may
    -- panic, whether or not the task then sleeps.
    unfoldable pub mock_loop :
        Option Seconds → List (RisMessage Json Seconds) → List (MockEvent Json Seconds Pause)
    mock_loop last [] = []
    mock_loop none (m ∷ rest) =
        let later = mock_loop (some m.timestamp) rest in
        if has_receiver m then sent m ∷ later else panicked ∷ []
    mock_loop (some last) (m ∷ rest) =
        let later = mock_loop (some m.timestamp) rest in
        let send = if has_receiver m then sent m ∷ later else panicked ∷ [] in
        elim (pause last m.timestamp) [
          | none ↦ panicked ∷ []
          | some delay ↦ if simulate_time then waited delay ∷ send else send
        ]

    -- None where the file does not open.
    unfoldable pub subscribe_from_file :
        (Text → Option (ServerMessage Json Seconds))
        → Option (List (Option Text))
        → Option (List (MockEvent Json Seconds Pause))
    subscribe_from_file parse none = none
    subscribe_from_file parse (some lines) = some (mock_loop none (messages_of parse lines))
