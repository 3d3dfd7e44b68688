-- ===== src/Connection.antt =====
-- crates/server/src/connection.rs: the server's side of one websocket as a state machine. What a
-- state awaits is an argument of the function of that state: what the socket gives, the table that
-- the snapshot is taken of, a chunk of broadcast messages, and whether a send succeeds. Each
-- function returns what was sent and the next state, for one round of its loop. The receiver of an
-- active connection is the log of messages at the subscription, after which it starts.
pub mod Frames
pub mod Runs
pub mod Order
pub mod Arrows
pub mod Applied
pub mod Aligned
use slash.Base.{ℕ, Bool, true, false, not, Option, none, some, List, [], ◌∷◌, ◌++◌, if◌then◌else◌}
use slash.Base.Outcome.{Outcome, done, panic, ◌>>=◌, ◌>>◌, assert}
use slash.Timestamp.{Timestamp}
use slash.Prefix.{IpVersion, version_eq}
use slash.Prefix.Cidr.{Text, IpAddr}
use slash.Tree.{from_thick_tree}
use slash.Messages.{
  RisMessage, RisMessageBody, ThinBgpUpdate, update, keepalive, open_, notification, ris_peer_state,
  to_thin_updates,
}
use slash.Wire.{
  Slash0Message, subscribe_request, trie_snapshot, thin_bgp_update, thin_bgp_update_frame, Received,
  message, closed, failed,
}
use slash.RouteTable.{RouteTable, subscribe}

-- `WebSocketAdapter::next` on what the stream gives: its end, an error, or the bytes of a frame.
unfoldable pub socket_next :
    {Bytes : Type 0} → (Bytes → Option Slash0Message) → Option (Option Bytes) → Received
socket_next from_bytes none = closed
socket_next from_bytes (some none) = failed
socket_next from_bytes (some (some data_)) = elim (from_bytes data_) [
  | some m ↦ message m
  | none ↦ failed
]

pub data Connection (Json Seconds : Type 0) : Type 0 where
  idle closing : Connection Json Seconds
  synchronizing : IpVersion → Connection Json Seconds
  active : IpVersion → List (RisMessage Json Seconds) → Connection Json Seconds

pub data StateName : Type 0 where
  idle_name synchronizing_name active_name closing_name : StateName

module _ {Json Seconds : Type 0} where
  unfoldable pub state_name : Connection Json Seconds → StateName
  state_name idle = idle_name
  state_name (synchronizing v) = synchronizing_name
  state_name (active v seen) = active_name
  state_name closing = closing_name

  -- `IdleState::advance`: an error and every other message is passed over.
  unfoldable pub advance_idle : Received → Connection Json Seconds
  advance_idle closed = closing
  advance_idle failed = idle
  advance_idle (message (subscribe_request v)) = synchronizing v
  advance_idle (message (trie_snapshot v tree)) = idle
  advance_idle (message (thin_bgp_update u)) = idle
  advance_idle (message (thin_bgp_update_frame us)) = idle

  -- `SynchronizingState::advance`: a send that fails panics.
  unfoldable pub advance_synchronizing :
      (sent : Bool)
      → RouteTable Json Seconds
      → IpVersion
      → Outcome (List Slash0Message × Connection Json Seconds)
  advance_synchronizing sent table v =
      let (thick_tree, message_stream) = subscribe v table in
      assert sent
      >> done (trie_snapshot v (from_thick_tree thick_tree) ∷ [], active v message_stream)

  -- `ActiveState::advance` where the socket gives something.
  unfoldable pub advance_active :
      Received → IpVersion → List (RisMessage Json Seconds) → Connection Json Seconds
  advance_active closed v seen = closing
  advance_active failed v seen = closing
  advance_active (message (subscribe_request w)) v seen =
      if not (version_eq v w) then synchronizing w else active v seen
  advance_active (message (trie_snapshot w tree)) v seen = active v seen
  advance_active (message (thin_bgp_update u)) v seen = active v seen
  advance_active (message (thin_bgp_update_frame us)) v seen = active v seen

  -- `iter().flatten()`: the messages without the errors of a receiver that lags.
  abbrev pub received_of : List (Option (RisMessage Json Seconds)) → List (RisMessage Json Seconds)
  received_of [] = []
  received_of (none ∷ rest) = received_of rest
  received_of (some m ∷ rest) = m ∷ received_of rest

  module _ (parse_ip : Text → Option IpAddr) (parse_len : Text → Option ℕ)
      (from_sec : Seconds → Timestamp) where
    -- `ris_message_to_slash0_messages`, flattened.
    unfoldable pub message_updates :
        IpVersion → RisMessage Json Seconds → Outcome (List ThinBgpUpdate)
    message_updates v m = elim m.body [
      | update u ↦ to_thin_updates parse_ip parse_len (from_sec m.timestamp) v u
      | _ ↦ done []
    ]

    unfoldable pub chunk_updates :
        IpVersion → List (RisMessage Json Seconds) → Outcome (List ThinBgpUpdate)
    chunk_updates v [] = done []
    chunk_updates v (m ∷ rest) = do
      updates ← message_updates v m
      others ← chunk_updates v rest
      done (updates ++ others)

    -- `ris_chunk_to_slash0_framed_msg`.
    unfoldable pub framed : IpVersion → List (RisMessage Json Seconds) → Outcome Slash0Message
    framed v chunk = chunk_updates v chunk >>= λ updates. done (thin_bgp_update_frame updates)

    -- `ActiveState::advance` where the broadcast gives a chunk.
    unfoldable pub advance_chunk :
        (sent : Bool)
        → List (Option (RisMessage Json Seconds))
        → IpVersion
        → List (RisMessage Json Seconds)
        → Outcome (List Slash0Message × Connection Json Seconds)
    advance_chunk sent chunk v seen = do
      msg ← framed v (received_of chunk)
      done (if sent then (msg ∷ [], active v seen) else ([], closing))
