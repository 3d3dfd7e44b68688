-- ===== src/Connection/Runs.antt =====
-- The runs of a connection: the steps of `Connection::run`, one for each round of the loop of a
-- state, with what they send and take.
use slash.Base.{ℕ, ◌≡◌, Bool, Option, List, [], ◌∷◌, ◌++◌, if◌then◌else◌}
use slash.Base.Outcome.{done}
use slash.Timestamp.{Timestamp}
use slash.Prefix.{IpVersion}
use slash.Prefix.Cidr.{Text, IpAddr}
use slash.Messages.{RisMessage}
use slash.Wire.{Slash0Message, Received}
use slash.RouteTable.{RouteTable}
use slash.Connection.{
  Connection, idle, synchronizing, active, advance_idle, advance_synchronizing, advance_active,
  advance_chunk,
}

module _ (Json Seconds : Type 0) where
  -- What a round takes: what the socket gave, the table that was subscribed to, or a chunk of the
  -- broadcast that was sent on.
  pub data Source : Type 0 where
    got : Received → Source
    subscribed_to : RouteTable Json Seconds → Source
    chunk_of : List (Option (RisMessage Json Seconds)) → Source

module _ (Json : Type 0) {Seconds : Type 0} (parse_ip : Text → Option IpAddr)
    (parse_len : Text → Option ℕ) (from_sec : Seconds → Timestamp) where
  -- A round of `run`, with what it sends and what it takes.
  pub data Step
      : Connection Json Seconds
        → List Slash0Message
        → List (Source Json Seconds)
        → Connection Json Seconds
        → Type 0 where
    on_idle : (r : Received) → Step idle [] (got r ∷ []) (advance_idle r)
    on_snapshot :
        (sent : Bool) (table : RouteTable Json Seconds) (v : IpVersion) {out : List Slash0Message}
        {c : Connection Json Seconds}
        → advance_synchronizing sent table v ≡ done (out, c)
        → Step (synchronizing v) out (subscribed_to table ∷ []) c
    on_active :
        (r : Received) (v : IpVersion) (seen : List (RisMessage Json Seconds))
        → Step (active v seen) [] (got r ∷ []) (advance_active r v seen)
    on_chunk :
        (sent : Bool) (chunk : List (Option (RisMessage Json Seconds))) (v : IpVersion)
        (seen : List (RisMessage Json Seconds)) {out : List Slash0Message}
        {c : Connection Json Seconds}
        → advance_chunk parse_ip parse_len from_sec sent chunk v seen ≡ done (out, c)
        → Step (active v seen) out (if sent then chunk_of chunk ∷ [] else []) c

  -- A run from the start, with all that it sent and took, the last first.
  pub data Run
      : List Slash0Message → List (Source Json Seconds) → Connection Json Seconds → Type 0 where
    starts : Run [] [] idle
    goes_on :
        {log out : List Slash0Message} {made from : List (Source Json Seconds)}
        {c c' : Connection Json Seconds}
        → Run log made c
        → Step c out from c'
        → Run (out ++ log) (from ++ made) c'
