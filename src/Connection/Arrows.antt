-- ===== src/Connection/Arrows.antt =====
-- The transitions that a connection takes.
use slash.Base.{ℕ, ◌≡◌, Option, List}
use slash.Base.Outcome.{Outcome}
use slash.Timestamp.{Timestamp}
use slash.Prefix.{IpVersion}
use slash.Prefix.Cidr.{Text, IpAddr}
use slash.Messages.{RisMessage}
use slash.Wire.{Slash0Message}
use slash.RouteTable.{RouteTable}
use slash.Connection.{Connection, idle, closing, synchronizing, active}
use slash.Connection.Runs.{Source, Step}

module _ (Json Seconds : Type 0) where
  -- The moves of a connection: the arrows of the diagram, and a round that changes nothing. A
  -- connection synchronizes anew only for the other family.
  pub data Arrow : Connection Json Seconds → Connection Json Seconds → Type 0 where
    waits : Arrow idle idle
    subscribes : (v : IpVersion) → Arrow idle (synchronizing v)
    idle_ends : Arrow idle closing
    synchronizes :
        (v : IpVersion) (seen : List (RisMessage Json Seconds))
        → Arrow (synchronizing v) (active v seen)
    serves :
        (v : IpVersion) (seen : List (RisMessage Json Seconds))
        → Arrow (active v seen) (active v seen)
    resubscribes :
        (v w : IpVersion) (seen : List (RisMessage Json Seconds))
        → ¬ (v ≡ w)
        → Arrow (active v seen) (synchronizing w)
    active_ends :
        (v : IpVersion) (seen : List (RisMessage Json Seconds)) → Arrow (active v seen) closing

module _ (Json : Type 0) {Seconds : Type 0} (parse_ip : Text → Option IpAddr)
    (parse_len : Text → Option ℕ) (from_sec : Seconds → Timestamp) where
  -- Some step goes from one state to the other.
  abbrev pub IsMove : Connection Json Seconds → Connection Json Seconds → Type 0
  IsMove c c' =
      (out : List Slash0Message) × (from : List (Source Json Seconds)) × Step Json parse_ip
        parse_len from_sec c out from c'
