-- ===== src/Examples/Server.antt =====
-- A configuration that is loaded, a relay of two messages, and a table that receives one.
use slash.Base.{ℕ, ◌≡◌, ◌++◌, refl, true, false, Option, some, [], ◌∷◌, map, List}
use slash.Base.Outcome.{done}
use slash.Prefix.Cidr.{Text}
use slash.Config.{load}
use slash.Config.Laws.{IsLoaded, load-IsLoaded}
use slash.RisStream.{
  ServerMessage, ris_message, pong, text, close, Event, cancelled, record_, slept, reading, Relay,
  relay_all,
}
use slash.RisStream.Counts.{IsCounted, relay_all-IsCounted}
use slash.RisStream.Shutdown.{IsShutDown, relay_all-cancelled}
use slash.RisStream.Mock.{MockEvent, subscribe_from_file}
use slash.RisStream.Same.{broadcasts, onto, subscribe_from_file-relay_all}
use slash.RouteTable.{RouteTable, ingest, apply_message, apply_body}
use slash.RouteTable.Ingest.{Recv, arrived, lagged, ended, arrivals, run, run-arrivals}
use slash.Prefix.{Prefix}
use slash.Prefix.Cidr.{ip_v4, ip_v6}
use slash.RouteTable.Seed.{MrtRoute}
use slash.Tree.Trie.{Trie}
use slash.Examples.{ip_parser, len_parser}
use slash.Examples.Connection.{beat, news, table, from_sec}

load-IsLoaded_example :
    IsLoaded
      (λ path. true)
      (λ config path. some config)
      (some (49 ∷ []))
      (load (λ path. true) (λ config path. some config) (some (49 ∷ [])))
load-IsLoaded_example = load-IsLoaded (λ path. true) (λ config path. some config) (some (49 ∷ []))

abbrev parse : Text → Option (ServerMessage (Unit {0}) ℕ)
parse [] = some pong
parse (_ ∷ _) = some (ris_message news)

abbrev at_first : Relay (Unit {0}) ℕ
at_first = record {
  phase = reading;
  stopping = false;
  metrics = record {
    messages_total = 0;
    prefixes_announced_total = 0;
    prefixes_withdrawn_total = 0;
  };
  sent = [];
}

abbrev events : List Event
events =
    record_ (text [] true)
    ∷ record_ (text (1 ∷ []) true)
    ∷ record_ close
    ∷ slept true
    ∷ record_ (text (2 ∷ []) true)
    ∷ cancelled
    ∷ []

relay_all-IsCounted_example : IsCounted (relay_all parse events at_first)
relay_all-IsCounted_example =
    relay_all-IsCounted parse events at_first
      (record { messages = refl; announced = refl; withdrawn = refl })

abbrev received : List (Recv (Unit {0}) ℕ)
received = lagged 3 ∷ arrived beat ∷ ended ∷ arrived beat ∷ []

abbrev later_table : RouteTable (Unit {0}) ℕ
later_table = record table { updates = beat ∷ [] }

one_beat : run ip_parser len_parser from_sec received table ≡ done later_table
unfolding run ingest apply_message apply_body
one_beat = refl

run-arrivals_example :
    (run ip_parser len_parser from_sec (map arrived (arrivals received)) table ≡ done later_table)
    × (later_table.updates ≡ table.updates ++ arrivals received)
run-arrivals_example =
    run-arrivals ip_parser len_parser from_sec received table later_table one_beat

-- One prefix twice, and an IPv6 one.
abbrev dump : List (MrtRoute ℕ)
dump =
    record { network = ip_v4 167838211; prefix_len = 8; timestamp = 9 }
    ∷ record { network = ip_v4 167838211; prefix_len = 8; timestamp = 4 }
    ∷ record { network = ip_v6 1; prefix_len = 128; timestamp = 5 }
    ∷ []

-- The signal comes while the relay reads; then a text that is not read, and the end of the pause.
relay_all-cancelled_example :
    IsShutDown
      (relay_all parse (record_ (text (1 ∷ []) true) ∷ []) at_first)
      (record_ (text (1 ∷ []) true) ∷ slept true ∷ [])
      (relay_all parse
        ((record_ (text (1 ∷ []) true) ∷ [])
          ++ cancelled ∷ record_ (text (1 ∷ []) true) ∷ slept true ∷ [])
        at_first)
relay_all-cancelled_example =
    relay_all-cancelled parse (record_ (text (1 ∷ []) true) ∷ [])
      (record_ (text (1 ∷ []) true) ∷ slept true ∷ []) at_first

-- Two lines, of which the second one is a message.
abbrev lines : List Text
lines = [] ∷ (1 ∷ []) ∷ []

subscribe_from_file-relay_all_example :
    (events : List (MockEvent (Unit {0}) ℕ ℕ)) × (subscribe_from_file
        (λ a b. some 0)
        (λ m. true)
        true
        parse
        (some (map some lines))
      ≡ some events)
    × ((relay_all parse (map (λ t. record_ (text t true)) lines) at_first).sent
        ≡ onto (broadcasts events) at_first.sent)
subscribe_from_file-relay_all_example =
    subscribe_from_file-relay_all (λ a b. some 0) (λ m. true) (λ a b. (0, refl)) (λ m. refl) parse
      true lines at_first refl
