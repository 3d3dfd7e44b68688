-- ===== src/RouteTable/Seed/Seeded.antt =====
-- `add_routes_from` on a table: the prefixes of the dump are announced beside the old ones, each in
-- the trie of its family, and both tries are compressed.
use mathlib.Core.List.Memᴰ.{Memᴰ}
use slash.Base.{◌≡◌, ◌↔◌, List, length}
use slash.Timestamp.{Timestamp}
use slash.Prefix.{IpVersion, Prefix}
use slash.Tree.Trie.{Trie}
use slash.RouteTable.{RouteTable}
use slash.RouteTable.Seed.{Routes, MrtRoute}
use slash.RouteTable.Seed.Collect.{IsTime}

-- An iteration over a map gives each of its entries once.
pub record IsOrder (order : Routes → Routes) : Type 0 where
  pub entries :
      (m : Routes) (e : Prefix × Timestamp) → Memᴰ {A = Prefix × Timestamp} e (order m) ↔ Memᴰ e m
  pub count : (m : Routes) → length (order m) ≡ length m

module _ {Seconds : Type 0} (from_sec : Seconds → Timestamp) where
  -- There is a route of the prefix in the dump.
  abbrev pub InDump : List (MrtRoute Seconds) → IpVersion → Prefix → Type 0
  InDump routes v p = (ts : Timestamp) × IsTime from_sec routes v p ts
