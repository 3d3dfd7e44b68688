-- ===== src/RouteTable/Seed/Collect.antt =====
-- The maps of `add_routes_from`: every prefix of the dump with the latest of its times.
use slash.Base.{ℕ, ◌≡◌, ◌⊎◌, refl, true, List, ◌≤◌, leb, arith}
use mathlib.Core.List.Memᴰ.{Memᴰ}
use slash.Base.Outcome.{Outcome, done}
use slash.Timestamp.{Timestamp}
use slash.Address
use slash.Address.{Address}
use slash.Prefix
use slash.Prefix.{IpVersion, v4, v6, Prefix, prefix_eq, prefix, max_prefix_len}
use slash.RouteTable.Seed.{Routes, MrtRoute, route_of}

abbrev pub select : IpVersion → Routes × Routes → Routes
select v4 maps = maps.0
select v6 maps = maps.1

abbrev Route : Type 0
Route = IpVersion × Prefix × Timestamp

abbrev And :
    Route → (IpVersion → Prefix → Timestamp → Type 0) → IpVersion → Prefix → Timestamp → Type 0
And route T v p t = (◌≡◌ {A = Route} (v, p, t) route) ⊎ T v p t

pub from_address-done :
    (a : Address) (n : ℕ) → n ≤ 128 → Prefix.from_address a n ≡ done (prefix (Address.masked a n) n)
unfolding Prefix.from_address
from_address-done a n short = let fits : leb n 128 ≡ true = ground arith in rw fits refl

module _ {Seconds : Type 0} (from_sec : Seconds → Timestamp) where
  -- `t` is the time of a route of `p`.
  abbrev pub IsTime : List (MrtRoute Seconds) → IpVersion → Prefix → Timestamp → Type 0
  IsTime routes v p t =
      (r : MrtRoute Seconds) × Memᴰ r routes × (route_of from_sec r ≡ done (v, p, t))
