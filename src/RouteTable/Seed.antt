-- ===== src/RouteTable/Seed.antt =====
-- `add_routes_from` of crates/server/src/route_table.rs: the routes of an MRT dump, each prefix with
-- the latest of its times, go into the two tries, and the tries are swept. The parser of the dump is
-- third-party code: its announced routes are the argument. A `HashMap` is the list of its pairs,
-- and `order` the order in which it is iterated.
pub mod Latest
pub mod Collect
pub mod Filled
pub mod Keys
pub mod Seeded
use slash.Base.{ℕ, List, [], ◌∷◌, if◌then◌else◌}
use slash.Base.Outcome.{Outcome, done, ◌>>=◌}
use slash.Timestamp.{Timestamp, ts_lt}
use slash.Address.{from_u32, from_u128}
use slash.Prefix
use slash.Prefix.{IpVersion, v4, v6, Prefix, prefix_eq}
use slash.Prefix.Cidr.{IpAddr, ip_v4, ip_v6}
use slash.RouteTable.{RouteTable, bulk_insert_routes, sweep}

abbrev pub Routes : Type 0
Routes = List (Prefix × Timestamp)

-- `Ord::max`: the second where the two are equal.
abbrev pub later : Timestamp → Timestamp → Timestamp
later a b = if ts_lt b a then a else b

-- `entry(prefix).or_insert(ts)`, and the later of the two.
unfoldable pub upsert : Prefix → Timestamp → Routes → Routes
upsert p ts [] = (p, later ts ts) ∷ []
upsert p ts ((q, t) ∷ rest) =
    if prefix_eq q p then (q, later t ts) ∷ rest else (q, t) ∷ upsert p ts rest

-- A route of the dump: its network address, the length, and the time.
pub record MrtRoute (Seconds : Type 0) : Type 0 where
  pub network : IpAddr
  pub prefix_len : ℕ
  pub timestamp : Seconds

-- A route goes into the map of its family.
abbrev pub add_route : IpVersion × Prefix × Timestamp → Routes × Routes → Routes × Routes
add_route (v4, p, ts) (a, b) = (upsert p ts a, b)
add_route (v6, p, ts) (a, b) = (a, upsert p ts b)

module _ {Seconds : Type 0} (from_sec : Seconds → Timestamp) where
  -- The family, the prefix and the time of a route.
  unfoldable pub route_of : MrtRoute Seconds → Outcome (IpVersion × Prefix × Timestamp)
  route_of r = elim r.network [
    | ip_v4 bits ↦
        Prefix.from_address (from_u32 bits) r.prefix_len >>= λ p. done (v4, p, from_sec r.timestamp)
    | ip_v6 bits ↦ Prefix.from_address (from_u128 bits) r.prefix_len >>= λ p.
        done (v6, p, from_sec r.timestamp)
  ]

  unfoldable pub collect : List (MrtRoute Seconds) → Routes × Routes → Outcome (Routes × Routes)
  collect [] maps = done maps
  collect (r ∷ rest) maps = route_of r >>= λ route. collect rest (add_route route maps)

  unfoldable pub add_routes_from :
      {Json S : Type 0} (order : Routes → Routes)
      → List (MrtRoute Seconds)
      → RouteTable Json S
      → Outcome (RouteTable Json S)
  add_routes_from order routes t = collect routes ([], []) >>= λ maps.
      bulk_insert_routes v4 (order maps.0) t >>= λ t1.
      bulk_insert_routes v6 (order maps.1) t1 >>= λ t2. sweep t2
