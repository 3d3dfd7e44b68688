-- ===== src/RouteTable/Seed/Keys.antt =====
-- The maps of `add_routes_from`, entry by entry: which prefixes have one, that these are canonical,
-- and how many there are at most.
use mathlib.Core.List.Memᴰ.{Memᴰ, head, tail}
use slash.Base.{
  suc, ◌≤◌, ◌≡◌, ◌↔◌, inl, inr, refl, some, List, [], ◌∷◌, arith, length, subst, sym, ap, All,
  Bool-cases, Option-cases,
}
use slash.Base.Outcome.{done}
use slash.Timestamp.{Timestamp}
use slash.Address.{from_u32, from_u128}
use slash.Address.Agree.{from_u32-IsAddress, from_u128-IsAddress}
use slash.Prefix.{IpVersion, Prefix, prefix_eq}
use slash.Prefix.Cidr.{IpAddr, ip_v4, ip_v6}
use slash.Prefix.Cidr.Laws.{IsIp}
use slash.Prefix.Laws.{IsPrefix, prefix_eq_iff, masked-IsTruncation}
use slash.RouteTable.Seed.{Routes, MrtRoute, route_of, upsert}
use slash.RouteTable.Seed.Latest.{time_of, IsLatest}
use slash.RouteTable.Seed.Collect.{from_address-done}
use slash.RouteTable.Seed.Filled.{IsKey}

-- An entry of the map has a time, and the other way round.
key-time : (p : Prefix) (m : Routes) → IsKey p m → (t : Timestamp) × (time_of p m ≡ some t)
key-time p [] (ts, k) = elim k [ ]
key-time p ((q, t) ∷ rest) (ts, k) = elim (Bool-cases (prefix_eq q p)) [
  | inl same ↦ (t, rw same refl)
  | inr other ↦ elim k [
    | head e ↦
        let wrong = (prefix_eq_iff q p).1 (sym (ap (λ (r : Prefix × Timestamp). r.0) e)) in cc
    | tail k' ↦ rw other (key-time p rest (ts, k'))
  ]
]

time-key : (p : Prefix) (m : Routes) (t : Timestamp) → time_of p m ≡ some t → IsKey p m
time-key p [] t e = cc
time-key p ((q, u) ∷ rest) t e = elim (Bool-cases (prefix_eq q p)) [
  | inl same ↦ let here : q ≡ p = (prefix_eq_iff q p).0 same in (u, head (λ i. (sym here i, u)))
  | inr other ↦ let (ts, k) = time-key p rest t (rw other at e) in (ts, tail k)
]

pub IsLatest-IsKey :
    (T : Timestamp → Type 0) (p : Prefix) (m : Routes)
    → IsLatest T (time_of p m)
    → IsKey p m ↔ ((t : Timestamp) × T t)
IsLatest-IsKey T p m latest = (
  λ k. let (t, e) = key-time p m k in (t, (subst (IsLatest T) e latest).0),
  λ (t, h). elim (Option-cases (time_of p m)) [
    | inl e ↦ absurd (subst (IsLatest T) e latest t h)
    | inr (u, e) ↦ time-key p m u e
  ],
)

-- A route of a dump has an address of 32 or 128 bits, and at most 128 bits of it count.
abbrev pub IsMrtRoute : {Seconds : Type 0} → MrtRoute Seconds → Type 0
IsMrtRoute r = (r.prefix_len ≤ 128) × IsIp r.network

pub All-at : {A : Type 0} (P : A → Type 0) (x : A) (l : List A) → All P l → Memᴰ x l → P x
All-at P x [] all m = elim m [ ]
All-at P x (y ∷ rest) all (head e) = subst P (sym e) all.0
All-at P x (y ∷ rest) all (tail m) = All-at P x rest all.1 m

pub All-short :
    {Seconds : Type 0} (l : List (MrtRoute Seconds))
    → All IsMrtRoute l
    → All (λ r. r.prefix_len ≤ 128) l
All-short [] all = tt
All-short (r ∷ rest) all = (all.0.0, All-short rest all.1)

module _ {Seconds : Type 0} (from_sec : Seconds → Timestamp) where
  pub route_of-IsPrefix :
      (r : MrtRoute Seconds) (v : IpVersion) (p : Prefix) (ts : Timestamp)
      → IsMrtRoute r
      → route_of from_sec r ≡ done (v, p, ts)
      → IsPrefix p
  unfolding route_of
  route_of-IsPrefix r v p ts (short, ip) e = go r.network ip e
    where
      go :
          (net : IpAddr)
          → IsIp net
          → route_of from_sec (record r { network = net }) ≡ done (v, p, ts)
          → IsPrefix p
      go (ip_v4 bits) h e =
          let is =
            masked-IsTruncation (from_u32 bits) r.prefix_len (from_u32-IsAddress bits h) short in
          let e' = rw (from_address-done (from_u32 bits) r.prefix_len short) at e in
          subst IsPrefix (cc) is.valid
      go (ip_v6 bits) h e =
          let is =
            masked-IsTruncation (from_u128 bits) r.prefix_len (from_u128-IsAddress bits) short in
          let e' = rw (from_address-done (from_u128 bits) r.prefix_len short) at e in
          subst IsPrefix (cc) is.valid

pub length-upsert :
    (p : Prefix) (ts : Timestamp) (m : Routes) → length (upsert p ts m) ≤ suc (length m)
unfolding upsert
length-upsert p ts [] = omega arith
length-upsert p ts ((q, t) ∷ rest) = elim (Bool-cases (prefix_eq q p)) [
  | inl same ↦ rw same (omega arith)
  | inr other ↦ rw other (omega (arith, length-upsert p ts rest))
]
