-- ===== src/Messages/Laws.antt =====
-- Which updates `to_thin_updates` gives.
use slash.Base.{
  ℕ, ◌≡◌, ◌⊎◌, ◌↔◌, inl, inr, refl, true, false, Option, some, List, [], ◌∷◌, ◌++◌, sym, ◌∙◌, subst,
  ap, Bool-cases,
}
use mathlib.Core.List.Memᴰ.{Memᴰ, head, tail}
use slash.Base.Outcome.{Outcome, done}
use slash.Timestamp.{Timestamp}
use slash.Prefix.{IpVersion, v4, v6, version_eq, Prefix}
use slash.Prefix.Cidr.{Text, IpAddr, CidrParseError, parse_cidr}
use slash.Prefix.Cidr.Laws.{IsIp, parse_cidr-IsParsed}
use slash.Messages.{
  UpdateType, ThinBgpUpdate, BgpUpdate, tagged, thin_update, thin_updates, to_thin_updates,
}
use slash.Messages.Listed.{IsListed, tagged_lem}

abbrev result : CidrParseError ⊎ IpVersion × Prefix → Outcome (CidrParseError ⊎ IpVersion × Prefix)
result r = done r

version_of_eq : (v w : IpVersion) → version_eq v w ≡ true → v ≡ w
version_of_eq v4 v4 h = refl
version_of_eq v6 v6 h = refl
version_of_eq v4 v6 h = cc
version_of_eq v6 v4 h = cc

version_eq_refl : (v : IpVersion) → version_eq v v ≡ true
version_eq_refl v4 = refl
version_eq_refl v6 = refl

module _ (parse_ip : Text → Option IpAddr) (parse_len : Text → Option ℕ) (ts : Timestamp)
    (ip_version : IpVersion) where
  -- The update comes from a text of the list, which parses to its prefix in the wanted family.
  abbrev IsFrom : List (Text × UpdateType) → ThinBgpUpdate → Type 0
  IsFrom texts x =
      (cidr : Text) × Memᴰ (cidr, x.update_type) texts
      × (parse_cidr parse_ip parse_len cidr ≡ done (inr (ip_version, x.prefix)))
      × (x.timestamp ≡ ts)

  later :
      (t : Text × UpdateType) (texts : List (Text × UpdateType)) (x : ThinBgpUpdate)
      → IsFrom texts x
      → IsFrom (t ∷ texts) x
  later t texts x (cidr, m, parsed, at) = (cidr, tail m, parsed, at)

  -- The updates of the first text.
  thin_update-IsFrom :
      (cidr : Text) (kind : UpdateType) (texts : List (Text × UpdateType))
      (res : CidrParseError ⊎ IpVersion × Prefix) (us : List ThinBgpUpdate)
      → parse_cidr parse_ip parse_len cidr ≡ done res
      → ((x : ThinBgpUpdate) → Memᴰ x us ↔ IsFrom texts x)
      → (x : ThinBgpUpdate)
      → Memᴰ x (thin_update parse_ip parse_len ts ip_version kind res ++ us)
        ↔ IsFrom ((cidr, kind) ∷ texts) x
  thin_update-IsFrom cidr kind texts (inl error) us e rec x =
      (λ m. later (cidr, kind) texts x ((rec x).0 m), λ h. (rec x).1 (not_first h))
    where
      not_first : IsFrom ((cidr, kind) ∷ texts) x → IsFrom texts x
      not_first (c, tail m, parsed, at) = (c, m, parsed, at)
      not_first (c, head same, parsed, at) =
          let text : c ≡ cidr = ap (λ (t : Text × UpdateType). t.0) same in
          let wrong : result (inr (ip_version, x.prefix)) ≡ result (inl error) =
            sym parsed ∙ ap (λ t. parse_cidr parse_ip parse_len t) text ∙ e in
          cc
  thin_update-IsFrom cidr kind texts (inr (version, p)) us e rec x =
      elim (Bool-cases (version_eq version ip_version)) [
        | inl same ↦ rw same (forward same, λ h. backward same h)
        | inr other ↦
            rw other
              (λ m. later (cidr, kind) texts x ((rec x).0 m), λ h. (rec x).1 (not_first other h))
      ]
    where
      found :
          (c : Text)
          → c ≡ cidr
          → parse_cidr parse_ip parse_len c ≡ done (inr (ip_version, x.prefix))
          → result (inr (ip_version, x.prefix)) ≡ result (inr (version, p))
      found c text parsed = sym parsed ∙ ap (λ t. parse_cidr parse_ip parse_len t) text ∙ e

      forward :
          version_eq version ip_version ≡ true
          → Memᴰ x (record { prefix = p; timestamp = ts; update_type = kind } ∷ us)
          → IsFrom ((cidr, kind) ∷ texts) x
      forward same (tail m) = later (cidr, kind) texts x ((rec x).0 m)
      forward same (head eq) = (
        cidr,
        head (ap (λ (u : ThinBgpUpdate). (cidr, u.update_type)) eq),
        e
            ∙ ap (λ v. result (inr (v, p))) (version_of_eq version ip_version same)
            ∙ ap (λ (u : ThinBgpUpdate). result (inr (ip_version, u.prefix))) (sym eq),
        ap (λ (u : ThinBgpUpdate). u.timestamp) eq,
      )

      backward :
          version_eq version ip_version ≡ true
          → IsFrom ((cidr, kind) ∷ texts) x
          → Memᴰ x (record { prefix = p; timestamp = ts; update_type = kind } ∷ us)
      backward same (c, tail m, parsed, at) = tail ((rec x).1 (c, m, parsed, at))
      backward same (c, head eq, parsed, at) =
          let eqs = found c (ap (λ (t : Text × UpdateType). t.0) eq) parsed in
          let same_prefix : x.prefix ≡ p = cc in
          head (λ i. record {
            prefix = same_prefix i;
            timestamp = at i;
            update_type = (ap (λ (t : Text × UpdateType). t.1) eq) i;
          })

      not_first :
          version_eq version ip_version ≡ false → IsFrom ((cidr, kind) ∷ texts) x → IsFrom texts x
      not_first other (c, tail m, parsed, at) = (c, m, parsed, at)
      not_first other (c, head eq, parsed, at) =
          let eqs = found c (ap (λ (t : Text × UpdateType). t.0) eq) parsed in
          let v : ip_version ≡ version = cc in
          let yes : version_eq version ip_version ≡ true =
            subst (λ w. version_eq version w ≡ true) (sym v) (version_eq_refl version) in
          cc

  thin_updates-IsFrom :
      (texts : List (Text × UpdateType))
      → ((text : Text) (ip : IpAddr) → parse_ip text ≡ some ip → IsIp ip)
      → (us : List ThinBgpUpdate) × (thin_updates parse_ip parse_len ts ip_version texts ≡ done us)
        × ((x : ThinBgpUpdate) → Memᴰ x us ↔ IsFrom texts x)
  unfolding thin_updates
  thin_updates-IsFrom [] in_range = ([], refl, λ x. (λ m. elim m [ ], λ h. nothing x h))
    where
      nothing : (x : ThinBgpUpdate) → IsFrom [] x → Memᴰ x []
      nothing x (c, m, parsed, at) = elim m [ ]
  thin_updates-IsFrom ((cidr, kind) ∷ texts) in_range =
      let (res, parsed, _) = parse_cidr-IsParsed parse_ip parse_len cidr in_range in
      let (us, runs, rec) = thin_updates-IsFrom texts in_range in
      (
        thin_update parse_ip parse_len ts ip_version kind res ++ us,
        rw (parsed, runs) refl,
        thin_update-IsFrom cidr kind texts res us parsed rec,
      )

  -- The update comes from a text that the message lists for its kind, which parses to its prefix
  -- in the wanted family.
  abbrev pub IsListedUpdate : BgpUpdate → ThinBgpUpdate → Type 0
  IsListedUpdate u x =
      (cidr : Text) × IsListed u x.update_type cidr
      × (parse_cidr parse_ip parse_len cidr ≡ done (inr (ip_version, x.prefix)))
      × (x.timestamp ≡ ts)

  -- For a parser of addresses whose results have 32 or 128 bits, to_thin_updates returns without a
  -- panic; it gives an announcement just of a prefix that a text of one of the announcements of the
  -- message parses to in the wanted family, and a withdrawal just of a prefix that one of its
  -- withdrawn texts parses to in that family, all with the given time.
  pub to_thin_updates-IsFrom :
      (u : BgpUpdate)
      → ((text : Text) (ip : IpAddr) → parse_ip text ≡ some ip → IsIp ip)
      → (us : List ThinBgpUpdate) × (to_thin_updates parse_ip parse_len ts ip_version u ≡ done us)
        × ((x : ThinBgpUpdate) → Memᴰ x us ↔ IsListedUpdate u x)
  unfolding to_thin_updates
  to_thin_updates-IsFrom u in_range =
      let (us, runs, from) = thin_updates-IsFrom (tagged u) in_range in
      (us, runs, λ x. (λ m. listed x ((from x).0 m), λ h. (from x).1 (unlisted x h)))
    where
      listed : (x : ThinBgpUpdate) → IsFrom (tagged u) x → IsListedUpdate u x
      listed x (cidr, m, parsed, at) = (cidr, (tagged_lem u x.update_type cidr).0 m, parsed, at)

      unlisted : (x : ThinBgpUpdate) → IsListedUpdate u x → IsFrom (tagged u) x
      unlisted x (cidr, h, parsed, at) = (cidr, (tagged_lem u x.update_type cidr).1 h, parsed, at)
