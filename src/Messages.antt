-- ===== src/Messages.antt =====
-- crates/ris_client/src/messages.rs and crates/core/src/wire.rs: the messages of RIS Live, and the
-- updates that go to the browser. Strings are texts; a floating-point time and a JSON value are
-- type parameters. How serde writes a message is not modelled.
pub mod Listed
pub mod Laws
pub mod Replay
pub mod Subscription
use slash.Base.{
  ℕ, Bool, true, false, Option, none, some, List, [], ◌∷◌, ◌++◌, ◌⊎◌, inl, inr, if◌then◌else◌, map,
}
use slash.Base.Outcome.{Outcome, done, ◌>>=◌}
use slash.Timestamp.{Timestamp}
use slash.Prefix.{IpVersion, version_eq, Prefix}
use slash.Prefix.Cidr.{Text, IpAddr, CidrParseError, parse_cidr}

pub data UpdateType : Type 0 where
  announce withdraw : UpdateType

pub record ThinBgpUpdate : Type 0 where
  pub prefix : Prefix
  pub timestamp : Timestamp
  pub update_type : UpdateType

pub data PathSegment : Type 0 where
  asn : ℕ → PathSegment
  as_set : List ℕ → PathSegment

pub record Community : Type 0 where
  pub asn : ℕ
  pub value : ℕ

pub data Origin : Type 0 where
  igp egp incomplete : Origin

pub record Announcement : Type 0 where
  pub next_hop : Text
  pub prefixes : List Text

pub record BgpUpdate : Type 0 where
  pub path : Option (List PathSegment)
  pub community : Option (List Community)
  pub origin : Option Origin
  pub med : Option ℕ
  pub aggregator : Option Text
  pub announcements : Option (List Announcement)
  pub withdrawals : Option (List Text)

pub data Direction : Type 0 where
  sent received : Direction

pub record BgpOpen (Json : Type 0) : Type 0 where
  pub direction : Direction
  pub version : ℕ
  pub asn : ℕ
  pub hold_time : ℕ
  pub router_id : Text
  pub capabilities : List (Text × Json)

pub record Notification : Type 0 where
  pub code : ℕ
  pub subcode : Option ℕ
  pub data_hex : Option Text

pub data PeerState : Type 0 where
  connected up down : PeerState

pub data RisMessageBody (Json : Type 0) : Type 0 where
  update : BgpUpdate → RisMessageBody Json
  keepalive : RisMessageBody Json
  open_ : BgpOpen Json → RisMessageBody Json
  notification : Notification → RisMessageBody Json
  ris_peer_state : PeerState → RisMessageBody Json

pub record RisMessage (Json Seconds : Type 0) : Type 0 where
  pub timestamp : Seconds
  pub peer : Text
  pub peer_asn : Text
  pub id : Text
  pub host : Text
  pub raw : Option Text
  pub body : RisMessageBody Json

-- `iter().flatten()` of an optional list.
abbrev pub flatten : {A : Type 0} → Option (List A) → List A
flatten none = []
flatten (some xs) = xs

-- The texts that an update announces.
abbrev pub announced_texts : List Announcement → List Text
announced_texts [] = []
announced_texts (a ∷ rest) = a.prefixes ++ announced_texts rest

-- The texts of an update with what happens to them, in order.
abbrev pub tagged : BgpUpdate → List (Text × UpdateType)
tagged u =
    map (λ cidr. (cidr, announce)) (announced_texts (flatten u.announcements))
    ++ map (λ cidr. (cidr, withdraw)) (flatten u.withdrawals)

module _ (parse_ip : Text → Option IpAddr) (parse_len : Text → Option ℕ) (ts : Timestamp)
    (ip_version : IpVersion) where
  -- What one parsed text gives: nothing on an error or for the other family.
  abbrev pub thin_update : UpdateType → CidrParseError ⊎ IpVersion × Prefix → List ThinBgpUpdate
  thin_update kind (inl error) = []
  thin_update kind (inr (version, p)) =
      if version_eq version ip_version
      then record { prefix = p; timestamp = ts; update_type = kind } ∷ []
      else []

  unfoldable pub thin_updates : List (Text × UpdateType) → Outcome (List ThinBgpUpdate)
  thin_updates [] = done []
  thin_updates ((cidr, kind) ∷ rest) = do
    parsed ← parse_cidr parse_ip parse_len cidr
    others ← thin_updates rest
    done (thin_update kind parsed ++ others)

  unfoldable pub to_thin_updates : BgpUpdate → Outcome (List ThinBgpUpdate)
  to_thin_updates u = thin_updates (tagged u)
