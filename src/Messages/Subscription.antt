-- ===== src/Messages/Subscription.antt =====
-- What a client of RIS Live sends, in crates/ris_client/src/messages.rs, and the payloads of the
-- server's answers. How serde writes them is not modelled.
use slash.Base.{ℕ, Bool, Option, List}
use slash.Prefix.Cidr.{Text}

pub data BgpMessageType : Type 0 where
  update open_ notification keepalive ris_peer_state : BgpMessageType

pub data Require : Type 0 where
  announcements withdrawals : Require

-- A single ASN or a pattern of an AS path.
pub data PathFilter : Type 0 where
  asn : ℕ → PathFilter
  pattern_ : Text → PathFilter

pub data PrefixFilter : Type 0 where
  single : Text → PrefixFilter
  multiple : List Text → PrefixFilter

pub record SubscriptionFilters : Type 0 where
  pub host : Option Text
  pub message_type : Option BgpMessageType
  pub require : Option Require
  pub peer : Option Text
  pub path : Option PathFilter
  pub prefix : Option PrefixFilter
  pub more_specific : Option Bool
  pub less_specific : Option Bool

pub record SocketOptions : Type 0 where
  pub include_raw : Option Bool
  pub acknowledge : Option Bool

pub record RisSubscribe : Type 0 where
  pub filters : SubscriptionFilters
  pub socket_options : Option SocketOptions

pub data ClientMessage : Type 0 where
  ris_subscribe : RisSubscribe → ClientMessage
  ris_unsubscribe : SubscriptionFilters → ClientMessage
  request_rrc_list : ClientMessage
  ping : ClientMessage

pub record RisError : Type 0 where
  pub message : Text

pub record RisSubscribeOk : Type 0 where
  pub subscription : SubscriptionFilters
  pub socket_options : SocketOptions
