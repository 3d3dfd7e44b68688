-- ===== src/Wire.antt =====
-- `Slash0Message` of crates/core/src/wire.rs and `RenderUniforms` of crates/core/src/uniforms.rs:
-- what goes between the server and the browser, and what goes to the shader with every frame. How
-- serde writes a message is not modelled.
use slash.Base.{ℕ, Option, List}
use slash.Timestamp.{Timestamp}
use slash.Prefix.{IpVersion}
use slash.Node.{ThinData}
use slash.Tree.{RadixTree}
use slash.Messages.{ThinBgpUpdate}

pub data Slash0Message : Type 0 where
  subscribe_request : IpVersion → Slash0Message
  trie_snapshot : IpVersion → RadixTree ThinData → Slash0Message
  thin_bgp_update : ThinBgpUpdate → Slash0Message
  thin_bgp_update_frame : List ThinBgpUpdate → Slash0Message

pub record RenderUniforms : Type 0 where
  pub root : Option ℕ
  pub now : Timestamp

-- What a receive comes to: a message, the end of the stream, or an error.
pub data Received : Type 0 where
  message : Slash0Message → Received
  closed failed : Received
