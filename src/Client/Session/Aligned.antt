-- ===== src/Client/Session/Aligned.antt =====
-- A browser that subscribes while the server ingests and sweeps: its snapshot may hold a part of the
-- message that its stream begins with.
use slash.Base.{ℕ, ◌≡◌, List, ◌++◌, Option, some}
use slash.Base.Outcome.{Outcome}
use slash.Timestamp.{Timestamp}
use slash.Prefix.{Prefix}
use slash.Prefix.Cidr.{Text, IpAddr}
use slash.Prefix.Cidr.Laws.{IsIp}
use slash.Tree.Trie.{Trie}
use slash.Messages.{ThinBgpUpdate}
use slash.Messages.Replay.{Changed}
use slash.RouteTable.{RouteTable}

module _ (Json : Type 0) {Seconds : Type 0} (parse_ip : Text → Option IpAddr)
    (parse_len : Text → Option ℕ) (from_sec : Seconds → Timestamp)
    (in_range : (text : Text) (ip : IpAddr) → parse_ip text ≡ some ip → IsIp ip) where
  -- The updates of the steps before a snapshot, and of those after, where the snapshot falls into a
  -- message: the stream from that message on begins with the last updates before.
  record Cut (us before after : List ThinBgpUpdate) : Type 0 where
    done_before : List ThinBgpUpdate
    repeated : List ThinBgpUpdate
    rest : List ThinBgpUpdate
    later : List ThinBgpUpdate
    is_before : before ≡ done_before ++ repeated
    is_after : after ≡ rest ++ later
    is_stream : us ≡ (repeated ++ rest) ++ later
