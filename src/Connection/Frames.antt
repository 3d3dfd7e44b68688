-- ===== src/Connection/Frames.antt =====
-- What an active connection frames: no message of a chunk makes it fail, and it does not matter how
-- the broadcast is cut into chunks.
use mathlib.Core.List.{append_assoc}
use slash.Base.{ℕ, ◌≡◌, refl, Option, some, List, [], ◌∷◌, ◌++◌, sym, ap}
use slash.Base.Outcome.{done}
use slash.Timestamp.{Timestamp}
use slash.Prefix.{IpVersion}
use slash.Prefix.Cidr.{Text, IpAddr}
use slash.Prefix.Cidr.Laws.{IsIp}
use slash.Messages.{
  RisMessage, RisMessageBody, ThinBgpUpdate, update, keepalive, open_, notification, ris_peer_state,
}
use slash.Messages.Laws.{to_thin_updates-IsFrom}
use slash.Wire.{thin_bgp_update_frame}
use slash.Connection.{message_updates, chunk_updates, framed}

module _ {Json Seconds : Type 0} (parse_ip : Text → Option IpAddr) (parse_len : Text → Option ℕ)
    (from_sec : Seconds → Timestamp) (v : IpVersion)
    (in_range : (text : Text) (ip : IpAddr) → parse_ip text ≡ some ip → IsIp ip) where
  message_updates-done :
      (m : RisMessage Json Seconds)
      → (us : List ThinBgpUpdate) × (message_updates parse_ip parse_len from_sec v m ≡ done us)
  unfolding message_updates
  message_updates-done m = of_body m.body
    where
      of_body :
          (body : RisMessageBody Json)
          → (us : List ThinBgpUpdate) × (message_updates parse_ip parse_len from_sec v
                (record m { body = body })
              ≡ done us)
      of_body (update u) =
          let (us, runs, _) =
            to_thin_updates-IsFrom parse_ip parse_len (from_sec m.timestamp) v u in_range in
          (us, runs)
      of_body keepalive = ([], refl)
      of_body (open_ o) = ([], refl)
      of_body (notification n) = ([], refl)
      of_body (ris_peer_state s) = ([], refl)

  chunk_updates-done :
      (ms : List (RisMessage Json Seconds))
      → (us : List ThinBgpUpdate) × (chunk_updates parse_ip parse_len from_sec v ms ≡ done us)
  unfolding chunk_updates
  chunk_updates-done [] = ([], refl)
  chunk_updates-done (m ∷ ms) =
      let (us, here) = message_updates-done m in
      let (vs, rest) = chunk_updates-done ms in (us ++ vs, rw (here, rest) refl)

  chunk_updates-append :
      (xs ys : List (RisMessage Json Seconds)) (vs : List ThinBgpUpdate)
      → chunk_updates parse_ip parse_len from_sec v ys ≡ done vs
      → (us : List ThinBgpUpdate) × (chunk_updates parse_ip parse_len from_sec v xs ≡ done us)
        × (chunk_updates parse_ip parse_len from_sec v (xs ++ ys) ≡ done (us ++ vs))
  unfolding chunk_updates
  chunk_updates-append [] ys vs e = ([], refl, e)
  chunk_updates-append (m ∷ xs) ys vs e =
      let (us, here) = message_updates-done m in
      let (ws, first, both) = chunk_updates-append xs ys vs e in
      (us ++ ws, rw (here, first) refl, rw (here, both) (ap done (sym (append_assoc us ws vs))))

  -- For a parser of addresses whose results have 32 or 128 bits, framing a chunk of broadcast
  -- messages returns without a panic, and the frame of two chunks in one holds the updates of the
  -- frame of the first and then those of the frame of the second.
  pub framed-append :
      (xs ys : List (RisMessage Json Seconds))
      → (us vs : List ThinBgpUpdate) × (framed parse_ip parse_len from_sec v xs
          ≡ done (thin_bgp_update_frame us))
        × (framed parse_ip parse_len from_sec v ys ≡ done (thin_bgp_update_frame vs))
        × (framed parse_ip parse_len from_sec v (xs ++ ys)
            ≡ done (thin_bgp_update_frame (us ++ vs)))
  unfolding framed
  framed-append xs ys =
      let (vs, second) = chunk_updates-done ys in
      let (us, first, both) = chunk_updates-append xs ys vs second in
      (us, vs, rw first refl, rw second refl, rw both refl)
