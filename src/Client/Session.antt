-- ===== src/Client/Session.antt =====
-- crates/client/src/lib.rs: the client's state machine from the canvas to the steady state. What a
-- state awaits (the canvas, the websocket, the next message or animation frame) is an argument of
-- the function of that state, and `clock` gives the readings of the time, the first at 0. `postcard`
-- is a parameter. The loop of a state that goes on waiting is a step to the state itself.
pub mod Updates
pub mod Reach
pub mod Frames
pub mod Follows
pub mod Stream
pub mod Aligned
use slash.Base.{
  ℕ, zero, suc, ◌+◌, ◌^◌, ◌<◌, ◌≡◌, Bool, true, false, Option, none, some, List, [], ◌∷◌, ltb,
  if◌then◌else◌,
}
use slash.Base.Outcome.{Outcome, done, ◌>>=◌}
use slash.Timestamp.{Timestamp}
use slash.Prefix.{IpVersion, v4, version_eq, Prefix}
use slash.Node.{ThinData, thin, thin_node_data}
use slash.Tree.{RadixTree}
use slash.Tree.Monad.{M, State, pure, ◌>>◌}
use slash.Tree.Insert.{insert}
use slash.Tree.Withdraw
use slash.Tree.Sweep.{sweep_tombstones}
use slash.Messages.{ThinBgpUpdate, UpdateType, announce, withdraw}
use slash.Wire.{
  Slash0Message, subscribe_request, trie_snapshot, thin_bgp_update, thin_bgp_update_frame, Received,
  message, closed, failed,
}
use slash.Client.Render.{Gpu, RenderState, init, update, upload_slab, render}

pub data Slash0Error : Type 0 where
  canvas_initialization_error websocket_error synchronization_error : Slash0Error

-- What the websocket's stream gives: its end, an error, a text or bytes.
pub data Incoming (Bytes : Type 0) : Type 0 where
  ended broken text : Incoming Bytes
  bytes : Bytes → Incoming Bytes

unfoldable pub receive :
    {Bytes : Type 0} → (Bytes → Option Slash0Message) → Incoming Bytes → Received
receive from_bytes ended = closed
receive from_bytes broken = failed
receive from_bytes text = failed
receive from_bytes (bytes b) = elim (from_bytes b) [ some m ↦ message m | none ↦ failed ]

pub record SubscribedState (B : Type 0) : Type 0 where
  pub render_state : RenderState B
  pub ip_version : IpVersion
  pub tree : RadixTree ThinData
  pub updates_since_sweep : ℕ

pub data ClientState (B : Type 0) : Type 0 where
  initializing : ClientState B
  connecting : RenderState B → ClientState B
  connected : RenderState B → IpVersion → ClientState B
  synchronizing : RenderState B → IpVersion → ClientState B
  subscribed : SubscribedState B → ClientState B
  error : Slash0Error → ClientState B

-- What wakes the steady state.
pub data Wake : Type 0 where
  received : (clock : ℕ → Timestamp) → Received → Wake
  animation_frame : (now : Timestamp) (available : Bool) → Wake

-- The change of the tree by one update, and the sweep where it is due.
unfoldable pub apply_update : Timestamp → ThinBgpUpdate → M ThinData (Unit {0})
apply_update now u = elim u.update_type [
  | announce ↦ insert thin_node_data u.prefix (thin now) u.timestamp >> pure tt
  | withdraw ↦ Withdraw.withdraw thin_node_data u.prefix u.timestamp >> pure tt
]

abbrev pub sweep_due : ℕ → Bool
sweep_due updates_since_sweep = ltb 5000 (updates_since_sweep + 1)

unfoldable pub mutate : Timestamp → ThinBgpUpdate → Bool → M ThinData (Unit {0})
mutate now u due = apply_update now u >> (if due then sweep_tombstones else pure tt)

module _ {B : Type 0} where
  unfoldable pub handle_update :
      Timestamp → ThinBgpUpdate → SubscribedState B → Outcome (SubscribedState B)
  handle_update now u s =
      let due = sweep_due s.updates_since_sweep in
      mutate now u due (record { tree = s.tree; dirty = [] }) >>= λ (_, st). done (record s {
        tree = st.tree;
        updates_since_sweep = if due then 0 else s.updates_since_sweep + 1;
        render_state = update st.dirty s.render_state;
      })

  unfoldable pub handle_updates :
      (clock : ℕ → Timestamp)
      → ℕ
      → List ThinBgpUpdate
      → SubscribedState B
      → Outcome (SubscribedState B)
  handle_updates clock k [] s = done s
  handle_updates clock k (u ∷ rest) s =
      handle_update (clock k) u s >>= λ s'. handle_updates clock (k + 1) rest s'

  -- `InitializingState::run`, on the slab buffer of the device where the canvas was set up.
  unfoldable pub initialize : Option B → ClientState B
  initialize none = error canvas_initialization_error
  initialize (some slab_buffer) = connecting (init slab_buffer)

  -- `ConnectingState::run`.
  unfoldable pub connect : (opened : Bool) → RenderState B → ClientState B
  connect false r = error websocket_error
  connect true r = connected r v4

  -- `ConnectedState::run`: what is sent, and the next state.
  unfoldable pub request : (sent : Bool) → RenderState B → IpVersion → Slash0Message × ClientState B
  request sent r version = (
    subscribe_request version,
    if sent then synchronizing r version else error synchronization_error,
  )

  module _ (gpu : Gpu B) where
    -- A round of the loop of `SynchronizingState::run`.
    unfoldable pub synchronize : Received → RenderState B → IpVersion → ClientState B
    synchronize closed r version = connecting r
    synchronize failed r version = error websocket_error
    synchronize (message (trie_snapshot ip_version tree)) r version =
        if version_eq ip_version version
        then subscribed (record {
          render_state = upload_slab gpu tree.slab r;
          ip_version = ip_version;
          tree = tree;
          updates_since_sweep = 0;
        })
        else synchronizing r version
    synchronize (message (subscribe_request v)) r version = synchronizing r version
    synchronize (message (thin_bgp_update u)) r version = synchronizing r version
    synchronize (message (thin_bgp_update_frame us)) r version = synchronizing r version

    -- A round of the loop of `SubscribedState::run`.
    unfoldable pub steady : Wake → SubscribedState B → Outcome (ClientState B)
    steady (received clock closed) s = done (connecting s.render_state)
    steady (received clock failed) s = done (connecting s.render_state)
    steady (received clock (message (thin_bgp_update u))) s =
        handle_update (clock 0) u s >>= λ s'. done (subscribed s')
    steady (received clock (message (thin_bgp_update_frame us))) s =
        handle_updates clock 0 us s >>= λ s'. done (subscribed s')
    steady (received clock (message (subscribe_request v))) s = done (subscribed s)
    steady (received clock (message (trie_snapshot v tree))) s = done (subscribed s)
    steady (animation_frame now available) s =
        render gpu available s.tree.root now s.tree.slab s.render_state >>= λ (_, r).
        done (subscribed (record s { render_state = r }))
