-- ===== src/Lib.antt =====
-- Verification of slash0: the routing trie of crates/core and what it stands on.
--
-- slash0 keeps the announced routes of the internet in a path-compressed radix trie. The server
-- applies BGP updates to it, and sends the trie to a browser, which draws it with a shader. The trie
-- stores its nodes in a slab, addressed by an index. The files follow the parts:
-- + Base, Base/Tests, Base/Lists, Base/Outcome: shared names and list lemmas, and the results of
--   code that can panic. `Outcome` is `done`, `panic` or `out_of_fuel`.
-- + Word: words of 32 bits as native numbers, with wrap-around and shifts written out.
-- + Address, Prefix: crates/core/src/prefix.rs. An address is four words; `address_bit` is the
--   bit at a position, and the theorems about prefixes speak of bits alone. Prefix/Cidr is
--   `parse_cidr`.
-- + Timestamp, Node: crates/core/src/timestamp.rs, node.rs, thin.rs and thick.rs.
-- + Slab: `VecSlab` of crates/core/src/slab.rs. `IsLive` holds of the indices that are handed
--   out.
-- + Hilbert: crates/core/src/hilbert.rs, by steps for each level of the curve. Hilbert/Digits and
--   Hilbert/Index are its bit operations on digits, Hilbert/Curve is the curve apart from the
--   code, Hilbert/Steps a level of each loop, Hilbert/Laws the two maps, Hilbert/Cells prefixes
--   as squares; Hilbert/Neighbours and Hilbert/Numbers are the curve on numbers.
-- + Tree: crates/core/src/tree.rs. Tree itself is the read side; Tree/Monad is the state that the
--   writers pass along, the tree and the log of the callback `dirty`; Tree/Insert, Tree/Withdraw
--   and Tree/Sweep are the writers. Tree/Trie is the inductive trie that a slab stands for, and
--   `Represents` the invariant that ties the two. Tree/Trie/Insert is insertion on that trie as a
--   relation, Tree/Trie/Withdraw withdrawal, Tree/Trie/Sweep what a sweep leaves. Tree/Ready is
--   room for updates to come, Tree/Exact that no entry of the slab is lost. Tree/Trie/Timed is
--   the order of the times on the way up. Tree/Thin is about the browser's copy of a tree.
-- + Messages: crates/ris_client/src/messages.rs and the updates of crates/core/src/wire.rs.
--   Messages/Listed is which texts a message lists for which kind of change, apart from the code,
--   Messages/Listed is which texts a message lists for which kind of change, apart from the code,
--   Messages/Replay what a list of updates does to a set of prefixes, and Messages/Subscription
--   what a client of RIS Live sends.
-- + RouteTable: crates/server/src/route_table.rs, the two tries of the server as one state; its
--   receive loop is RouteTable/Ingest, what it takes from a dump RouteTable/Seed, and its change
--   of a trie by a list of updates RouteTable/Changes. RouteTable/Steps has the steps that the
--   locks make atomic, RouteTable/Metrics the gauges.
-- + RisStream: crates/ris_client/src/stream.rs, the task that relays RIS Live, with its counters,
--   which wrap at 64 bits; RisStream/Shutdown is about the signal that ends it, RisStream/Mock is
--   mock_event_source.rs beside it, and RisStream/Same sets the two side by side.
-- + Config: crates/server/src/config.rs, with Figment and the file system as parameters.
-- + Tree/Dirty: what the writers report. `Tracks` is a triple for a step, with a rule for each of
--   them, and `Logged` what holds of a whole mutation.
-- + Wire: the messages of crates/core/src/wire.rs and the uniforms of
--   crates/core/src/uniforms.rs.
-- + Connection: crates/server/src/connection.rs, the server's side of a websocket as a state
--   machine. Each state has a function for a round of its loop; Connection/Runs has the step
--   relation and the runs, Connection/Order is about what a run sends, and Connection/Arrows about
--   the moves. Connection/Applied sets what is sent of a message beside what the server does for
--   it.
-- + Client: crates/client/src. Client/Render is what render.rs writes to the GPU, with WebGPU as
--   an interface of operations and laws; Client/Session is the state machine of lib.rs, with its
--   updates in Session/Updates, its reachable states in Session/Reach, its frames in
--   Session/Frames, and the browser's tree under a list of updates in Session/Follows, and beside
--   the server's, for a stream of messages, in Session/Stream; Session/Aligned is a subscription
--   at any place between the locks.
-- + Shader: crates/shader/src, the fragment shader over a reader of the slab.
-- + Examples: concrete trees and slabs, a buffer, a browser and a connection, and the theorems at
--   them.
--
-- A walk down the trie runs on fuel of 130 steps. Each step reaches a longer prefix and no prefix has
-- more than 128 bits, so that is enough for every well-formed trie (`IsEnough` of Tree/Trie).
--
-- The parts meet as follows. The server applies a message to its table (RouteTable) and then
-- broadcasts it; a connection sends the thin copy of a trie and after it frames of thin updates
-- (Connection). The client applies an update to its tree, which reports the changed indices
-- (Tree/Dirty), queues them, and writes them to the GPU before a frame (Client/Render); the shader
-- walks the buffer as `lookup` walks the tree (Shader).
--
-- Not modelled: timestamps from floating-point seconds, debug output, serde and postcard, the
-- set-up of WebGPU and of the canvas, colours, which are floating point, the vertex shader, the
-- HTTP server, TLS, the command line tools, the connection to RIS Live and logging.
pub mod Base
pub mod Word
pub mod Address
pub mod Prefix
pub mod Timestamp
pub mod Node
pub mod Slab
pub mod Hilbert
pub mod Tree
pub mod Messages
pub mod RouteTable
pub mod Examples
pub mod Wire
pub mod Shader
pub mod Client
pub mod Connection
pub mod Config
pub mod RisStream
