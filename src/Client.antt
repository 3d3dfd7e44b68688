-- ===== src/Client.antt =====
-- crates/client/src: the browser's side.
pub mod Render
pub mod Session
