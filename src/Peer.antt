-- ===== src/Peer.antt =====
-- The peer package: replay windows and the reliable transport of a session.
pub mod Window
pub mod Transport
mod Tests
