-- ===== src/Tracker.antt =====
-- internal/networking/discovery/tracker: the client of an HTTP tracker.
pub mod Bencode
mod Tests
