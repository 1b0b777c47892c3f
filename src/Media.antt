-- ===== src/Media.antt =====
-- internal/media: what passes between the audio engine and the peers of a room.
pub mod Flow
mod Tests
