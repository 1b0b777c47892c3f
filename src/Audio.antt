-- ===== src/Audio.antt =====
-- internal/audio: the queue between a device callback and the engine.
pub mod FrameQueue
mod Tests
