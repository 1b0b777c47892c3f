-- ===== src/Protocol.antt =====
-- The protocol package: the packets on the wire, sealed by an AEAD or a MAC that the caller brings.
pub mod Aead
pub mod Wire
pub mod Sealed
pub mod Control
pub mod Reliable
pub mod Bridge
pub mod RoomDatagram
pub mod Hello
mod Tests
