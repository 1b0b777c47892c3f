-- ===== src/Endpoint.antt =====
-- The endpoint package: the STUN messages by which an endpoint learns its public address.
pub mod Stun
mod Tests
