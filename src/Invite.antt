-- ===== src/Invite.antt =====
-- internal/invite: the text of an invite.
pub mod Base58
mod Tests
