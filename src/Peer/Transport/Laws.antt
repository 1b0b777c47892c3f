-- ===== src/Peer/Transport/Laws.antt =====
-- What holds of the reliable transport, by theme.
pub mod Limits
pub mod Accounts
pub mod Fragments
pub mod Sends
pub mod Keys
pub mod Inert
pub mod Soundness
pub mod Queued
pub mod Committed
pub mod Trace
pub mod Reassembly
pub mod Stored
pub mod Counts
