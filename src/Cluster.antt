-- ===== src/Cluster.antt =====
-- A cluster of the processes of mini-raft/raft-rust/src/main.rs, behind a relay that loses, repeats, delays
-- and reorders messages.
pub mod Claims
pub mod Writes
pub mod Votes
pub mod Says
pub mod Handles
pub mod Moves
pub mod Honesty
pub mod System
pub mod Support
pub mod Elections
pub mod Logs
pub mod History
pub mod Network
