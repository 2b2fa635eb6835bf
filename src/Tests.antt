-- ===== src/Tests.antt =====
-- The theorems at concrete nodes, and runs that follow the unit tests of
-- mini-raft/raft-rust/src/node.rs.
mod Data
mod Wire
mod Program
mod Append
mod Votes
mod Leading
mod Retry
mod Life
mod Processes
mod Campaign
mod Elections
mod Relays
mod Network
mod Replication
