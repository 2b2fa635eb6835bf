-- ===== src/Lib.antt =====
-- mini-raft/raft-rust: a Raft node as a deterministic state machine.
--
-- `RaftNode` (mini-raft/raft-rust/src/node.rs) decides: each handler takes the node and a message or a
-- timeout, changes the node, and returns a reply and a list of `SideEffect`s that the engine executes.
-- The data that nodes keep and exchange is in mini-raft/raft-rust/src/protocol.rs.
--
-- Files:
--   Prelude and below: shared names; Boolean tests; lists indexed by native numbers; `Outcome`, for code
--     that may panic; `HashMap` and `HashSet` as lists; sorting; `Display` of `u64`.
--   Protocol: mini-raft/raft-rust/src/protocol.rs.
--   Node: `RaftNode`, `new` and the private helpers; Node/Messages: the texts of `format!`.
--   Node/AppendEntries, RequestVote, Client, Timeouts, VoteReply, AppendReply: the `handle_*` method of
--     that name with the stages of its body, and below each what it does; Node/Apply: the apply loop, which
--     stands twice in the source; Node/AppendReply/Quorum: when a leader commits.
--   Node/Replication, Retry: a leader and a follower together, over `build_append_entries_args`.
--   Node/Log, Invariant, Voter, Election: the shape of logs, the invariant of a node, and what an
--     election sees of a step; Node/Calm: who asks for votes; Node/Answers: who answers without a panic.
--   Node/Steps, Runs: the life of a node, any sequence of handlers; a handler that panics ends it.
--   Engine: mini-raft/raft-rust/src/main.rs: timers and the execution of effects; Engine/Dispatch: the
--     messages from the relay; Engine/Ticks: the tick loop; Engine/Life: ticks and messages in any order;
--     Engine/Panics, Progress: what panics; Engine/Heartbeats, Campaign: what a leader and a node that
--     stands send; Engine/Payloads: the payloads of all messages.
--   Relay: mini-raft/pkg/relay/relay.go: routing, and the loop over the filters, for any filters;
--     Relay/Rules: the five filters; below it what is decided, where lines go, and partitions.
--   Cluster: the processes as one state machine, in which each member ticks or handles a line that can
--     reach it; Cluster/Claims, Votes, Says, Handles, Moves, Honesty, Support: what messages say about
--     votes; Cluster/Elections: leaders; Cluster/Writes, Cluster/Logs: the logs of the members, over
--     Node/Slices (what a leader sends of its log) and Node/Matching (logs that agree up to shared
--     entries); Cluster/History: who stood for election with which log, and who won; Cluster/Network: the
--     processes with the relay between them.
--   Tests: the theorems at concrete nodes.
--
-- A method that changes `self` returns the new node. `u64` values are native numbers. Where the code adds
-- to one, `add_u64` panics past 2 ^ 64, as the debug build does that mini-raft/orchestrator.go makes;
-- `unwrap`, `expect` and an index out of bounds panic too. A panic poisons the mutex that holds the node, so
-- no state is modelled after it. The apply loop takes `committed_index - last_applied` as fuel, and is
-- proved to end with its test false. A `HashMap` is an association list in order of insertion; the only use
-- of its iteration order, the values that are sorted, does not depend on it.
--
-- The engine of a process is a record of the node, the timers, the messages given to the channel and the
-- lines printed; a message or a tick is handled under both locks, so that one follows the other. `serde_json`
-- and `rand` are the parameter `Platform`; what is relied on, that the codec reads back what it wrote and
-- that `gen_range(30..150)` is in that range, is a hypothesis where it is used.
--
-- The relay has no state but its table and its filters. A filter that draws random numbers returns itself
-- with its next generator; what it sleeps for is part of its answer, and lines wait in flight for any time.
-- `math/rand` and the JSON of the relay are parameters.
--
-- Not modelled: sockets, threads, the startup delay and the parsing of arguments (`main`), the listener of
-- the relay and the copy of its loop in mini-raft/cmd/relay, mini-raft/orchestrator.go and mini-rpc. In the
-- network a message that was sent may be given to the relay at any time and more than once, which allows
-- more than the code does.
pub mod Prelude
pub mod Protocol
pub mod Node
pub mod Engine
pub mod Relay
pub mod Cluster
mod Tests
