-- ===== src/Node/Timeouts.antt =====
-- `RaftNode::handle_heartbeat_timeout` and `RaftNode::handle_election_timeout` of
-- mini-raft/raft-rust/src/node.rs.
pub mod Laws
use mathlib.Core.Option
use distributed_sys_lab.Prelude.{
  ℕ, String, Option, none, some, List, [], ◌∷◌, ◌<+◌, get_last?, Dict, lookup, Outcome, ok, ◌>>=◌,
  unwrap, add_u64,
}
use distributed_sys_lab.Protocol.{
  NodeState, candidate, leader, LogEntry, RequestVoteArgs, AppendEntriesArgs, SideEffect,
  reset_election_timer, reset_heartbeat_timer, broadcast_request_vote, send_append_entries,
}
use distributed_sys_lab.Node.{RaftNode, get_state_str, build_log_event, build_append_entries_args}
use distributed_sys_lab.Node.Messages

unfoldable pub send_effects : String → Option AppendEntriesArgs → List SideEffect → List SideEffect
send_effects peer none side_effects = side_effects
send_effects peer (some args) side_effects = side_effects <+ send_append_entries peer args

-- `next_indices.get(peer).copied().unwrap_or(1)`
abbrev pub next_index_of : Dict → String → ℕ
next_index_of next_indices peer = Option.get_or (lookup peer next_indices) 1

-- `for peer in &self.peers`
unfoldable pub heartbeats : RaftNode → Dict → List String → List SideEffect → List SideEffect
unfolding send_effects
heartbeats n next_indices [] side_effects = side_effects
heartbeats n next_indices (peer ∷ peers) side_effects =
    heartbeats n next_indices peers (
      send_effects peer (build_append_entries_args n (next_index_of next_indices peer))
        side_effects)

unfoldable pub heartbeat_at : NodeState → RaftNode → List SideEffect
heartbeat_at (leader next_indices _) n =
    heartbeats n next_indices n.peers
      (build_log_event n "Heartbeat Timeout -> Broadcasting heartbeats" ∷ [])
    <+ reset_heartbeat_timer
heartbeat_at _ n = []

-- The node itself is not changed.
unfoldable pub handle_heartbeat_timeout : RaftNode → List SideEffect
unfolding heartbeat_at
handle_heartbeat_timeout n = heartbeat_at n.state n

-- The node of the next term, which stands for election there, with its request for votes.
unfoldable pub stand : RaftNode → ℕ → LogEntry → RaftNode × List SideEffect
stand n term last =
    let n' = record n {
      state = candidate (n.id ∷ []);
      current_term = term;
      voted_for = some n.id;
      leader_id = none;
    } in
    let request : RequestVoteArgs = record {
      term = n'.current_term;
      candidate_id = n'.id;
      last_log_index = last.index;
      last_log_term = last.term;
    } in
    (
      n',
      build_log_event n' (Messages.election_timeout (get_state_str n) n'.current_term)
          ∷ reset_election_timer
          ∷ build_log_event n' "Broadcasting RequestVote"
          ∷ broadcast_request_vote request
          ∷ [],
    )

-- A follower or a candidate: `current_term += 1`, and the last entry of the log.
unfoldable pub start_election : RaftNode → Outcome (RaftNode × List SideEffect)
unfolding stand
start_election n =
    add_u64 n.current_term 1 >>= λ term. unwrap (get_last? n.log) >>= λ last. ok (stand n term last)

unfoldable pub election_at : NodeState → RaftNode → Outcome (RaftNode × List SideEffect)
unfolding start_election
election_at (leader _ _) n = ok (n, [])
election_at _ n = start_election n

unfoldable pub handle_election_timeout : RaftNode → Outcome (RaftNode × List SideEffect)
unfolding election_at
handle_election_timeout n = election_at n.state n
