-- ===== src/Node/VoteReply.antt =====
-- `RaftNode::handle_request_vote_reply` of mini-raft/raft-rust/src/node.rs.
pub mod Laws
use distributed_sys_lab.Prelude.{
  ℕ, ◌+◌, ◌/◌, String, ◌&&◌, some, List, [], ◌∷◌, ltb, ◌==◌, if◌then◌else◌, length, get_last?, ◌<+◌,
  Dict, insert, add, Outcome, ok, ◌>>=◌, unwrap, add_u64,
}
use distributed_sys_lab.Protocol.{
  NodeState, candidate, leader, RequestVoteReply, AppendEntriesArgs, SideEffect,
  reset_heartbeat_timer, broadcast_append_entries,
}
use distributed_sys_lab.Node.{RaftNode, get_state_str, build_log_event, maybe_step_down}
use distributed_sys_lab.Node.Messages

-- The loop that fills `next_indices` and `match_indices`.
unfoldable pub init_indices : List String → ℕ → Dict → Dict → Outcome (Dict × Dict)
init_indices [] last_log_index next_indices match_indices = ok (next_indices, match_indices)
init_indices (peer ∷ peers) last_log_index next_indices match_indices =
    add_u64 last_log_index 1 >>= λ next.
    init_indices peers last_log_index (insert peer next next_indices) (insert peer 0 match_indices)

-- The branch `if won_election`.
unfoldable pub become_leader : RaftNode → List SideEffect → Outcome (RaftNode × List SideEffect)
unfolding init_indices
become_leader n side_effects = unwrap (get_last? n.log) >>= λ last.
    init_indices n.peers last.index [] [] >>= λ indices.
    let n' = record n { state = leader indices.0 indices.1; leader_id = some n.id } in
    let heartbeat_args : AppendEntriesArgs = record {
      term = n'.current_term;
      leader_id = n'.id;
      prev_log_index = last.index;
      prev_log_term = last.term;
      entries = [];
      leader_commit = n'.committed_index;
    } in
    ok (
      n',
      side_effects
          <+ build_log_event n' (Messages.won_election (get_state_str n))
          <+ broadcast_append_entries heartbeat_args
          <+ reset_heartbeat_timer,
    )

-- A vote for this candidate: count it, and win with a majority.
unfoldable pub count_vote :
    RaftNode → List String → String → List SideEffect → Outcome (RaftNode × List SideEffect)
unfolding become_leader
count_vote n votes_received from side_effects =
    let votes = add from votes_received in
    let n' = record n { state = candidate votes } in
    let effects' =
      side_effects <+ build_log_event n' (Messages.received_vote from (length votes)) in
    if ltb ((length n.peers + 1) / 2) (length votes)
    then become_leader n' effects'
    else ok (n', effects')

unfoldable pub reply_at :
    NodeState
    → RaftNode
    → String
    → RequestVoteReply
    → List SideEffect
    → Outcome (RaftNode × List SideEffect)
unfolding count_vote
reply_at (candidate votes_received) n from reply side_effects =
    if (reply.term == n.current_term) && reply.vote_granted
    then count_vote n votes_received from side_effects
    else ok (
      n,
      (if reply.vote_granted
          then side_effects
          else side_effects <+ build_log_event n (Messages.vote_denied from reply.term)),
    )
reply_at _ n from reply side_effects = ok (n, side_effects)

unfoldable pub handle_request_vote_reply :
    RaftNode → String → RequestVoteReply → Outcome (RaftNode × List SideEffect)
unfolding reply_at
handle_request_vote_reply n from reply =
    let (n', side_effects, stepped_down) = maybe_step_down n reply.term [] in
    if stepped_down then ok (n', side_effects) else reply_at n'.state n' from reply side_effects
