-- ===== src/Node/RequestVote.antt =====
-- `RaftNode::handle_request_vote` of mini-raft/raft-rust/src/node.rs.
pub mod Laws
pub mod Roles
use distributed_sys_lab.Prelude.{
  String, Bool, true, false, ◌&&◌, ◌||◌, Option, none, some, List, [], ◌∷◌, ltb, leb, ◌==◌, str_eq,
  if◌then◌else◌, get_last?, ◌<+◌, Outcome, ok, ◌>>=◌, unwrap,
}
use distributed_sys_lab.Protocol.{
  LogEntry, RequestVoteArgs, RequestVoteReply, SideEffect, reset_election_timer,
}
use distributed_sys_lab.Node.{RaftNode, build_log_event, maybe_step_down}
use distributed_sys_lab.Node.Messages

-- Paper 5.4.1, against the voter's last entry.
unfoldable pub is_up_to_date : RequestVoteArgs → LogEntry → Bool
is_up_to_date args last =
    ltb last.term args.last_log_term
    || (args.last_log_term == last.term && leb last.index args.last_log_index)

unfoldable pub can_vote_for : Option String → String → Bool
can_vote_for none candidate_id = true
can_vote_for (some id) candidate_id = str_eq id candidate_id

unfoldable pub decide_vote :
    RaftNode
    → RequestVoteArgs
    → LogEntry
    → List SideEffect
    → RaftNode × RequestVoteReply × List SideEffect
unfolding is_up_to_date can_vote_for
decide_vote n args last side_effects =
    let can_vote = can_vote_for n.voted_for args.candidate_id in
    if can_vote && is_up_to_date args last
    then (let n' = record n { voted_for = some args.candidate_id } in
        (
          n',
          record { term = n'.current_term; vote_granted = true },
          side_effects
              <+ reset_election_timer
              <+ build_log_event n' (Messages.voted_for_node args.candidate_id),
        ))
    else (
      n,
      record { term = n.current_term; vote_granted = false },
      side_effects <+ build_log_event n (Messages.rejected_request_vote args.candidate_id can_vote),
    )

unfoldable pub handle_request_vote :
    RaftNode → RequestVoteArgs → Outcome (RaftNode × RequestVoteReply × List SideEffect)
handle_request_vote n args =
    if ltb args.term n.current_term
    then ok (
      n,
      record { term = n.current_term; vote_granted = false },
      build_log_event n (Messages.rejected_old_term "RequestVote" args.candidate_id args.term) ∷ [],
    )
    else (let (n', side_effects, _) = maybe_step_down n args.term [] in
        unwrap (get_last? n'.log) >>= λ last. ok (decide_vote n' args last side_effects))
