-- ===== src/Tests/Program.antt =====
-- The handlers, opened for evaluation.
use distributed_sys_lab.Prelude.{show_u64, lookup, insert, contains, add}
use distributed_sys_lab.Prelude.Sort.{sort}
use distributed_sys_lab.Node.{
  state_str, get_state_str, build_log_event, has_matching_prev_entry, maybe_step_down,
  last_index_or_zero, reject_append_entries, term_or_zero, build_append_entries_args,
}
use distributed_sys_lab.Node.Apply.{apply_effects, apply_loop, apply_committed}
use distributed_sys_lab.Node.AppendEntries.{
  candidate_event, recognize_leader, store_entry, store_entries, follow_commit, accept_entries,
  follow_leader, handle_append_entries,
}
use distributed_sys_lab.Node.RequestVote.{decide_vote, handle_request_vote}
use distributed_sys_lab.Node.Client.{
  broadcast_effects, append_command, propose_command, handle_client_request,
}
use distributed_sys_lab.Node.Timeouts.{
  send_effects, heartbeats, handle_heartbeat_timeout, handle_election_timeout,
}
use distributed_sys_lab.Node.VoteReply.{handle_request_vote_reply}
use distributed_sys_lab.Node.AppendReply.{majority_index, handle_append_entries_reply}
use distributed_sys_lab.Node
use distributed_sys_lab.Engine.{
  new, start, send, send_all, print, reset_election_timer, reset_heartbeat_timer, execute_effect,
  execute_effects,
}
use distributed_sys_lab.Engine.Dispatch.{answer, handle_message, handle_line}
use distributed_sys_lab.Engine.Ticks.{tick, election_tick}

-- To unfold this is to unfold what a node computes with, but for the texts of its messages.
unfoldable pub program : Unit {0}
unfolding show_u64 lookup insert contains add sort state_str get_state_str build_log_event
    has_matching_prev_entry maybe_step_down last_index_or_zero reject_append_entries term_or_zero
    build_append_entries_args apply_effects apply_loop apply_committed candidate_event
    recognize_leader store_entry store_entries follow_commit accept_entries follow_leader
    handle_append_entries decide_vote handle_request_vote broadcast_effects append_command
    propose_command handle_client_request send_effects heartbeats handle_heartbeat_timeout
    handle_election_timeout handle_request_vote_reply majority_index handle_append_entries_reply
program = tt

-- To unfold this is to unfold an engine around its node.
unfoldable pub engine : Unit {0}
unfolding program tick start new Node.new election_tick handle_line handle_message answer
    execute_effects execute_effect send_all print reset_election_timer reset_heartbeat_timer send
engine = tt
