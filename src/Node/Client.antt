-- ===== src/Node/Client.antt =====
-- `RaftNode::handle_client_request` and `RaftNode::propose_command` of
-- mini-raft/raft-rust/src/node.rs.
pub mod Laws
use distributed_sys_lab.Prelude.{
  ℕ, String, true, false, Option, none, some, List, [], ◌∷◌, ◌<+◌, Outcome, ok, ◌>>=◌, add_u64,
}
use distributed_sys_lab.Protocol.{
  NodeState, leader, LogEntry, AppendEntriesArgs, ClientRequestArgs, ClientRequestReply, SideEffect,
  broadcast_append_entries,
}
use distributed_sys_lab.Node.{
  RaftNode, build_log_event, last_index_or_zero, build_append_entries_args,
}
use distributed_sys_lab.Node.Messages

abbrev pub Proposal : Type 0
Proposal = RaftNode × Option (ℕ × ℕ) × List SideEffect

unfoldable pub broadcast_effects : Option AppendEntriesArgs → List SideEffect → List SideEffect
broadcast_effects none side_effects = side_effects
broadcast_effects (some args) side_effects = side_effects <+ broadcast_append_entries args

-- The leader's branch, at the index of the new entry.
unfoldable pub append_command : RaftNode → String → ℕ → Proposal
unfolding broadcast_effects
append_command n command new_index =
    let entry : LogEntry = record { term = n.current_term; index = new_index; command = command } in
    let n' = record n { log = n.log <+ entry } in
    (
      n',
      some (new_index, n.current_term),
      broadcast_effects (build_append_entries_args n' new_index)
          (build_log_event n' (Messages.proposed_command command new_index) ∷ []),
    )

unfoldable pub propose_at : NodeState → RaftNode → String → Outcome Proposal
unfolding append_command
propose_at (leader _ _) n command =
    add_u64 (last_index_or_zero n.log) 1 >>= λ new_index. ok (append_command n command new_index)
propose_at _ n command =
    ok (n, none, build_log_event n "Rejected command proposal: Not the leader" ∷ [])

unfoldable pub propose_command : RaftNode → String → Outcome Proposal
unfolding propose_at
propose_command n command = propose_at n.state n command

unfoldable pub client_reply : RaftNode → Option (ℕ × ℕ) → ClientRequestReply
client_reply n (some (index, _)) = record {
  success = true;
  leader_id = some n.id;
  response = Messages.command_accepted index;
}
client_reply n none = record {
  success = false;
  leader_id = n.leader_id;
  response = "Not the leader. Please redirect to the current leader.";
}

unfoldable pub handle_client_request :
    RaftNode → ClientRequestArgs → Outcome (RaftNode × ClientRequestReply × List SideEffect)
unfolding client_reply
handle_client_request n args =
    propose_command n args.command >>= λ p. ok (p.0, client_reply p.0 p.1, p.2)
