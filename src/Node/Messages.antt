-- ===== src/Node/Messages.antt =====
-- The texts that `format!` builds in mini-raft/raft-rust/src/node.rs.
use Prim.Native.String.{String, ◌++◌}
use distributed_sys_lab.Prelude.{ℕ, show_u64, Bool, if◌then◌else◌}

unfoldable pub term_updated : ℕ → ℕ → String → String
term_updated old_term term old_state_str =
    "Term updated ("
    ++ show_u64 old_term
    ++ " -> "
    ++ show_u64 term
    ++ ") -> Transition: "
    ++ old_state_str
    ++ " -> Follower"

unfoldable pub rejected_old_term : String → String → ℕ → String
rejected_old_term request from term =
    "Rejected "
    ++ request
    ++ " from Node "
    ++ from
    ++ " (Term "
    ++ show_u64 term
    ++ "): Term too old"

unfoldable pub received_append_entries : String → ℕ → ℕ → String
received_append_entries leader_id term count =
    "Received AppendEntries from Node "
    ++ leader_id
    ++ " (Term "
    ++ show_u64 term
    ++ ") with "
    ++ show_u64 count
    ++ " entries"

unfoldable pub consistency_failed : ℕ → String
consistency_failed index =
    "Rejected AppendEntries: Consistency check failed at Index " ++ show_u64 index

unfoldable pub log_conflict : ℕ → String
log_conflict index = "Log conflict at Index " ++ show_u64 index ++ ": truncating log"

unfoldable pub updated_committed_index : ℕ → String
updated_committed_index index = "Updated committed_index to " ++ show_u64 index

unfoldable pub applying : ℕ → String
applying index = "Applying command at index " ++ show_u64 index

unfoldable pub sent_success : String → String
sent_success leader_id = "Sent AppendEntriesReply (Success) to Node " ++ leader_id

unfoldable pub voted_for_node : String → String
voted_for_node id = "Voted for Node " ++ id

unfoldable pub rejected_request_vote : String → Bool → String
rejected_request_vote candidate_id can_vote =
    "Rejected RequestVote from Node "
    ++ candidate_id
    ++ ": "
    ++ (if can_vote then "Log not up-to-date" else "Already voted")

unfoldable pub command_accepted : ℕ → String
command_accepted index = "Command accepted and appended at index " ++ show_u64 index

unfoldable pub proposed_command : String → ℕ → String
proposed_command command index = "Proposed command '" ++ command ++ "' at index " ++ show_u64 index

unfoldable pub election_timeout : String → ℕ → String
election_timeout old_state_str term =
    "Election Timeout -> Transition: "
    ++ old_state_str
    ++ " -> Candidate (Term "
    ++ show_u64 term
    ++ ")"

unfoldable pub received_vote : String → ℕ → String
received_vote from count =
    "Received vote from Node " ++ from ++ " (Total votes: " ++ show_u64 count ++ ")"

unfoldable pub vote_denied : String → ℕ → String
vote_denied from term = "Vote denied by Node " ++ from ++ " (Term " ++ show_u64 term ++ ")"

unfoldable pub won_election : String → String
won_election old_state_str = "Won election -> Transition: " ++ old_state_str ++ " -> Leader"

unfoldable pub received_success : String → ℕ → String
received_success from match_index =
    "Received AppendEntriesReply (Success) from Node "
    ++ from
    ++ " (match_index: "
    ++ show_u64 match_index
    ++ ")"

unfoldable pub received_failure : String → String
received_failure from = "Received AppendEntriesReply (Failure) from Node " ++ from

unfoldable pub updated_match_index : String → ℕ → String
updated_match_index from match_index =
    "Updated match_index for peer " ++ from ++ " to " ++ show_u64 match_index

unfoldable pub leader_committed : ℕ → String
leader_committed index =
    "Leader committed up to index " ++ show_u64 index ++ " (Majority Consensus)"

unfoldable pub retrying : String → ℕ → String
retrying from next_index =
    "Node " ++ from ++ " rejected AppendEntries, retrying with next_index " ++ show_u64 next_index
