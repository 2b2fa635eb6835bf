-- ===== src/Tests/Votes.antt =====
-- Elections at concrete nodes.
use distributed_sys_lab.Prelude.{◌≡◌, ◌≢◌, ◌↔◌, ◌⊎◌, refl, true, List, [], ok, arith}
use distributed_sys_lab.Protocol.{RequestVoteArgs, RequestVoteReply, SideEffect}
use distributed_sys_lab.Node.{RaftNode}
use distributed_sys_lab.Node.Election.{Role, role, Stands}
use distributed_sys_lab.Node.RequestVote.{handle_request_vote}
use distributed_sys_lab.Node.RequestVote.Laws.{VoteAnswer, Grants, handle_request_vote_lem}
use distributed_sys_lab.Node.Timeouts.{handle_election_timeout}
use distributed_sys_lab.Node.Timeouts.Laws.{handle_election_timeout_lem}
use distributed_sys_lab.Node.VoteReply.{handle_request_vote_reply}
use distributed_sys_lab.Node.VoteReply.Laws.{VoteReplied, handle_request_vote_reply_lem}
use distributed_sys_lab.Tests.Program.{program}
use distributed_sys_lab.Tests.Data.{entry, from_ok, node_b, node_c}

-- C asks B for its vote in term 2, with a shorter log than B's.
abbrev from_c : RequestVoteArgs
from_c = record { term = 2; candidate_id = "C"; last_log_index = 1; last_log_term = 1 }

handle_request_vote_lem_example :
    (r : VoteAnswer) × (handle_request_vote node_b from_c ≡ ok r)
    × ((r.1.vote_granted ≡ true) ↔ Grants node_b from_c (entry 1 2 "old_cmd2"))
handle_request_vote_lem_example = handle_request_vote_lem node_b from_c (entry 1 2 "old_cmd2") refl

handle_election_timeout_lem_example :
    (r : RaftNode × List SideEffect) × (handle_election_timeout node_b ≡ ok r)
    × (((role node_b.state ≡ Role.leader) × (r ≡ (node_b, [])))
        ⊎ ((role node_b.state ≢ Role.leader) × Stands node_b r.0))
handle_election_timeout_lem_example =
    handle_election_timeout_lem node_b (entry 1 2 "old_cmd2") refl (omega arith)

-- B votes for C, which then has two votes of three.
abbrev vote_of_b : RequestVoteReply
vote_of_b = record { term = 2; vote_granted = true }

abbrev elected : RaftNode × List SideEffect
elected = from_ok (node_c, []) (handle_request_vote_reply node_c "B" vote_of_b)

elected_role : role elected.0.state ≡ Role.leader
unfolding program
elected_role = refl

elected_ok : handle_request_vote_reply node_c "B" vote_of_b ≡ ok elected
unfolding program
elected_ok = refl

handle_request_vote_reply_lem_example : VoteReplied node_c "B" vote_of_b elected.0
handle_request_vote_reply_lem_example =
    handle_request_vote_reply_lem node_c "B" vote_of_b elected elected_ok
