-- ===== src/Tests/Leading.antt =====
-- A leader at concrete requests and replies.
use distributed_sys_lab.Prelude.{
  ◌≤◌, ◌≡◌, ◌≢◌, ◌⊎◌, refl, true, false, List, [], ◌∷◌, ◌<+◌, some, none, ok, arith, insert,
  contains, Distinct,
}
use distributed_sys_lab.Protocol.{
  ClientRequestArgs, ClientRequestReply, AppendEntriesReply, SideEffect,
}
use distributed_sys_lab.Node.{RaftNode}
use distributed_sys_lab.Node.Invariant.{IsValid}
use distributed_sys_lab.Node.Election.{Role, role}
use distributed_sys_lab.Node.Client.{handle_client_request}
use distributed_sys_lab.Node.Client.Laws.{handle_client_request_lem}
use distributed_sys_lab.Node.AppendReply.{handle_append_entries_reply}
use distributed_sys_lab.Node.AppendReply.Laws.{Replied, handle_append_entries_reply-Replied}
use distributed_sys_lab.Node.AppendReply.Commit.{handle_append_entries_reply-IsValid}
use distributed_sys_lab.Node.AppendReply.Quorum.{Consensus, handle_append_entries_reply-Consensus}
use distributed_sys_lab.Tests.Program.{program}
use distributed_sys_lab.Tests.Data.{entry, from_ok, node_a}

node_a-IsValid : IsValid node_a
node_a-IsValid = omega arith

abbrev request : ClientRequestArgs
request = record { command = "cmd3" }

abbrev proposed : RaftNode × ClientRequestReply × List SideEffect
proposed =
    from_ok (node_a, record { success = false; leader_id = none; response = "" }, [])
      (handle_client_request node_a request)

proposed_ok : handle_client_request node_a request ≡ ok proposed
unfolding program
proposed_ok = refl

handle_client_request_lem_example :
    IsValid proposed.0
    × (((role node_a.state ≡ Role.leader)
          × (proposed.1.success ≡ true)
          × (proposed.1.leader_id ≡ some "A")
          × (proposed.0.log ≡ node_a.log <+ entry 2 3 "cmd3"))
        ⊎ ((role node_a.state ≢ Role.leader)
            × (proposed.1.success ≡ false)
            × (proposed.1.leader_id ≡ some "A")
            × (proposed.0 ≡ node_a)))
handle_client_request_lem_example =
    handle_client_request_lem node_a request proposed node_a-IsValid proposed_ok

-- B has stored A's last entry, which is of A's term: a majority has it.
abbrev stored_by_b : AppendEntriesReply
stored_by_b = record { term = 2; success = true; match_index = 2 }

abbrev committed : RaftNode × List SideEffect
committed = from_ok (node_a, []) (handle_append_entries_reply node_a "B" stored_by_b)

committed_ok : handle_append_entries_reply node_a "B" stored_by_b ≡ ok committed
unfolding program
committed_ok = refl

committed_to : (committed.0.committed_index ≡ 2) × (committed.0.last_applied ≡ 2)
unfolding program
committed_to = (refl, refl)

handle_append_entries_reply-Replied_example : Replied node_a "B" stored_by_b committed.0
handle_append_entries_reply-Replied_example =
    handle_append_entries_reply-Replied node_a "B" stored_by_b committed committed_ok

handle_append_entries_reply-IsValid_example :
    IsValid committed.0 × (committed.0.log ≡ node_a.log) × (1 ≤ committed.0.committed_index)
handle_append_entries_reply-IsValid_example =
    handle_append_entries_reply-IsValid node_a "B" stored_by_b committed node_a-IsValid committed_ok

b_is_peer : contains node_a.peers "B" ≡ true
unfolding program
b_is_peer = refl

peers-Distinct : Distinct node_a.peers
unfolding program
peers-Distinct = (refl, (refl, tt))

handle_append_entries_reply-Consensus_example :
    Consensus node_a (insert "B" 2 (("B", 1) ∷ ("C", 0) ∷ [])) committed.0
handle_append_entries_reply-Consensus_example =
    handle_append_entries_reply-Consensus node_a "B" stored_by_b committed
      (("B", 2) ∷ ("C", 2) ∷ []) (("B", 1) ∷ ("C", 0) ∷ []) refl peers-Distinct refl b_is_peer
      committed_ok (omega (arith, committed_to.0))
