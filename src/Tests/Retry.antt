-- ===== src/Tests/Retry.antt =====
-- A leader that brings a follower up to date, and one that cannot.
use distributed_sys_lab.Prelude.{
  ℕ, ◌+◌, ◌<◌, ◌≡◌, ◌≢◌, ◌↔◌, refl, true, false, [], ◌∷◌, some, ok, arith, drop, lookup, insert,
}
use distributed_sys_lab.Node.AppendEntries.Store.{Stored}
use distributed_sys_lab.Protocol.{AppendEntriesArgs, NodeState, send_append_entries}
use distributed_sys_lab.Node.{
  RaftNode, build_log_event, build_append_entries_args, has_matching_prev_entry, term_or_zero,
}
use distributed_sys_lab.Node.Messages
use distributed_sys_lab.Node.Invariant.{IsValid, IsCoherent}
use distributed_sys_lab.Node.Log.{IsLog}
use distributed_sys_lab.Node.AppendEntries.Laws.{after, reply}
use distributed_sys_lab.Node.AppendReply.{retry_index, handle_append_entries_reply}
use distributed_sys_lab.Node.Replication.{sent, build_append_entries_args-IsCoherent, replicate_lem}
use distributed_sys_lab.Node.Retry.{retry_index-lt_iff, retry_lem}
use distributed_sys_lab.Tests.Program.{program}
use distributed_sys_lab.Tests.Data.{node_a, node_b}

node_a-IsValid : IsValid node_a
node_a-IsValid = omega arith

node_b-IsLog : IsLog node_b.log
node_b-IsLog = omega arith

build_append_entries_args-IsCoherent_example :
    (build_append_entries_args node_a 2 ≡ some (sent node_a 2)) × IsCoherent (sent node_a 2)
build_append_entries_args-IsCoherent_example =
    build_append_entries_args-IsCoherent node_a 2 node_a-IsValid (omega arith)

replicate_lem_example :
    (args : AppendEntriesArgs) × (build_append_entries_args node_a 2 ≡ some args)
    × ((reply node_b args).success ≡ true)
    × Stored node_b.log (after node_b args).log 2 (drop 2 node_a.log)
    × ((reply node_b args).match_index + 1 ≡ 3)
replicate_lem_example =
    replicate_lem node_a node_b 2 _ _ node_a-IsValid node_b-IsLog (omega arith) (omega arith)
      (omega arith) refl refl refl

retry_index-lt_iff_example : (retry_index 1 3 < 3) ↔ (1 + 1 ≢ 3)
retry_index-lt_iff_example = retry_index-lt_iff 1 3 (omega arith)

-- A, elected again in term 3: it starts with B from its last index.
abbrev elected : RaftNode
elected = record node_a {
  current_term = 3;
  state = NodeState.leader (("B", 3) ∷ ("C", 3) ∷ []) (("B", 0) ∷ ("C", 0) ∷ []);
}

b_differs : has_matching_prev_entry node_b 2 (term_or_zero elected.log 2) ≡ false
unfolding program
b_differs = refl

b_next : lookup {A = ℕ} "B" (("B", 3) ∷ ("C", 3) ∷ []) ≡ some 3
unfolding program
b_next = refl

abbrev stuck : RaftNode
stuck = record elected {
  state = NodeState.leader (insert "B" 3 (("B", 3) ∷ ("C", 3) ∷ [])) (("B", 0) ∷ ("C", 0) ∷ []);
}

retry_lem_example :
    ((after node_b (sent elected 3)).log ≡ node_b.log)
    × (handle_append_entries_reply elected "B" (reply node_b (sent elected 3))
        ≡ ok (
          stuck,
          build_log_event elected (Messages.received_failure "B")
              ∷ build_log_event stuck (Messages.retrying "B" 3)
              ∷ send_append_entries "B" (sent stuck 3)
              ∷ [],
        ))
    × (lookup {A = ℕ} "B" (insert "B" 3 (("B", 3) ∷ ("C", 3) ∷ [])) ≡ some 3)
retry_lem_example =
    retry_lem elected node_b "B" (("B", 3) ∷ ("C", 3) ∷ []) (("B", 0) ∷ ("C", 0) ∷ []) 3 refl b_next
      (omega arith) node_b-IsLog refl (omega arith) b_differs
