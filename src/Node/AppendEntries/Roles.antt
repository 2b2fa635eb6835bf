-- ===== src/Node/AppendEntries/Roles.antt =====
-- A message from a leader decides no election (mini-raft/raft-rust/src/node.rs).
use mathlib.Core.Path.{subst}
use distributed_sys_lab.Prelude.{refl, sym, inl, inr, ltb, Bool-cases}
use distributed_sys_lab.Protocol.{AppendEntriesArgs}
use distributed_sys_lab.Node.{RaftNode, has_matching_prev_entry}
use distributed_sys_lab.Node.Voter.{stepped-Follows}
use distributed_sys_lab.Node.Election.{Quiet, Quiet-refl}
use distributed_sys_lab.Node.AppendEntries.Result.{
  committed_to, following, accepted, append_result, handle_append_entries-result,
}
use distributed_sys_lab.Node.AppendEntries.Laws.{after}

following-Quiet : (n : RaftNode) (args : AppendEntriesArgs) → Quiet n (following n args)
unfolding following
following-Quiet n args =
    let s = stepped-Follows n args.term in
    record {
      follows = record { id = s.id; peers = s.peers; term = s.term; vote = s.vote };
      stays = inl refl;
    }

accepted-Quiet :
    (n : RaftNode) (args : AppendEntriesArgs) → Quiet n (accepted (following n args) args)
unfolding following accepted committed_to
accepted-Quiet n args =
    let s = stepped-Follows n args.term in
    record {
      follows = record { id = s.id; peers = s.peers; term = s.term; vote = s.vote };
      stays = inl refl;
    }

append_result-Quiet : (n : RaftNode) (args : AppendEntriesArgs) → Quiet n (append_result n args).0
unfolding append_result
append_result-Quiet n args = elim (Bool-cases (ltb args.term n.current_term)) [
  | inl old ↦ rw old (Quiet-refl n)
  | inr new ↦
      elim (Bool-cases
        (has_matching_prev_entry (following n args) args.prev_log_index args.prev_log_term)) [
          | inl matches ↦ rw (new, matches) (accepted-Quiet n args)
          | inr differs ↦ rw (new, differs) (following-Quiet n args)
        ]
]

pub handle_append_entries-Quiet : (n : RaftNode) (args : AppendEntriesArgs) → Quiet n (after n args)
handle_append_entries-Quiet n args =
    let result = handle_append_entries-result n args in
    subst (Quiet n) (λ i. (sym result i).0) (append_result-Quiet n args)
