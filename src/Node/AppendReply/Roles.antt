-- ===== src/Node/AppendReply/Roles.antt =====
-- A reply to `AppendEntries` and the role, the voter's fields and the log of its receiver (mini-raft/raft-rust/src/node.rs).
use mathlib.Core.Path.{subst}
use distributed_sys_lab.Prelude.{ℕ, ◌≡◌, ◌∙◌, refl, sym, ap, String, List, ok, insert, values}
use distributed_sys_lab.Protocol.{AppendEntriesReply}
use distributed_sys_lab.Node.{RaftNode}
use distributed_sys_lab.Node.StepDown.{adopted-stepped}
use distributed_sys_lab.Node.Voter.{SameVoter, SameVoter-refl}
use distributed_sys_lab.Node.Election.{role, Quiet, Quiet-refl, SameVoter-Quiet, stepped-Quiet}
use distributed_sys_lab.Node.AppendReply.{handle_append_entries_reply}
use distributed_sys_lab.Node.AppendReply.Laws.{
  ReplyResult, Commits, keeps, raises, Checks, none_known, considers, recorded, Replied, newer,
  ignored, failed, succeeded, handle_append_entries_reply-Replied,
}

-- Neither the voter's fields nor the role nor the log move.
record Steady (n n' : RaftNode) : Type 0 where
  same : SameVoter n n'
  role_same : role n'.state ≡ role n.state
  log : n'.log ≡ n.log

Steady-refl : (n : RaftNode) → Steady n n
Steady-refl n = record { same = SameVoter-refl n; role_same = refl; log = refl }

Commits-Steady : (n : RaftNode) (p : ℕ) (n' : RaftNode) → Commits n p n' → Steady n n'
Commits-Steady n p n' (keeps _ e) = subst (Steady n) (sym e) (Steady-refl n)
Commits-Steady n p n' (raises _ e) = subst (Steady n) (sym e) (record {
  same = record { id = refl; peers = refl; term = refl; vote = refl };
  role_same = refl;
  log = refl;
})

Checks-Steady : (n : RaftNode) (ms : List ℕ) (n' : RaftNode) → Checks n ms n' → Steady n n'
Checks-Steady n ms n' (none_known _ e) = subst (Steady n) (sym e) (Steady-refl n)
Checks-Steady n ms n' (considers p _ c) = Commits-Steady n p n' c

Replied-Quiet :
    (n : RaftNode) (from : String) (reply : AppendEntriesReply) (n' : RaftNode)
    → Replied n from reply n'
    → Quiet n n'
Replied-Quiet n from reply n' (newer up e) =
    subst (Quiet n) (sym (e ∙ adopted-stepped n reply.term up)) (stepped-Quiet n reply.term)
Replied-Quiet n from reply n' (ignored _ e) = subst (Quiet n) (sym e) (Quiet-refl n)
Replied-Quiet n from reply n' (failed _ _ _ s _ e) = subst (Quiet n) (sym e) (
    SameVoter-Quiet (record { id = refl; peers = refl; term = refl; vote = refl })
      (sym (ap role s)))
Replied-Quiet n from reply n' (succeeded next match _ s _ c) =
    let t =
      Checks-Steady (recorded n next match from reply.match_index)
        (values (insert from reply.match_index match)) n' c in
    SameVoter-Quiet
      (record { id = t.same.id; peers = t.same.peers; term = t.same.term; vote = t.same.vote })
      (t.role_same ∙ sym (ap role s))

pub handle_append_entries_reply-Quiet :
    (n : RaftNode) (from : String) (reply : AppendEntriesReply) (r : ReplyResult)
    → handle_append_entries_reply n from reply ≡ ok r
    → Quiet n r.0
handle_append_entries_reply-Quiet n from reply r h =
    Replied-Quiet n from reply r.0 (handle_append_entries_reply-Replied n from reply r h)

Replied-log :
    (n : RaftNode) (from : String) (reply : AppendEntriesReply) (n' : RaftNode)
    → Replied n from reply n'
    → n'.log ≡ n.log
Replied-log n from reply n' (newer _ e) = ap (λ (m : RaftNode). m.log) e
Replied-log n from reply n' (ignored _ e) = ap (λ (m : RaftNode). m.log) e
Replied-log n from reply n' (failed _ _ _ _ _ e) = ap (λ (m : RaftNode). m.log) e
Replied-log n from reply n' (succeeded next match _ _ _ c) =
    (Checks-Steady (recorded n next match from reply.match_index)
      (values (insert from reply.match_index match)) n' c).log

pub handle_append_entries_reply-log :
    (n : RaftNode) (from : String) (reply : AppendEntriesReply) (r : ReplyResult)
    → handle_append_entries_reply n from reply ≡ ok r
    → r.0.log ≡ n.log
handle_append_entries_reply-log n from reply r h =
    Replied-log n from reply r.0 (handle_append_entries_reply-Replied n from reply r h)
