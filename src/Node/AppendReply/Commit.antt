-- ===== src/Node/AppendReply/Commit.antt =====
-- When a leader of mini-raft/raft-rust/src/node.rs commits, and that its invariant is kept.
use mathlib.Core.Path.{subst}
use distributed_sys_lab.Prelude.{
  ℕ, ◌≤◌, ◌≡◌, refl, sym, String, List, arith, ok, insert, values, get_elem?-lt,
}
use distributed_sys_lab.Protocol.{AppendEntriesReply}
use distributed_sys_lab.Node.{RaftNode}
use distributed_sys_lab.Node.Invariant.{IsValid}
use distributed_sys_lab.Node.AppendReply.{handle_append_entries_reply}
use distributed_sys_lab.Node.AppendReply.Laws.{
  ReplyResult, Commits, keeps, raises, Checks, none_known, considers, recorded, Replied, newer,
  ignored, failed, succeeded, handle_append_entries_reply-Replied,
}

-- The parts of the invariant that a leader's step can move: the log stays, the commit index does not
-- fall.
record Advances (n n' : RaftNode) : Type 0 where
  valid : IsValid n'
  log : n'.log ≡ n.log
  committed : n.committed_index ≤ n'.committed_index

Advances-refl : (n : RaftNode) → IsValid n → Advances n n
Advances-refl n v = record { valid = v; log = refl; committed = omega arith }

Commits-Advances :
    (n : RaftNode) (p : ℕ) (n' : RaftNode) → IsValid n → Commits n p n' → Advances n n'
Commits-Advances n p n' v (keeps _ e) = subst (Advances n) (sym e) (Advances-refl n v)
Commits-Advances n p n' v (raises o node) = subst (Advances n) (sym node) (record {
  valid = record {
    is_log = v.is_log;
    committed_within = get_elem?-lt n.log p o.there;
    applied_within = omega (arith, v.applied_within, o.above);
  };
  log = refl;
  committed = omega (arith, o.above);
})

Checks-Advances :
    (n : RaftNode) (ms : List ℕ) (n' : RaftNode) → IsValid n → Checks n ms n' → Advances n n'
Checks-Advances n ms n' v (none_known _ e) = subst (Advances n) (sym e) (Advances-refl n v)
Checks-Advances n ms n' v (considers p _ c) = Commits-Advances n p n' v c

Replied-Advances :
    (n : RaftNode) (from : String) (reply : AppendEntriesReply) (n' : RaftNode)
    → IsValid n
    → Replied n from reply n'
    → Advances n n'
Replied-Advances n from reply n' v (newer _ e) = subst (Advances n) (sym e) (record {
  valid = record {
    is_log = v.is_log;
    committed_within = v.committed_within;
    applied_within = v.applied_within;
  };
  log = refl;
  committed = omega arith;
})
Replied-Advances n from reply n' v (ignored _ e) = subst (Advances n) (sym e) (Advances-refl n v)
Replied-Advances n from reply n' v (failed _ _ _ _ _ e) = subst (Advances n) (sym e) (record {
  valid = record {
    is_log = v.is_log;
    committed_within = v.committed_within;
    applied_within = v.applied_within;
  };
  log = refl;
  committed = omega arith;
})
Replied-Advances n from reply n' v (succeeded next match _ _ _ c) =
    let m = recorded n next match from reply.match_index in
    let a =
      Checks-Advances m (values (insert from reply.match_index match)) n'
        (record {
          is_log = v.is_log;
          committed_within = v.committed_within;
          applied_within = v.applied_within;
        })
        c in
    record { valid = a.valid; log = a.log; committed = a.committed }

-- A leader's step on a reply keeps its invariant and its log, and never lowers the commit index.
pub handle_append_entries_reply-IsValid :
    (n : RaftNode) (from : String) (reply : AppendEntriesReply) (r : ReplyResult)
    → IsValid n
    → handle_append_entries_reply n from reply ≡ ok r
    → IsValid r.0 × (r.0.log ≡ n.log) × (n.committed_index ≤ r.0.committed_index)
handle_append_entries_reply-IsValid n from reply r v h =
    let a =
      Replied-Advances n from reply r.0 v (handle_append_entries_reply-Replied n from reply r h) in
    (a.valid, a.log, a.committed)
