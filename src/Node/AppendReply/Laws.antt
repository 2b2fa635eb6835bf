-- ===== src/Node/AppendReply/Laws.antt =====
-- What `handle_append_entries_reply` (mini-raft/raft-rust/src/node.rs) does to the node, by branch.
use mathlib.Core.Path.{subst}
use mathlib.Core.Bool.{false≢true}
use mathlib.Core.Option.{some-injective, none-ne-some}
use distributed_sys_lab.Prelude.{
  ℕ, min, ◌/◌, ◌+◌, ◌-◌, ◌<◌, ◌≤◌, max, ◌≡◌, ◌≢◌, ◌∙◌, ◌⊎◌, inl, inr, refl, sym, ap, some, String,
  true, false, List, [], ◌∷◌, arith, get_last?, get_elem?, ok, panic≢ok, u64_limit, >>=-eq-ok,
  ok-injective, unwrap, unwrap-eq-ok, length, ltb, ltb→lt, ◌==◌, ==_iff, Bool-cases, Option-cases,
  ◌<+◌, length-append, Dict, insert, values, sort, if◌then◌else◌,
}
use distributed_sys_lab.Prelude.Sort.Median.{count_ge, get_elem?-sort, length-sort}
use distributed_sys_lab.Protocol.{
  NodeState, follower, candidate, leader, LogEntry, SideEffect, AppendEntriesReply,
}
use distributed_sys_lab.Node.{RaftNode, maybe_step_down, build_log_event}
use distributed_sys_lab.Node.Messages
use distributed_sys_lab.Node.StepDown.{
  adopted, stepped-adopted, stepped_same, maybe_step_down-stepped,
}
use distributed_sys_lab.Node.Election.{Role, role}
use distributed_sys_lab.Node.Apply.Laws.{apply_committed-node}
use distributed_sys_lab.Node.Timeouts.{next_index_of}
use distributed_sys_lab.Node.AppendReply.{
  majority, majority_index, commit_potential, check_commit, record_success, retry_index, retry,
  reply_at, receipt, handle_append_entries_reply,
}

abbrev pub ReplyResult : Type 0
ReplyResult = RaftNode × List SideEffect

-- The node that has committed and applied up to a position.
abbrev pub committed_at : RaftNode → ℕ → RaftNode
committed_at n p = record n { committed_index = p; last_applied = max n.last_applied p }

-- A position that can be committed: it is not committed yet, and holds an entry of the current term.
pub record IsOpen (n : RaftNode) (p : ℕ) : Type 0 where
  pub above : n.committed_index < p
  pub entry : LogEntry
  pub there : get_elem? n.log p ≡ some entry
  pub current : entry.term ≡ n.current_term

-- The commit index is raised to a position that can be committed, and left alone where it cannot.
pub data Commits (n : RaftNode) (p : ℕ) (n' : RaftNode) : Type 0 where
  keeps : (IsOpen n p → ⊥) → n' ≡ n → Commits n p n'
  raises : IsOpen n p → n' ≡ committed_at n p → Commits n p n'

pub commit_potential-Commits :
    (n : RaftNode) (p : ℕ) (fx : List SideEffect) → Commits n p (commit_potential n p fx).0
unfolding commit_potential
commit_potential-Commits n p fx = elim (Bool-cases (ltb n.committed_index p)) [
  | inr low ↦ keeps (λ o. let above = o.above in ground arith) (rw low)
  | inl high ↦ elim (Option-cases (get_elem? n.log p)) [
    | inl e ↦ keeps (λ o. none-ne-some o.entry (sym e ∙ o.there)) (rw (high, e))
    | inr (x, e) ↦ elim (Bool-cases (x.term == n.current_term)) [
      | inr old ↦
          keeps
            (λ o.
              let same = some-injective x o.entry (sym e ∙ o.there) in
              let is_now = ap (λ (y : LogEntry). y.term) same ∙ o.current in
              false≢true (sym old ∙ (==_iff x.term n.current_term).1 is_now))
            (rw (high, e, old))
      | inl now ↦
          let n' = record n { committed_index = p } in
          raises
            (record { above = ltb→lt _ _ high; entry = x; there = e; current = (==_iff _ _).0 now })
            (rw (high, e, now)
              (apply_committed-node n' (fx <+ build_log_event n' (Messages.leader_committed p))))
    ]
  ]
]

-- How many match indices, the leader's own among them, have to reach a position: more than half of the
-- nodes, or all that are known when these are fewer.
abbrev pub quota : RaftNode → List ℕ → ℕ
quota n ms = min ((length n.peers + 1) / 2 + 1) (length ms + 1)

-- The index that `check_commit` considers: the greatest that so many match indices have reached.
pub record IsMajorityIndex (n : RaftNode) (ms : List ℕ) (p : ℕ) : Type 0 where
  pub last : LogEntry
  pub is_last : get_last? n.log ≡ some last
  pub reached : quota n ms ≤ count_ge p (ms <+ last.index)
  pub greatest : (t : ℕ) → p < t → count_ge t (ms <+ last.index) < quota n ms

pub majority_index_lem :
    (n : RaftNode) (ms : List ℕ) (p : ℕ) → majority_index n ms ≡ ok p → IsMajorityIndex n ms p
unfolding majority_index majority
majority_index_lem n ms p h =
    let (last, got, rest) = >>=-eq-ok (unwrap (get_last? n.log)) _ h in
    let arr = ms <+ last.index in
    let i = length (sort arr) - ((length n.peers + 1) / 2 + 1) in
    let at : get_elem? (sort arr) i ≡ some p = unwrap-eq-ok (get_elem? (sort arr) i) rest in
    let size = length-append ms (last.index ∷ []) in
    let same : i ≡ length (sort arr) - quota n ms = omega (arith, size, length-sort arr) in
    let (reached, greatest) =
      get_elem?-sort arr (quota n ms) p (omega arith) (omega (arith, size))
        (ap (get_elem? (sort arr)) (sym same) ∙ at) in
    record {
      last = last;
      is_last = unwrap-eq-ok (get_last? n.log) got;
      reached = reached;
      greatest = greatest;
    }

-- What looking for a new commit does.
pub data Checks (n : RaftNode) (ms : List ℕ) (n' : RaftNode) : Type 0 where
  none_known : ms ≡ [] → n' ≡ n → Checks n ms n'
  considers : (p : ℕ) → IsMajorityIndex n ms p → Commits n p n' → Checks n ms n'

pub check_commit-Checks :
    (n : RaftNode) (ms : List ℕ) (fx : List SideEffect) (r : ReplyResult)
    → check_commit n ms fx ≡ ok r
    → Checks n ms r.0
unfolding check_commit
check_commit-Checks n [] fx r h =
    none_known refl (ap (λ (x : ReplyResult). x.0) (sym (ok-injective h)))
check_commit-Checks n (m ∷ ms) fx r h =
    let (p, found, done) = >>=-eq-ok (majority_index n (m ∷ ms)) _ h in
    considers p (majority_index_lem n (m ∷ ms) p found) (
      subst (λ (x : ReplyResult). Commits n p x.0) (ok-injective done)
        (commit_potential-Commits n p fx))

-- The leader with the follower's progress recorded.
abbrev pub recorded : RaftNode → Dict → Dict → String → ℕ → RaftNode
recorded n next_indices match_indices from match_index =
    let next' =
      if ltb (next_index_of next_indices from) (match_index + 1)
      then insert from (match_index + 1) next_indices
      else next_indices in
    record n { state = leader next' (insert from match_index match_indices) }

-- The leader with the follower's next index lowered.
abbrev pub retried : RaftNode → Dict → Dict → String → ℕ → RaftNode
retried n next_indices match_indices from match_index = record n {
  state =
      leader (insert from (retry_index match_index (next_index_of next_indices from)) next_indices)
        match_indices;
}

-- What a reply does: a newer term is adopted; an older term's reply, or one to a node that does not lead,
-- is ignored; a failure lowers the next index; a success is recorded and may commit.
pub data Replied (n : RaftNode) (from : String) (reply : AppendEntriesReply) (n' : RaftNode)
    : Type 0 where
  newer : n.current_term < reply.term → n' ≡ adopted n reply.term → Replied n from reply n'
  ignored :
      (reply.term < n.current_term) ⊎ ((reply.term ≡ n.current_term) × (role n.state ≢ Role.leader))
      → n' ≡ n
      → Replied n from reply n'
  failed :
      (next_indices match_indices : Dict)
      → reply.term ≡ n.current_term
      → n.state ≡ leader next_indices match_indices
      → reply.success ≡ false
      → n' ≡ retried n next_indices match_indices from reply.match_index
      → Replied n from reply n'
  succeeded :
      (next_indices match_indices : Dict)
      → reply.term ≡ n.current_term
      → n.state ≡ leader next_indices match_indices
      → reply.success ≡ true
      → Checks
          (recorded n next_indices match_indices from reply.match_index)
          (values (insert from reply.match_index match_indices))
          n'
      → Replied n from reply n'

record_success-Checks :
    (n : RaftNode) (next_indices match_indices : Dict) (from : String) (reply : AppendEntriesReply)
    (fx : List SideEffect) (r : ReplyResult)
    → record_success n next_indices match_indices from reply fx ≡ ok r
    → Checks
        (recorded n next_indices match_indices from reply.match_index)
        (values (insert from reply.match_index match_indices))
        r.0
unfolding record_success
record_success-Checks n next_indices match_indices from reply fx r h =
    let n' = recorded n next_indices match_indices from reply.match_index in
    let fx' = fx <+ build_log_event n' (Messages.updated_match_index from reply.match_index) in
    elim (Bool-cases (ltb (reply.match_index + 1) u64_limit)) [
      | inl fits ↦
          check_commit-Checks n' (values (insert from reply.match_index match_indices)) fx' r
            (rw fits at h)
      | inr over ↦ absurd (panic≢ok (rw over at h))
    ]

reply_at-Replied :
    (s : NodeState) (n : RaftNode) (from : String) (reply : AppendEntriesReply)
    (fx : List SideEffect) (r : ReplyResult)
    → n.state ≡ s
    → reply.term ≡ n.current_term
    → reply_at s n from reply fx ≡ ok r
    → Replied n from reply r.0
unfolding reply_at retry
reply_at-Replied (leader next_indices match_indices) n from reply fx r s t h =
    elim (Bool-cases reply.success) [
      | inl good ↦
          succeeded next_indices match_indices t s good
            (record_success-Checks n next_indices match_indices from reply fx r (rw good at h))
      | inr bad ↦
          failed next_indices match_indices t s bad
            (ap (λ (x : ReplyResult). x.0) (sym (ok-injective (rw bad at h))))
    ]
reply_at-Replied follower n from reply fx r s t h =
    ignored (inr (t, λ e. cc)) (ap (λ (x : ReplyResult). x.0) (sym (ok-injective h)))
reply_at-Replied (candidate _) n from reply fx r s t h =
    ignored (inr (t, λ e. cc)) (ap (λ (x : ReplyResult). x.0) (sym (ok-injective h)))

-- Every reply that is handled has one of four outcomes. A newer term is adopted as a follower without a vote
-- and a leader. A reply of an older term, or of the node's term to a node that does not lead, changes nothing.
-- In a leader of the reply's term a failure replaces the sender's next index by the retry index, and nothing
-- else. There a success records the match index, never lowers the next index, and then considers the greatest
-- position that more than half of the nodes have reached by the recorded match indices and the leader's last
-- index, or that all of these indices have reached when they are fewer: when this position is above the commit
-- index and holds an entry of the leader's term, the leader commits and applies up to it, and otherwise it
-- commits nothing.
pub handle_append_entries_reply-Replied :
    (n : RaftNode) (from : String) (reply : AppendEntriesReply) (r : ReplyResult)
    → handle_append_entries_reply n from reply ≡ ok r
    → Replied n from reply r.0
unfolding handle_append_entries_reply
handle_append_entries_reply-Replied n from reply r h =
    let (n', fx, stepped_down) = maybe_step_down n reply.term [] in
    let (node, flag) = maybe_step_down-stepped n reply.term [] in
    elim (Bool-cases (ltb n.current_term reply.term)) [
      | inl higher ↦
          let e = ok-injective (rw (flag, higher) at h) in
          newer (ltb→lt _ _ higher)
            (ap (λ (x : ReplyResult). x.0) (sym e) ∙ node ∙ stepped-adopted n reply.term higher)
      | inr current ↦
          let same : n' ≡ n = node ∙ stepped_same n reply.term current in
          let h' = rw (flag, current) at h in
          elim (Bool-cases (reply.term == n'.current_term)) [
            | inl now ↦
                subst (λ m. Replied m from reply r.0) same
                  (reply_at-Replied n'.state n' from reply
                    (fx <+ build_log_event n' (receipt from reply)) r refl ((==_iff _ _).0 now)
                    (rw now at h'))
            | inr other ↦
                ignored (inl (ground (arith, other, current, same)))
                  (ap (λ (x : ReplyResult). x.0) (sym (ok-injective (rw other at h'))) ∙ same)
          ]
    ]
