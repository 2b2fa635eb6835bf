-- ===== src/Node/AppendEntries/Laws.antt =====
-- What `handle_append_entries` (mini-raft/raft-rust/src/node.rs) does to the log and the commit index.
use distributed_sys_lab.Prelude.{
  ℕ, suc, ◌+◌, ◌≤◌, ◌<◌, ◌≡◌, ◌∙◌, ap, sym, refl, true, arith, Option-cases, some, List, ==_iff,
  inl, inr, length, get_elem?, get_elem?-lt,
}
use distributed_sys_lab.Protocol.{LogEntry, AppendEntriesArgs, AppendEntriesReply}
use distributed_sys_lab.Node.{RaftNode, has_matching_prev_entry, reject_append_entries}
use distributed_sys_lab.Node.Log.{Contiguous, IsLog}
use distributed_sys_lab.Node.AppendEntries.{handle_append_entries}
use distributed_sys_lab.Node.AppendEntries.Store.{
  stored_all, Stored, stored_all-Stored, last_new-Contiguous,
}
use distributed_sys_lab.Node.AppendEntries.Result.{
  committed_to, following, accepted, success_reply, append_result, handle_append_entries-result,
}

-- The log has an entry of a term at a position.
abbrev pub HasEntry : List LogEntry → ℕ → ℕ → Type 0
HasEntry log i t = (x : LogEntry) × (get_elem? log i ≡ some x) × (x.term ≡ t)

pub has_matching_prev_entry-HasEntry :
    (n : RaftNode) (i t : ℕ) → has_matching_prev_entry n i t ≡ true → HasEntry n.log i t
unfolding has_matching_prev_entry
has_matching_prev_entry-HasEntry n i t h = elim (Option-cases (get_elem? n.log i)) [
  | inl e ↦ ground arith
  | inr (x, e) ↦ (x, e, (==_iff x.term t).0 (rw (e, has_matching_prev_entry) at h))
]

pub HasEntry-has_matching_prev_entry :
    (n : RaftNode) (i t : ℕ) → HasEntry n.log i t → has_matching_prev_entry n i t ≡ true
unfolding has_matching_prev_entry
HasEntry-has_matching_prev_entry n i t (x, e, same) =
    rw (e, has_matching_prev_entry) ((==_iff x.term t).1 same)

module _ (n : RaftNode) (args : AppendEntriesArgs) where
  abbrev pub after : RaftNode
  after = (handle_append_entries n args).0

  abbrev pub reply : AppendEntriesReply
  reply = (handle_append_entries n args).1

  -- What a success means: the sender's term is not old, the previous entry matches, and the entries
  -- were stored.
  pub record Success : Type 0 where
    pub current : n.current_term ≤ args.term
    pub matching :
        has_matching_prev_entry (following n args) args.prev_log_index args.prev_log_term ≡ true
    pub node : after ≡ accepted (following n args) args
    pub replied : reply ≡ success_reply (following n args) args

  pub success_lem : reply.success ≡ true → Success
  unfolding append_result reject_append_entries
  success_lem h =
      let result = handle_append_entries-result n args in
      let node : after ≡ (append_result n args).0 = λ i. (result i).0 in
      let replied : reply ≡ (append_result n args).1 = λ i. (result i).1 in
      ground (arith, node, replied)

  pub following-log : (following n args).log ≡ n.log
  unfolding following
  following-log = ground arith

  pub following-match :
      (i t : ℕ) → has_matching_prev_entry (following n args) i t ≡ has_matching_prev_entry n i t
  unfolding has_matching_prev_entry following
  following-match i t = ground arith

  pub matching_within :
      has_matching_prev_entry n args.prev_log_index args.prev_log_term ≡ true
      → args.prev_log_index < length n.log
  unfolding has_matching_prev_entry
  matching_within h = elim (Option-cases (get_elem? n.log args.prev_log_index)) [
    | inl e ↦ ground arith
    | inr (x, e) ↦ get_elem?-lt n.log args.prev_log_index e
  ]

  pub accepted-log : (m : RaftNode) → (accepted m args).log ≡ stored_all m.log args.entries
  unfolding accepted committed_to
  accepted-log m = refl

-- A node with an indexed log receives a message whose entries follow `prev_log_index` one by one, and reports
-- success. Then it had an entry of `prev_log_term` at `prev_log_index`. Its log is unchanged up to there, and
-- after it has at each position an entry of the term of the message's entry for that position. Every entry
-- of the new log stood in the old one at the same position, or is the message's entry for that position. The
-- log stays indexed, and the reply names the last of the message's entries.
pub handle_append_entries-Stored :
    (n : RaftNode) (args : AppendEntriesArgs)
    → IsLog n.log
    → Contiguous (suc args.prev_log_index) args.entries
    → (reply n args).success ≡ true
    → Stored n.log (after n args).log (suc args.prev_log_index) args.entries
      × HasEntry n.log args.prev_log_index args.prev_log_term
      × ((reply n args).match_index ≡ args.prev_log_index + length args.entries)
handle_append_entries-Stored n args v c h =
    let s = success_lem n args h in
    let matching : has_matching_prev_entry n args.prev_log_index args.prev_log_term ≡ true =
      sym (following-match n args _ _) ∙ s.matching in
    let log : (after n args).log ≡ stored_all n.log args.entries =
      ap (λ (m : RaftNode). m.log) s.node
      ∙ accepted-log n args (following n args)
      ∙ ap (λ xs. stored_all xs args.entries) (following-log n args) in
    (
      rw log (
          stored_all-Stored n.log (suc args.prev_log_index) args.entries v.contiguous
            (matching_within n args matching) c),
      has_matching_prev_entry-HasEntry n args.prev_log_index args.prev_log_term matching,
      ap (λ (r : AppendEntriesReply). r.match_index) s.replied
          ∙ last_new-Contiguous args.prev_log_index args.entries c,
    )
