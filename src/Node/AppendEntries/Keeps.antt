-- ===== src/Node/AppendEntries/Keeps.antt =====
-- `handle_append_entries` (mini-raft/raft-rust/src/node.rs) keeps the invariant of a node and its
-- committed entries, refuses what it must, and can be repeated.
use mathlib.Core.Path.{subst}
use mathlib.Core.Bool.{false≢true}
use distributed_sys_lab.Prelude.{
  ℕ, suc, ◌≤◌, ◌<◌, max, ◌≡◌, ◌↔◌, ◌∙◌, ap, sym, true, false, List, arith, inl, inr, Bool-cases,
  length, get_elem?,
}
use distributed_sys_lab.Protocol.{LogEntry, AppendEntriesArgs}
use distributed_sys_lab.Node.{RaftNode, has_matching_prev_entry}
use distributed_sys_lab.Node.Log.{Contiguous, IsLog}
use distributed_sys_lab.Node.Invariant.{IsValid, IsCoherent, KeepsCommitted}
use distributed_sys_lab.Node.AppendEntries.Store.{
  stored_all, last_new, stored_all-keep, stored_all-Stored, stored_all_of_Agrees,
  last_new-Contiguous,
}
use distributed_sys_lab.Node.AppendEntries.Result.{
  committed_to, next_commit, next_applied, following, accepted, append_result,
  handle_append_entries-result,
}
use distributed_sys_lab.Node.AppendEntries.Laws.{
  HasEntry, has_matching_prev_entry-HasEntry, HasEntry-has_matching_prev_entry, after, reply,
  success_lem, following-log, following-match, matching_within, accepted-log,
  handle_append_entries-Stored,
}

module _ (n : RaftNode) (args : AppendEntriesArgs) where
  -- A refusal changes neither the log nor what is committed and applied.
  pub record Refused : Type 0 where
    pub log : (after n args).log ≡ n.log
    pub committed : (after n args).committed_index ≡ n.committed_index
    pub applied : (after n args).last_applied ≡ n.last_applied

  pub refused_lem : (reply n args).success ≡ false → Refused
  unfolding append_result following
  refused_lem h =
      let result = handle_append_entries-result n args in
      let node : after n args ≡ (append_result n args).0 = λ i. (result i).0 in
      let replied : reply n args ≡ (append_result n args).1 = λ i. (result i).1 in
      ground (arith, node, replied)

  -- The fields after a success.
  pub record Accepted : Type 0 where
    pub prev_within : args.prev_log_index < length n.log
    pub log : (after n args).log ≡ stored_all n.log args.entries
    pub committed :
        (after n args).committed_index
        ≡ next_commit n.committed_index args.leader_commit
            (last_new args.prev_log_index args.entries)
    pub applied :
        (after n args).last_applied
        ≡ next_applied n.last_applied n.committed_index (after n args).committed_index

  pub accepted_lem : (reply n args).success ≡ true → Accepted
  unfolding accepted committed_to following
  accepted_lem h =
      let s = success_lem n args h in
      let node = s.node in
      record {
        prev_within = matching_within n args (sym (following-match n args _ _) ∙ s.matching);
        log =
            ap (λ (m : RaftNode). m.log) node
            ∙ accepted-log n args (following n args)
            ∙ ap (λ xs. stored_all xs args.entries) (following-log n args);
        committed = ground arith;
        applied = ground arith;
      }

next_commit_bounds :
    (c leader_commit last : ℕ)
    → leader_commit ≤ last
    → (c ≤ next_commit c leader_commit last) × (next_commit c leader_commit last ≤ max c last)
unfolding next_commit
next_commit_bounds c leader_commit last h = ground arith

next_applied_bounds : (a c c' : ℕ) → a ≤ c → c ≤ c' → next_applied a c c' ≤ c'
unfolding next_applied
next_applied_bounds a c c' h k = ground arith

-- A node's invariant is kept, whatever the answer, by a coherent message that repeats the terms of the
-- committed entries; these entries stay as they are and the commit index does not fall.
pub handle_append_entries-IsValid :
    (n : RaftNode) (args : AppendEntriesArgs)
    → IsValid n
    → IsCoherent args
    → KeepsCommitted n args
    → IsValid (after n args)
      × (n.committed_index ≤ (after n args).committed_index)
      × ((i : ℕ) → i ≤ n.committed_index → get_elem? (after n args).log i ≡ get_elem? n.log i)
handle_append_entries-IsValid n args v c k = elim (Bool-cases (reply n args).success) [
  | inl ok ↦
      let a = accepted_lem n args ok in
      let p = args.prev_log_index in
      let keep =
        stored_all-keep n.log p n.committed_index args.entries v.is_log.contiguous a.prev_within
          v.committed_within c.contiguous k in
      let s =
        stored_all-Stored n.log (suc p) args.entries v.is_log.contiguous a.prev_within
          c.contiguous in
      let last = last_new-Contiguous p args.entries c.contiguous in
      let same = ap (λ (xs : List LogEntry). length xs) a.log in
      let bounds =
        next_commit_bounds n.committed_index args.leader_commit (last_new p args.entries)
          (omega arith) in
      (
        record {
          is_log = record {
            nonempty = omega arith;
            contiguous = subst (Contiguous 0) (sym a.log) s.contiguous;
          };
          committed_within = omega arith;
          applied_within = omega (
            arith,
            next_applied_bounds n.last_applied n.committed_index (after n args).committed_index,
          );
        },
        omega arith,
        λ i le. ap (λ xs. get_elem? xs i) a.log ∙ keep.0 i le,
      )
  | inr refused ↦
      let r = refused_lem n args refused in
      let same = ap (λ (xs : List LogEntry). length xs) r.log in
      (
        record {
          is_log = subst IsLog (sym r.log) v.is_log;
          committed_within = omega arith;
          applied_within = omega arith;
        },
        omega arith,
        λ i le. ap (λ xs. get_elem? xs i) r.log,
      )
]

module _ (n : RaftNode) (args : AppendEntriesArgs) where
  success_of :
      n.current_term ≤ args.term
      → has_matching_prev_entry n args.prev_log_index args.prev_log_term ≡ true
      → (reply n args).success ≡ true
  unfolding append_result
  success_of current matching =
      let result = handle_append_entries-result n args in
      let replied : reply n args ≡ (append_result n args).1 = λ i. (result i).1 in
      ground (arith, replied, following-match n args args.prev_log_index args.prev_log_term)

  -- A message is accepted exactly when the sender's term is not old and the log has an entry of
  -- `prev_log_term` at `prev_log_index`. The reply to an accepted message reports success; one that is not
  -- accepted leaves the log, the commit index and the applied index as they are.
  pub handle_append_entries-success_iff :
      (((reply n args).success ≡ true)
        ↔ ((n.current_term ≤ args.term) × HasEntry n.log args.prev_log_index args.prev_log_term))
      × ((reply n args).success ≡ false → Refused n args)
  handle_append_entries-success_iff = (
    (
      (λ h.
          let s = success_lem n args h in
          (
            s.current,
            has_matching_prev_entry-HasEntry n args.prev_log_index args.prev_log_term
                (sym (following-match n args _ _) ∙ s.matching),
          )),
      λ h.
          success_of h.0
            (HasEntry-has_matching_prev_entry n args.prev_log_index args.prev_log_term h.1),
    ),
    refused_lem n args,
  )

  -- The term never falls: it becomes the larger of the node's and the sender's.
  pub handle_append_entries-term : (after n args).current_term ≡ max n.current_term args.term
  unfolding append_result following accepted committed_to
  handle_append_entries-term =
      let result = handle_append_entries-result n args in
      let node : after n args ≡ (append_result n args).0 = λ i. (result i).0 in ground (arith, node)

-- A node with an indexed log receives a message whose entries follow `prev_log_index` one by one. Receiving
-- the same message once more changes nothing in the log, whether the message is accepted or refused.
pub handle_append_entries_idem :
    (n : RaftNode) (args : AppendEntriesArgs)
    → IsLog n.log
    → Contiguous (suc args.prev_log_index) args.entries
    → (after (after n args) args).log ≡ (after n args).log
handle_append_entries_idem n args v c =
    let m = after n args in
    elim (Bool-cases (reply m args).success) [
      | inl again ↦ elim (Bool-cases (reply n args).success) [
        | inl first ↦
            let s = (handle_append_entries-Stored n args v c first).0 in
            (accepted_lem m args again).log
            ∙ stored_all_of_Agrees m.log (suc args.prev_log_index) args.entries c s.agrees
        | inr refused ↦
            let (current, there) = (handle_append_entries-success_iff m args).0.0 again in
            let before =
              subst (λ l. HasEntry l args.prev_log_index args.prev_log_term)
                (refused_lem n args refused).log there in
            let taken =
              (handle_append_entries-success_iff n args).0.1
                (omega (arith, handle_append_entries-term n args), before) in
            absurd (false≢true (sym refused ∙ taken))
      ]
      | inr refused ↦ (refused_lem m args refused).log
    ]
