-- ===== src/Node/Slices.antt =====
-- What `build_append_entries_args` (mini-raft/raft-rust/src/node.rs) copies from a log.
use mathlib.Core.Path.{subst}
use mathlib.Core.Option.{some-injective}
use distributed_sys_lab.Prelude.{
  ℕ, zero, suc, ◌-◌, ◌≡◌, refl, inl, inr, false, some, List, [], arith, length, get_elem?,
  get_elem?-some, drop, ltb, ◌==◌, Bool-cases, if◌then◌else◌,
}
use distributed_sys_lab.Protocol.{LogEntry, AppendEntriesArgs}
use distributed_sys_lab.Node.Election.{Role, role}
use distributed_sys_lab.Node.{RaftNode, build_append_entries_args, term_or_zero}

-- The entries are those of the log after `prev_log_index`, where an entry of `prev_log_term` stands; or
-- there are none.
pub data IsSlice (log : List LogEntry) (args : AppendEntriesArgs) : Type 0 where
  empty : args.entries ≡ [] → IsSlice log args
  copied :
      (prev : LogEntry)
      → get_elem? log args.prev_log_index ≡ some prev
      → prev.term ≡ args.prev_log_term
      → args.entries ≡ drop (suc args.prev_log_index) log
      → IsSlice log args

-- What a leader may send: entries of its log, in its term, with its commit index.
pub record Offers (n : RaftNode) (args : AppendEntriesArgs) : Type 0 where
  pub leads : role n.state ≡ Role.leader
  pub term : args.term ≡ n.current_term
  pub commit : args.leader_commit ≡ n.committed_index
  pub slice : IsSlice n.log args

-- What is sent for a next index above 0.
abbrev next_args : RaftNode → ℕ → AppendEntriesArgs
next_args n k = record {
  term = n.current_term;
  leader_id = n.id;
  prev_log_index = k;
  prev_log_term = term_or_zero n.log k;
  entries = if ltb (suc k) (length n.log) then drop (suc k) n.log else [];
  leader_commit = n.committed_index;
}

next_args-IsSlice : (n : RaftNode) (k : ℕ) → IsSlice n.log (next_args n k)
unfolding term_or_zero
next_args-IsSlice n k = elim (Bool-cases (ltb (suc k) (length n.log))) [
  | inr past ↦ empty (rw past refl)
  | inl inside ↦
      let (prev, at) = get_elem?-some n.log k (ground arith) in
      copied prev at (rw (at, term_or_zero) refl) (rw inside refl)
]

pub build_append_entries_args-Offers :
    (n : RaftNode) (next : ℕ) (args : AppendEntriesArgs)
    → role n.state ≡ Role.leader
    → build_append_entries_args n next ≡ some args
    → Offers n args
unfolding build_append_entries_args
build_append_entries_args-Offers n zero args leads h = cc h
build_append_entries_args-Offers n (suc k) args leads h =
    let above : (suc k == 0) ≡ false = ground arith in
    let before : suc k - 1 ≡ k = omega arith in
    subst (Offers n) (some-injective _ args (rw (above, before) at h))
      (record { leads = leads; term = refl; commit = refl; slice = next_args-IsSlice n k })
