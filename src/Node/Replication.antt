-- ===== src/Node/Replication.antt =====
-- A leader and a follower together (mini-raft/raft-rust/src/node.rs): what `build_append_entries_args`
-- sends, and what becomes of it.
use mathlib.Core.Path.{subst}
use distributed_sys_lab.Node.AppendEntries.Store.{Stored}
use distributed_sys_lab.Prelude.{
  sym, ◌∙◌, get_elem?, ℕ, suc, ◌+◌, ◌-◌, ◌<◌, ◌≤◌, ◌≡◌, refl, some, true, List, [], ◌∷◌, arith,
  length, drop, length-drop,
}
use distributed_sys_lab.Protocol.{LogEntry, AppendEntriesArgs}
use distributed_sys_lab.Node.{RaftNode, build_append_entries_args, term_or_zero}
use distributed_sys_lab.Node.Log.{Contiguous, IsLog, drop-Contiguous}
use distributed_sys_lab.Node.Invariant.{IsValid, IsCoherent}
use distributed_sys_lab.Node.AppendEntries.Laws.{after, reply, handle_append_entries-Stored}
use distributed_sys_lab.Node.AppendEntries.Keeps.{handle_append_entries-success_iff}

-- What is sent for a next index.
abbrev pub sent : RaftNode → ℕ → AppendEntriesArgs
sent n k = record {
  term = n.current_term;
  leader_id = n.id;
  prev_log_index = k - 1;
  prev_log_term = term_or_zero n.log (k - 1);
  entries = drop k n.log;
  leader_commit = n.committed_index;
}

drop_past : (k : ℕ) (log : List LogEntry) → length log ≤ k → drop k log ≡ []
drop_past k [] h = drop-nil k
  where
    drop-nil : (m : ℕ) → drop {A = LogEntry} m [] ≡ []
    drop-nil ℕ.zero = refl
    drop-nil (suc m) = refl
drop_past ℕ.zero (e ∷ es) h = absurd (omega arith)
drop_past (suc k) (e ∷ es) h = drop_past k es (omega arith)

pub build_append_entries_args-sent :
    (n : RaftNode) (k : ℕ) → 0 < k → build_append_entries_args n k ≡ some (sent n k)
unfolding build_append_entries_args
build_append_entries_args-sent n k pos = ground (arith, drop_past k n.log)

-- What a valid leader sends for a next index above 0 is coherent: the entries follow `prev_log_index` one by
-- one and reach its commit index.
pub build_append_entries_args-IsCoherent :
    (n : RaftNode) (k : ℕ)
    → IsValid n
    → 0 < k
    → (build_append_entries_args n k ≡ some (sent n k)) × IsCoherent (sent n k)
build_append_entries_args-IsCoherent n k v pos = (
  build_append_entries_args-sent n k pos,
  record {
    contiguous =
        (let e : k + 0 ≡ suc (k - 1) = omega arith in
          subst (λ i. Contiguous i (drop k n.log)) e
            (drop-Contiguous k 0 n.log v.is_log.contiguous));
    covers = omega (arith, length-drop k n.log);
  },
)

-- A valid leader builds a message for a next index that is above 0 and not past the end of its log. A
-- follower with an indexed log and no newer term, which has an entry of the same term as the leader's before
-- the next index, accepts the message: it keeps its log below the next index, has the leader's terms at
-- every position from there on, and every entry of its new log is one that it had or the leader's, at the
-- same position. It reports the leader's last index.
pub replicate_lem :
    (n f : RaftNode) (k : ℕ) (mine yours : LogEntry)
    → IsValid n
    → IsLog f.log
    → 0 < k
    → k ≤ length n.log
    → f.current_term ≤ n.current_term
    → get_elem? n.log (k - 1) ≡ some mine
    → get_elem? f.log (k - 1) ≡ some yours
    → yours.term ≡ mine.term
    → (args : AppendEntriesArgs) × (build_append_entries_args n k ≡ some args)
      × ((reply f args).success ≡ true)
      × Stored f.log (after f args).log k (drop k n.log)
      × ((reply f args).match_index + 1 ≡ length n.log)
unfolding term_or_zero
replicate_lem n f k mine yours v w pos fits current at_n at_f same =
    let a = sent n k in
    let (built, c) = build_append_entries_args-IsCoherent n k v pos in
    let term : term_or_zero n.log (k - 1) ≡ mine.term = rw (at_n, term_or_zero) refl in
    let good =
      (handle_append_entries-success_iff f a).0.1 (current, (yours, at_f, same ∙ sym term)) in
    let (s, _, index) = handle_append_entries-Stored f a w c.contiguous good in
    let e : suc (k - 1) ≡ k = omega arith in
    (
      a,
      built,
      good,
      subst (λ i. Stored f.log (after f a).log i (drop k n.log)) e s,
      omega (arith, index, length-drop k n.log),
    )
