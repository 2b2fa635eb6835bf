-- ===== src/Node/Calm/Appends.antt =====
-- `handle_append_entries` (mini-raft/raft-rust/src/node.rs) and requests for votes.
use distributed_sys_lab.Prelude.{
  ℕ, inl, inr, Option, none, some, List, [], ◌∷◌, min, ltb, ◌==◌, Bool-cases, get_elem?,
}
use distributed_sys_lab.Protocol.{
  NodeState, follower, candidate, leader, LogEntry, AppendEntriesArgs, SideEffect,
}
use distributed_sys_lab.Node.{RaftNode, has_matching_prev_entry}
use distributed_sys_lab.Node.AppendEntries.{
  candidate_event, recognize_leader, store_entry, store_entries, follow_commit, accept_entries,
  follow_leader, handle_append_entries,
}
use distributed_sys_lab.Node.Calm.{
  Calm, Calm-push, Calm-log, Calm-log_only, maybe_step_down-Calm, apply_committed-Calm,
}

candidate_event-Calm :
    {m : RaftNode} (n : RaftNode) (s : NodeState) (fx : List SideEffect)
    → Calm m fx
    → Calm m (candidate_event n s fx)
unfolding candidate_event
candidate_event-Calm n (candidate _) fx h = Calm-log _ _ h
candidate_event-Calm n follower fx h = h
candidate_event-Calm n (leader _ _) fx h = h

recognize_leader-Calm :
    {m : RaftNode} (n : RaftNode) (args : AppendEntriesArgs) (fx : List SideEffect)
    → Calm m fx
    → Calm m (recognize_leader n args fx).1
unfolding recognize_leader
recognize_leader-Calm n args fx h =
    Calm-push _ tt (
      candidate_event-Calm (record n { leader_id = some args.leader_id }) n.state _
        (Calm-log _ _ h))

store_entry-Calm :
    {m : RaftNode} (n : RaftNode) (entry : LogEntry) (there : Option LogEntry)
    (fx : List SideEffect)
    → Calm m fx
    → Calm m (store_entry n entry there fx).1
unfolding store_entry
store_entry-Calm n entry none fx h = h
store_entry-Calm n entry (some existing) fx h = elim (Bool-cases (existing.term == entry.term)) [
  | inl same ↦ rw same h
  | inr other ↦ rw other (Calm-log _ _ h)
]

store_entries-Calm :
    {m : RaftNode} (n : RaftNode) (entries : List LogEntry) (last : ℕ) (fx : List SideEffect)
    → Calm m fx
    → Calm m (store_entries n entries last fx).1
unfolding store_entries
store_entries-Calm n [] last fx h = h
store_entries-Calm n (entry ∷ entries) last fx h =
    let (n', fx') = store_entry n entry (get_elem? n.log entry.index) fx in
    store_entries-Calm n' entries entry.index fx' (store_entry-Calm n entry _ fx h)

follow_commit-Calm :
    {m : RaftNode} (n : RaftNode) (leader_commit last : ℕ) (fx : List SideEffect)
    → Calm m fx
    → Calm m (follow_commit n leader_commit last fx).1
unfolding follow_commit
follow_commit-Calm n leader_commit last fx h =
    elim (Bool-cases (ltb n.committed_index leader_commit)) [
      | inr low ↦ rw low h
      | inl high ↦
          let n' = record n { committed_index = min leader_commit last } in
          elim (Bool-cases (ltb n.committed_index n'.committed_index)) [
            | inl raised ↦ rw (high, raised) (apply_committed-Calm n' _ (Calm-log _ _ h))
            | inr kept ↦ rw (high, kept) h
          ]
    ]

accept_entries-Calm :
    {m : RaftNode} (n : RaftNode) (args : AppendEntriesArgs) (fx : List SideEffect)
    → Calm m fx
    → Calm m (accept_entries n args fx).2
unfolding accept_entries
accept_entries-Calm n args fx h = Calm-log _ _ (
    follow_commit-Calm _ args.leader_commit _ _
      (store_entries-Calm n args.entries args.prev_log_index fx h))

follow_leader-Calm :
    {m : RaftNode} (n : RaftNode) (args : AppendEntriesArgs) (fx : List SideEffect)
    → Calm m fx
    → Calm m (follow_leader n args fx).2
unfolding follow_leader
follow_leader-Calm n args fx h =
    let (n', fx') = recognize_leader n args fx in
    let calm = recognize_leader-Calm n args fx h in
    elim (Bool-cases (has_matching_prev_entry n' args.prev_log_index args.prev_log_term)) [
      | inl matches ↦ rw matches (accept_entries-Calm n' args fx' calm)
      | inr differs ↦ rw differs (Calm-log _ _ calm)
    ]

pub handle_append_entries-Calm :
    {m : RaftNode} (n : RaftNode) (args : AppendEntriesArgs)
    → Calm m (handle_append_entries n args).2
unfolding handle_append_entries
handle_append_entries-Calm n args = elim (Bool-cases (ltb args.term n.current_term)) [
  | inl old ↦ rw old (Calm-log_only _ _)
  | inr new ↦ rw new (follow_leader-Calm _ args _ (maybe_step_down-Calm n args.term))
]
