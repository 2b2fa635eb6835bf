-- ===== src/Node/AppendEntries.antt =====
-- `RaftNode::handle_append_entries` of mini-raft/raft-rust/src/node.rs, in the stages of its body.
pub mod Store
pub mod Result
pub mod Laws
pub mod Keeps
pub mod Roles
use distributed_sys_lab.Prelude.{
  ℕ, true, Option, none, some, List, [], ◌∷◌, ltb, ◌==◌, if◌then◌else◌, length, get_elem?, take,
  ◌<+◌, min,
}
use distributed_sys_lab.Protocol.{
  NodeState, follower, candidate, LogEntry, AppendEntriesArgs, AppendEntriesReply, SideEffect,
  reset_election_timer,
}
use distributed_sys_lab.Node.{
  RaftNode, build_log_event, has_matching_prev_entry, maybe_step_down, reject_append_entries,
}
use distributed_sys_lab.Node.Messages
use distributed_sys_lab.Node.Apply.{apply_committed}

unfoldable pub candidate_event : RaftNode → NodeState → List SideEffect → List SideEffect
candidate_event n (candidate _) side_effects =
    side_effects <+ build_log_event n "Recognized Leader -> Stepping down to Follower"
candidate_event n _ side_effects = side_effects

-- The sender is the leader of this term: remember it, follow it, and restart the election timer.
unfoldable pub recognize_leader :
    RaftNode → AppendEntriesArgs → List SideEffect → RaftNode × List SideEffect
recognize_leader n args side_effects =
    let n' = record n { leader_id = some args.leader_id } in
    let received =
      side_effects
      <+ build_log_event n'
          (Messages.received_append_entries args.leader_id args.term (length args.entries)) in
    (record n' { state = follower }, candidate_event n' n'.state received <+ reset_election_timer)

-- One round of the `for entry in args.entries` loop, on the entry that stands at `entry.index`.
unfoldable pub store_entry :
    RaftNode → LogEntry → Option LogEntry → List SideEffect → RaftNode × List SideEffect
store_entry n entry none side_effects = (record n { log = n.log <+ entry }, side_effects)
store_entry n entry (some existing) side_effects =
    if existing.term == entry.term then (n, side_effects) else (
      record n { log = take entry.index n.log <+ entry },
      side_effects <+ build_log_event n (Messages.log_conflict entry.index),
    )

-- The loop: the node, the effects and `last_new_entry_index`.
unfoldable pub store_entries :
    RaftNode → List LogEntry → ℕ → List SideEffect → RaftNode × List SideEffect × ℕ
unfolding store_entry
store_entries n [] last_new_entry_index side_effects = (n, side_effects, last_new_entry_index)
store_entries n (entry ∷ entries) last_new_entry_index side_effects =
    let (n', side_effects') = store_entry n entry (get_elem? n.log entry.index) side_effects in
    store_entries n' entries entry.index side_effects'

-- Step 5: follow the leader's commit index, and apply what is newly committed.
unfoldable pub follow_commit : RaftNode → ℕ → ℕ → List SideEffect → RaftNode × List SideEffect
follow_commit n leader_commit last_new_entry_index side_effects =
    if ltb n.committed_index leader_commit
    then (let n' = record n { committed_index = min leader_commit last_new_entry_index } in
        if ltb n.committed_index n'.committed_index
        then apply_committed n' (
            side_effects
            <+ build_log_event n' (Messages.updated_committed_index n'.committed_index))
        else (n', side_effects))
    else (n, side_effects)

-- The consistency check has passed.
unfoldable pub accept_entries :
    RaftNode → AppendEntriesArgs → List SideEffect → RaftNode × AppendEntriesReply × List SideEffect
accept_entries n args side_effects =
    let (n₁, effects₁, last_new) = store_entries n args.entries args.prev_log_index side_effects in
    let (n₂, effects₂) = follow_commit n₁ args.leader_commit last_new effects₁ in
    (
      n₂,
      record { term = n₂.current_term; success = true; match_index = last_new },
      effects₂ <+ build_log_event n₂ (Messages.sent_success args.leader_id),
    )

-- The sender's term is not old.
unfoldable pub follow_leader :
    RaftNode → AppendEntriesArgs → List SideEffect → RaftNode × AppendEntriesReply × List SideEffect
follow_leader n args side_effects =
    let (n', effects') = recognize_leader n args side_effects in
    if has_matching_prev_entry n' args.prev_log_index args.prev_log_term
    then accept_entries n' args effects'
    else (
      n',
      reject_append_entries n',
      effects' <+ build_log_event n' (Messages.consistency_failed args.prev_log_index),
    )

unfoldable pub handle_append_entries :
    RaftNode → AppendEntriesArgs → RaftNode × AppendEntriesReply × List SideEffect
handle_append_entries n args =
    if ltb args.term n.current_term
    then (
      n,
      reject_append_entries n,
      build_log_event n (Messages.rejected_old_term "AppendEntries" args.leader_id args.term) ∷ [],
    )
    else (let (n', side_effects, _) = maybe_step_down n args.term [] in
        follow_leader n' args side_effects)
