-- ===== src/Node/Apply.antt =====
-- The `while self.committed_index > self.last_applied` loop of mini-raft/raft-rust/src/node.rs. It
-- stands twice there, in `handle_append_entries` and in `handle_append_entries_reply`.
pub mod Laws
use distributed_sys_lab.Prelude.{
  ℕ, zero, suc, ◌+◌, ◌-◌, Option, none, some, List, ltb, if◌then◌else◌, get_elem?, ◌<+◌,
}
use distributed_sys_lab.Protocol.{LogEntry, SideEffect, apply_entry}
use distributed_sys_lab.Node.{RaftNode, build_log_event}
use distributed_sys_lab.Node.Messages

-- The effects of one round, at the index that `last_applied` has reached.
unfoldable pub apply_effects : RaftNode → Option LogEntry → List SideEffect → List SideEffect
apply_effects n none side_effects = side_effects
apply_effects n (some entry) side_effects =
    side_effects
    <+ apply_entry n.last_applied entry.command
    <+ build_log_event n (Messages.applying n.last_applied)

-- `last_applied + 1` is at most `committed_index` here, so the `u64` addition cannot overflow.
unfoldable pub apply_loop : ℕ → RaftNode → List SideEffect → RaftNode × List SideEffect
apply_loop zero n side_effects = (n, side_effects)
apply_loop (suc fuel) n side_effects =
    let n' = record n { last_applied = n.last_applied + 1 } in
    let rest =
      apply_loop fuel n' (apply_effects n' (get_elem? n.log (n.last_applied + 1)) side_effects) in
    if ltb n.last_applied n.committed_index then rest else (n, side_effects)

-- Each round raises `last_applied` by one, so the distance to `committed_index` bounds the rounds.
unfoldable pub apply_committed : RaftNode → List SideEffect → RaftNode × List SideEffect
apply_committed n = apply_loop (n.committed_index - n.last_applied) n
