-- ===== src/Node/AppendEntries/Result.antt =====
-- `handle_append_entries` (mini-raft/raft-rust/src/node.rs) without its effects: the node and the
-- reply, in one expression each.
use mathlib.Core.Path.{ap₂}
use distributed_sys_lab.Prelude.{
  ℕ, ◌≡◌, refl, ◌∙◌, true, some, List, [], arith, ltb, if◌then◌else◌, min, max, ◌<+◌,
}
use distributed_sys_lab.Protocol.{follower, AppendEntriesArgs, AppendEntriesReply, SideEffect}
use distributed_sys_lab.Node.{
  RaftNode, build_log_event, has_matching_prev_entry, maybe_step_down, reject_append_entries,
}
use distributed_sys_lab.Node.Messages
use distributed_sys_lab.Node.StepDown.{stepped, maybe_step_down-stepped}
use distributed_sys_lab.Node.Apply.Laws.{apply_committed-node}
use distributed_sys_lab.Node.AppendEntries.{
  recognize_leader, store_entries, follow_commit, accept_entries, follow_leader,
  handle_append_entries,
}
use distributed_sys_lab.Node.AppendEntries.Store.{stored_all, last_new, store_entries-node}

-- The commit index that a node at `committed` moves to.
unfoldable pub next_commit : ℕ → ℕ → ℕ → ℕ
next_commit committed leader_commit last =
    if ltb committed leader_commit then min leader_commit last else committed

unfoldable pub next_applied : ℕ → ℕ → ℕ → ℕ
next_applied applied committed committed' =
    if ltb committed committed' then max applied committed' else applied

unfoldable pub committed_to : RaftNode → ℕ → ℕ → RaftNode
unfolding next_commit next_applied
committed_to n leader_commit last =
    let c = next_commit n.committed_index leader_commit last in
    record n { committed_index = c; last_applied = next_applied n.last_applied n.committed_index c }

pub follow_commit-node :
    (n : RaftNode) (leader_commit last : ℕ) (fx : List SideEffect)
    → (follow_commit n leader_commit last fx).0 ≡ committed_to n leader_commit last
unfolding follow_commit committed_to
follow_commit-node n leader_commit last fx =
    let n' = record n { committed_index = min leader_commit last } in
    ground (
      arith,
      apply_committed-node n'
          (fx <+ build_log_event n' (Messages.updated_committed_index (min leader_commit last))),
    )

-- The node once it follows the sender, before the consistency check.
unfoldable pub following : RaftNode → AppendEntriesArgs → RaftNode
unfolding stepped
following n args = record (stepped n args.term) {
  leader_id = some args.leader_id;
  state = follower;
}

-- The node once the entries are stored and the commit index is raised.
unfoldable pub accepted : RaftNode → AppendEntriesArgs → RaftNode
accepted n args =
    committed_to (record n { log = stored_all n.log args.entries }) args.leader_commit
      (last_new args.prev_log_index args.entries)

accept_entries-node :
    (n : RaftNode) (args : AppendEntriesArgs) (fx : List SideEffect)
    → ((accept_entries n args fx).0 ≡ accepted n args)
      × ((accept_entries n args fx).1 ≡ record {
        term = n.current_term;
        success = true;
        match_index = last_new args.prev_log_index args.entries;
      })
unfolding accept_entries accepted committed_to
accept_entries-node n args fx =
    let (n', fx', last) = store_entries n args.entries args.prev_log_index fx in
    let (node, new) = store_entries-node n args.entries args.prev_log_index fx in
    let full : (accept_entries n args fx).0 ≡ accepted n args =
      follow_commit-node n' args.leader_commit last fx'
      ∙ ap₂ (λ m l. committed_to m args.leader_commit l) node new in
    (full, λ i. record { term = (full i).current_term; success = true; match_index = new i })

pub recognize_leader-node :
    (n : RaftNode) (args : AppendEntriesArgs) (fx : List SideEffect)
    → (recognize_leader n args fx).0
      ≡ record n { leader_id = some args.leader_id; state = follower }
unfolding recognize_leader
recognize_leader-node n args fx = refl

-- The reply once the entries are stored.
abbrev pub success_reply : RaftNode → AppendEntriesArgs → AppendEntriesReply
success_reply n args = record {
  term = n.current_term;
  success = true;
  match_index = last_new args.prev_log_index args.entries;
}

-- The node and the reply, without the effects.
unfoldable pub append_result : RaftNode → AppendEntriesArgs → RaftNode × AppendEntriesReply
append_result n args =
    let m = following n args in
    if ltb args.term n.current_term
    then (n, reject_append_entries n)
    else if has_matching_prev_entry m args.prev_log_index args.prev_log_term
    then (accepted m args, success_reply m args)
    else (m, reject_append_entries m)

pub handle_append_entries-result :
    (n : RaftNode) (args : AppendEntriesArgs)
    → let r = handle_append_entries n args in (r.0, r.1) ≡ append_result n args
unfolding handle_append_entries follow_leader append_result following recognize_leader
handle_append_entries-result n args =
    let (n', fx, _) = maybe_step_down n args.term [] in
    let (node, _) = maybe_step_down-stepped n args.term [] in
    let (m, fx') = recognize_leader n' args fx in
    ground (arith, node, accept_entries-node m args fx')
