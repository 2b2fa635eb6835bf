-- ===== src/Node/AppendReply.antt =====
-- `RaftNode::handle_append_entries_reply` of mini-raft/raft-rust/src/node.rs.
pub mod Laws
pub mod Commit
pub mod Quorum
pub mod Roles
use distributed_sys_lab.Prelude.{
  ℕ, ◌+◌, ◌-◌, ◌/◌, max, String, Option, none, some, List, [], ◌∷◌, ltb, ◌==◌, if◌then◌else◌,
  length, get_elem?, get_last?, ◌<+◌, Dict, insert, values, sort, Outcome, ok, ◌>>=◌, unwrap,
  add_u64,
}
use distributed_sys_lab.Protocol.{NodeState, leader, LogEntry, AppendEntriesReply, SideEffect}
use distributed_sys_lab.Node.{RaftNode, build_log_event, maybe_step_down, build_append_entries_args}
use distributed_sys_lab.Node.Messages
use distributed_sys_lab.Node.Apply.{apply_committed}
use distributed_sys_lab.Node.Timeouts.{next_index_of, send_effects}

-- `(N / 2) + 1` for the peers and the leader itself
unfoldable pub majority : RaftNode → ℕ
majority n = (length n.peers + 1) / 2 + 1

-- The match index that a majority has reached, of the peers' match indices and the leader's last.
unfoldable pub majority_index : RaftNode → List ℕ → Outcome ℕ
unfolding majority
majority_index n match_array = unwrap (get_last? n.log) >>= λ last.
    let sorted = sort (match_array <+ last.index) in
    unwrap (get_elem? sorted (length sorted - majority n))

-- Figure 8: only an entry of the current term is committed by counting.
unfoldable pub commit_at :
    RaftNode → ℕ → Option LogEntry → List SideEffect → RaftNode × List SideEffect
commit_at n potential none side_effects = (n, side_effects)
commit_at n potential (some entry) side_effects =
    if entry.term == n.current_term
    then (let n' = record n { committed_index = potential } in
        apply_committed n'
          (side_effects <+ build_log_event n' (Messages.leader_committed potential)))
    else (n, side_effects)

unfoldable pub commit_potential : RaftNode → ℕ → List SideEffect → RaftNode × List SideEffect
unfolding commit_at
commit_potential n potential side_effects =
    if ltb n.committed_index potential
    then commit_at n potential (get_elem? n.log potential) side_effects
    else (n, side_effects)

-- Phase 4.2; `match_array` is `match_indices.values()`, in whatever order.
unfoldable pub check_commit :
    RaftNode → List ℕ → List SideEffect → Outcome (RaftNode × List SideEffect)
unfolding commit_potential
check_commit n [] side_effects = ok (n, side_effects)
check_commit n (m ∷ match_array) side_effects = majority_index n (m ∷ match_array) >>= λ potential.
    ok (commit_potential n potential side_effects)

-- A success: record the match index, raise the next index, and look for a new commit.
unfoldable pub record_success :
    RaftNode
    → Dict
    → Dict
    → String
    → AppendEntriesReply
    → List SideEffect
    → Outcome (RaftNode × List SideEffect)
unfolding check_commit
record_success n next_indices match_indices from reply side_effects =
    add_u64 reply.match_index 1 >>= λ next.
    let next' =
      if ltb (next_index_of next_indices from) next
      then insert from next next_indices
      else next_indices in
    let match' = insert from reply.match_index match_indices in
    let n' = record n { state = leader next' match' } in
    check_commit n' (values match')
      (side_effects <+ build_log_event n' (Messages.updated_match_index from reply.match_index))

-- `match_index` is the follower's last index, a hint. `match_index + 1` cannot overflow: it is at
-- most the next index.
unfoldable pub retry_index : ℕ → ℕ → ℕ
retry_index match_index next_index =
    if ltb match_index next_index then match_index + 1 else max (next_index - 1) 1

-- A failure: lower the next index and send again.
unfoldable pub retry :
    RaftNode
    → Dict
    → Dict
    → String
    → AppendEntriesReply
    → List SideEffect
    → RaftNode × List SideEffect
unfolding retry_index
retry n next_indices match_indices from reply side_effects =
    let next = retry_index reply.match_index (next_index_of next_indices from) in
    let n' = record n { state = leader (insert from next next_indices) match_indices } in
    (
      n',
      send_effects from (build_append_entries_args n' next)
          (side_effects <+ build_log_event n' (Messages.retrying from next)),
    )

unfoldable pub reply_at :
    NodeState
    → RaftNode
    → String
    → AppendEntriesReply
    → List SideEffect
    → Outcome (RaftNode × List SideEffect)
unfolding record_success retry
reply_at (leader next_indices match_indices) n from reply side_effects =
    if reply.success
    then record_success n next_indices match_indices from reply side_effects
    else ok (retry n next_indices match_indices from reply side_effects)
reply_at _ n from reply side_effects = ok (n, side_effects)

unfoldable pub receipt : String → AppendEntriesReply → String
receipt from reply =
    if reply.success
    then Messages.received_success from reply.match_index
    else Messages.received_failure from

unfoldable pub handle_append_entries_reply :
    RaftNode → String → AppendEntriesReply → Outcome (RaftNode × List SideEffect)
unfolding reply_at receipt
handle_append_entries_reply n from reply =
    let (n', side_effects, stepped_down) = maybe_step_down n reply.term [] in
    if stepped_down
    then ok (n', side_effects)
    else if reply.term == n'.current_term
    then reply_at n'.state n' from reply (side_effects <+ build_log_event n' (receipt from reply))
    else ok (n', side_effects)
