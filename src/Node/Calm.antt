-- ===== src/Node/Calm.antt =====
-- Which handlers of mini-raft/raft-rust/src/node.rs ask for votes.
pub mod Appends
pub mod Votes
pub mod Leading
use mathlib.Core.Path.{subst}
use distributed_sys_lab.Prelude.{
  All, All-append, ℕ, zero, suc, ◌+◌, ◌-◌, ◌/◌, ◌≡◌, ◌∙◌, refl, sym, ap, inl, inr, Bool, true,
  false, ◌&&◌, String, Option, none, some, List, [], ◌∷◌, ◌<+◌, arith, min, ltb, leb, ◌==◌,
  if◌then◌else◌, Bool-cases, length, get_elem?, get_last?, Dict, insert, values, add, Outcome, ok,
  ◌>>=◌, unwrap, add_u64, >>=-eq-ok, ok-injective,
}
use distributed_sys_lab.Protocol
use distributed_sys_lab.Protocol.{
  NodeState, follower, candidate, leader, LogEntry, AppendEntriesArgs, AppendEntriesReply,
  RequestVoteArgs, RequestVoteReply, ClientRequestArgs, ClientRequestReply, SideEffect,
}
use distributed_sys_lab.Node.{
  RaftNode, build_log_event, maybe_step_down, build_append_entries_args, has_matching_prev_entry,
  last_index_or_zero,
}
use distributed_sys_lab.Node.Messages
use distributed_sys_lab.Node.Slices.{Offers}
use distributed_sys_lab.Node.Apply.{apply_effects, apply_loop, apply_committed}
use distributed_sys_lab.Node.AppendEntries.{
  candidate_event, recognize_leader, store_entry, store_entries, follow_commit, accept_entries,
  follow_leader, handle_append_entries,
}
use distributed_sys_lab.Node.RequestVote.{
  can_vote_for, is_up_to_date, decide_vote, handle_request_vote,
}
use distributed_sys_lab.Node.RequestVote.Laws.{VoteAnswer}
use distributed_sys_lab.Node.Client.{
  Proposal, broadcast_effects, append_command, propose_at, propose_command, handle_client_request,
}
use distributed_sys_lab.Node.Timeouts.{
  send_effects, next_index_of, heartbeats, heartbeat_at, handle_heartbeat_timeout,
}
use distributed_sys_lab.Node.VoteReply.Laws.{ReplyResult}
use distributed_sys_lab.Node.VoteReply.{
  init_indices, become_leader, count_vote, handle_request_vote_reply,
}
use distributed_sys_lab.Node.VoteReply
use distributed_sys_lab.Node.AppendReply.{
  commit_at, commit_potential, check_commit, record_success, retry, handle_append_entries_reply,
  majority_index,
}
use distributed_sys_lab.Node.AppendReply

-- An effect that asks for no votes, and sends only entries that the node offers.
abbrev pub Fine : RaftNode → SideEffect → Type 0
Fine m (Protocol.broadcast_request_vote _) = ⊥
Fine m (Protocol.broadcast_append_entries args) = Offers m args
Fine m (Protocol.send_append_entries _ args) = Offers m args
Fine m Protocol.reset_election_timer = Unit
Fine m Protocol.reset_heartbeat_timer = Unit
Fine m (Protocol.apply_entry _ _) = Unit
Fine m (Protocol.log_message _) = Unit

pub record Calm (m : RaftNode) (fx : List SideEffect) : Type 0 where
  pub calm : All (Fine m) fx

pub Calm-push :
    {m : RaftNode} {fx : List SideEffect} (e : SideEffect) → Fine m e → Calm m fx → Calm m (fx <+ e)
Calm-push {m} {fx} e c h = record { calm = All-append (Fine m) fx (e ∷ []) h.calm (c, tt) }

pub Calm-log :
    {m : RaftNode} {fx : List SideEffect} (n : RaftNode) (text : String)
    → Calm m fx
    → Calm m (fx <+ build_log_event n text)
unfolding build_log_event
Calm-log {m} {fx} n text h = Calm-push _ tt h

pub Calm-log_only :
    {m : RaftNode} (n : RaftNode) (text : String) → Calm m (build_log_event n text ∷ [])
unfolding build_log_event
Calm-log_only {m} n text = record { calm = (tt, tt) }

pub Calm-nil : {m : RaftNode} → Calm m []
Calm-nil = record { calm = tt }

pub maybe_step_down-Calm :
    {m : RaftNode} (n : RaftNode) (term : ℕ) → Calm m (maybe_step_down n term []).1
unfolding maybe_step_down
maybe_step_down-Calm n term = elim (Bool-cases (ltb n.current_term term)) [
  | inl newer ↦ rw newer (Calm-log_only _ _)
  | inr same ↦ rw same Calm-nil
]

pub apply_effects-Calm :
    {m : RaftNode} (n : RaftNode) (entry : Option LogEntry) (fx : List SideEffect)
    → Calm m fx
    → Calm m (apply_effects n entry fx)
unfolding apply_effects
apply_effects-Calm n none fx h = h
apply_effects-Calm n (some entry) fx h = Calm-log _ _ (Calm-push _ tt h)

pub apply_loop-Calm :
    {m : RaftNode} (fuel : ℕ) (n : RaftNode) (fx : List SideEffect)
    → Calm m fx
    → Calm m (apply_loop fuel n fx).1
unfolding apply_loop
apply_loop-Calm zero n fx h = h
apply_loop-Calm (suc fuel) n fx h = elim (Bool-cases (ltb n.last_applied n.committed_index)) [
  | inl more ↦
      let n' = record n { last_applied = n.last_applied + 1 } in
      rw more (
        apply_loop-Calm fuel n' _
          (apply_effects-Calm n' (get_elem? n.log (n.last_applied + 1)) fx h))
  | inr done ↦ rw done h
]

pub apply_committed-Calm :
    {m : RaftNode} (n : RaftNode) (fx : List SideEffect)
    → Calm m fx
    → Calm m (apply_committed n fx).1
unfolding apply_committed
apply_committed-Calm n fx h = apply_loop-Calm (n.committed_index - n.last_applied) n fx h
