-- ===== src/Node/Calm/Leading.antt =====
-- What a leader does (mini-raft/raft-rust/src/node.rs), and requests for votes.
use mathlib.Core.Path.{subst}
use distributed_sys_lab.Prelude.{
  ℕ, ◌≡◌, refl, ap, inl, inr, String, Option, none, some, List, [], ◌∷◌, ltb, ◌==◌, Bool-cases,
  Dict, ok, add_u64, >>=-eq-ok, ok-injective,
}
use distributed_sys_lab.Protocol.{
  NodeState, follower, candidate, leader, LogEntry, AppendEntriesArgs, AppendEntriesReply,
  ClientRequestArgs, ClientRequestReply, SideEffect,
}
use distributed_sys_lab.Node.{RaftNode, maybe_step_down, last_index_or_zero}
use distributed_sys_lab.Node.Client.{
  Proposal, broadcast_effects, append_command, propose_at, propose_command, handle_client_request,
}
use distributed_sys_lab.Node.Timeouts.{
  send_effects, heartbeats, heartbeat_at, handle_heartbeat_timeout,
}
use distributed_sys_lab.Node.VoteReply.Laws.{ReplyResult}
use distributed_sys_lab.Node.AppendReply.{
  commit_at, commit_potential, check_commit, record_success, retry, handle_append_entries_reply,
  majority_index,
}
use distributed_sys_lab.Node.AppendReply
use distributed_sys_lab.Node.Election.{Role, role}
use distributed_sys_lab.Node.Slices.{Offers, build_append_entries_args-Offers}
use distributed_sys_lab.Node.Calm.{
  Calm, Calm-push, Calm-log, Calm-log_only, Calm-nil, maybe_step_down-Calm, apply_committed-Calm,
}

broadcast_effects-Calm :
    {m : RaftNode} (args : Option AppendEntriesArgs) (fx : List SideEffect)
    → ((x : AppendEntriesArgs) → args ≡ some x → Offers m x)
    → Calm m fx
    → Calm m (broadcast_effects args fx)
unfolding broadcast_effects
broadcast_effects-Calm none fx offers h = h
broadcast_effects-Calm (some args) fx offers h = Calm-push _ (offers args refl) h

propose_at-Calm :
    (s : NodeState) (n : RaftNode) (command : String) (p : Proposal)
    → n.state ≡ s
    → propose_at s n command ≡ ok p
    → Calm p.0 p.2
unfolding propose_at append_command
propose_at-Calm (leader _ _) n command p s h =
    let (index, _, done) = >>=-eq-ok (add_u64 (last_index_or_zero n.log) 1) _ h in
    subst (λ (x : Proposal). Calm x.0 x.2) (ok-injective done)
      (broadcast_effects-Calm _ _
        (λ args e. build_append_entries_args-Offers _ index args (ap role s) e) (Calm-log_only _ _))
propose_at-Calm follower n command p s h =
    subst (λ (x : Proposal). Calm x.0 x.2) (ok-injective h) (Calm-log_only _ _)
propose_at-Calm (candidate _) n command p s h =
    subst (λ (x : Proposal). Calm x.0 x.2) (ok-injective h) (Calm-log_only _ _)

pub handle_client_request-Calm :
    (n : RaftNode) (args : ClientRequestArgs) (r : RaftNode × ClientRequestReply × List SideEffect)
    → handle_client_request n args ≡ ok r
    → Calm r.0 r.2
unfolding handle_client_request propose_command
handle_client_request-Calm n args r h =
    let (p, e, done) = >>=-eq-ok (propose_at n.state n args.command) _ h in
    subst (λ (x : RaftNode × ClientRequestReply × List SideEffect). Calm x.0 x.2)
      (ok-injective done) (propose_at-Calm n.state n args.command p refl e)

send_effects-Calm :
    {m : RaftNode} (peer : String) (args : Option AppendEntriesArgs) (fx : List SideEffect)
    → ((x : AppendEntriesArgs) → args ≡ some x → Offers m x)
    → Calm m fx
    → Calm m (send_effects peer args fx)
unfolding send_effects
send_effects-Calm peer none fx offers h = h
send_effects-Calm peer (some args) fx offers h = Calm-push _ (offers args refl) h

heartbeats-Calm :
    (n : RaftNode) (next : Dict) (peers : List String) (fx : List SideEffect)
    → role n.state ≡ Role.leader
    → Calm n fx
    → Calm n (heartbeats n next peers fx)
unfolding heartbeats
heartbeats-Calm n next [] fx leads h = h
heartbeats-Calm n next (peer ∷ peers) fx leads h =
    heartbeats-Calm n next peers _ leads
      (send_effects-Calm peer _ fx (λ args e. build_append_entries_args-Offers n _ args leads e) h)

heartbeat_at-Calm : (s : NodeState) (n : RaftNode) → n.state ≡ s → Calm n (heartbeat_at s n)
unfolding heartbeat_at
heartbeat_at-Calm (leader next _) n s =
    Calm-push _ tt (heartbeats-Calm n next n.peers _ (ap role s) (Calm-log_only _ _))
heartbeat_at-Calm follower n s = Calm-nil
heartbeat_at-Calm (candidate _) n s = Calm-nil

pub handle_heartbeat_timeout-Calm : (n : RaftNode) → Calm n (handle_heartbeat_timeout n)
unfolding handle_heartbeat_timeout
handle_heartbeat_timeout-Calm n = heartbeat_at-Calm n.state n refl

commit_at-Calm :
    {m : RaftNode} (n : RaftNode) (potential : ℕ) (entry : Option LogEntry) (fx : List SideEffect)
    → Calm m fx
    → Calm m (commit_at n potential entry fx).1
unfolding commit_at
commit_at-Calm n potential none fx h = h
commit_at-Calm n potential (some entry) fx h = elim (Bool-cases (entry.term == n.current_term)) [
  | inl now ↦ rw now (apply_committed-Calm _ _ (Calm-log _ _ h))
  | inr old ↦ rw old h
]

commit_potential-Calm :
    {m : RaftNode} (n : RaftNode) (potential : ℕ) (fx : List SideEffect)
    → Calm m fx
    → Calm m (commit_potential n potential fx).1
unfolding commit_potential
commit_potential-Calm n potential fx h = elim (Bool-cases (ltb n.committed_index potential)) [
  | inl high ↦ rw high (commit_at-Calm n potential _ fx h)
  | inr low ↦ rw low h
]

check_commit-Calm :
    {m : RaftNode} (n : RaftNode) (ms : List ℕ) (fx : List SideEffect) (r : ReplyResult)
    → check_commit n ms fx ≡ ok r
    → Calm m fx
    → Calm m r.1
unfolding check_commit
check_commit-Calm {m} n [] fx r h c = subst (λ (x : ReplyResult). Calm m x.1) (ok-injective h) c
check_commit-Calm {m} n (k ∷ ms) fx r h c =
    let (potential, _, done) = >>=-eq-ok (majority_index n (k ∷ ms)) _ h in
    subst (λ (x : ReplyResult). Calm m x.1) (ok-injective done)
      (commit_potential-Calm n potential fx c)

append_reply_at-Calm :
    (s : NodeState) (n : RaftNode) (from : String) (reply : AppendEntriesReply)
    (fx : List SideEffect) (r : ReplyResult)
    → AppendReply.reply_at s n from reply fx ≡ ok r
    → Calm r.0 fx
    → Calm r.0 r.1
unfolding AppendReply.reply_at record_success retry
append_reply_at-Calm (leader next match) n from reply fx r h c = elim (Bool-cases reply.success) [
  | inl good ↦
      let (k, _, done) = >>=-eq-ok (add_u64 reply.match_index 1) _ (rw good at h) in
      check_commit-Calm _ _ _ r done (Calm-log _ _ c)
  | inr bad ↦
      subst (λ (x : ReplyResult). Calm x.0 fx → Calm x.0 x.1) (ok-injective (rw bad at h))
        (λ calm.
          send_effects-Calm from _ _ (λ args e. build_append_entries_args-Offers _ _ args refl e)
            (Calm-log _ _ calm))
        c
]
append_reply_at-Calm follower n from reply fx r h c =
    subst (λ (x : ReplyResult). Calm r.0 x.1) (ok-injective h) c
append_reply_at-Calm (candidate _) n from reply fx r h c =
    subst (λ (x : ReplyResult). Calm r.0 x.1) (ok-injective h) c

pub handle_append_entries_reply-Calm :
    (n : RaftNode) (from : String) (reply : AppendEntriesReply) (r : ReplyResult)
    → handle_append_entries_reply n from reply ≡ ok r
    → Calm r.0 r.1
unfolding handle_append_entries_reply
handle_append_entries_reply-Calm n from reply r h =
    let (n', fx, stepped_down) = maybe_step_down n reply.term [] in
    let calm = maybe_step_down-Calm n reply.term in
    elim (Bool-cases stepped_down) [
      | inl newer ↦ subst (λ (x : ReplyResult). Calm r.0 x.1) (ok-injective (rw newer at h)) calm
      | inr same ↦ elim (Bool-cases (reply.term == n'.current_term)) [
        | inl now ↦
            append_reply_at-Calm n'.state n' from reply _ r (rw (same, now) at h)
              (Calm-log _ _ calm)
        | inr old ↦
            subst (λ (x : ReplyResult). Calm r.0 x.1) (ok-injective (rw (same, old) at h)) calm
      ]
    ]
