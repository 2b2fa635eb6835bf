-- ===== src/Node/Calm/Votes.antt =====
-- Votes and the replies to them (mini-raft/raft-rust/src/node.rs), and requests for votes.
use mathlib.Core.Path.{subst}
use distributed_sys_lab.Prelude.{
  ◌+◌, ◌/◌, ◌≡◌, refl, inl, inr, ◌&&◌, String, List, [], ◌<+◌, ltb, ◌==◌, Bool-cases, length,
  get_last?, add, ok, unwrap, >>=-eq-ok, ok-injective,
}
use distributed_sys_lab.Protocol.{
  NodeState, follower, candidate, leader, LogEntry, RequestVoteArgs, RequestVoteReply, SideEffect,
}
use distributed_sys_lab.Node.{RaftNode, build_log_event, maybe_step_down}
use distributed_sys_lab.Node.Messages
use distributed_sys_lab.Node.RequestVote.{
  can_vote_for, is_up_to_date, decide_vote, handle_request_vote,
}
use distributed_sys_lab.Node.RequestVote.Laws.{VoteAnswer}
use distributed_sys_lab.Node.VoteReply.Laws.{ReplyResult}
use distributed_sys_lab.Node.VoteReply.{
  init_indices, become_leader, count_vote, handle_request_vote_reply,
}
use distributed_sys_lab.Node.VoteReply
use distributed_sys_lab.Node.Slices.{empty}
use distributed_sys_lab.Node.Calm.{Calm, Calm-push, Calm-log, Calm-log_only, maybe_step_down-Calm}

decide_vote-Calm :
    {m : RaftNode} (n : RaftNode) (args : RequestVoteArgs) (last : LogEntry) (fx : List SideEffect)
    → Calm m fx
    → Calm m (decide_vote n args last fx).2
unfolding decide_vote
decide_vote-Calm n args last fx h =
    elim (Bool-cases (can_vote_for n.voted_for args.candidate_id && is_up_to_date args last)) [
      | inl granted ↦ rw granted (Calm-log _ _ (Calm-push _ tt h))
      | inr refused ↦ rw refused (Calm-log _ _ h)
    ]

pub handle_request_vote-Calm :
    {m : RaftNode} (n : RaftNode) (args : RequestVoteArgs) (r : VoteAnswer)
    → handle_request_vote n args ≡ ok r
    → Calm m r.2
unfolding handle_request_vote
handle_request_vote-Calm {m} n args r h = elim (Bool-cases (ltb args.term n.current_term)) [
  | inl old ↦
      subst (λ (x : VoteAnswer). Calm m x.2) (ok-injective (rw old at h)) (Calm-log_only _ _)
  | inr new ↦
      let (n', fx, _) = maybe_step_down n args.term [] in
      let (last, _, done) = >>=-eq-ok (unwrap (get_last? n'.log)) _ (rw new at h) in
      subst (λ (x : VoteAnswer). Calm m x.2) (ok-injective done)
        (decide_vote-Calm n' args last fx (maybe_step_down-Calm n args.term))
]

become_leader-Calm :
    (n : RaftNode) (fx : List SideEffect) (r : ReplyResult)
    → become_leader n fx ≡ ok r
    → Calm r.0 fx
    → Calm r.0 r.1
unfolding become_leader
become_leader-Calm n fx r h c =
    let (last, _, rest) = >>=-eq-ok (unwrap (get_last? n.log)) _ h in
    let (d, _, done) = >>=-eq-ok (init_indices n.peers last.index [] []) _ rest in
    subst (λ (x : ReplyResult). Calm x.0 fx → Calm x.0 x.1) (ok-injective done)
      (λ calm. Calm-push _ tt (
        Calm-push _ (record { leads = refl; term = refl; commit = refl; slice = empty refl })
          (Calm-log _ _ calm)))
      c

count_vote-Calm :
    (n : RaftNode) (votes : List String) (from : String) (fx : List SideEffect) (r : ReplyResult)
    → count_vote n votes from fx ≡ ok r
    → Calm r.0 fx
    → Calm r.0 r.1
unfolding count_vote
count_vote-Calm n votes from fx r h c =
    elim (Bool-cases (ltb ((length n.peers + 1) / 2) (length (add from votes)))) [
      | inl won ↦
          let n' = record n { state = candidate (add from votes) } in
          let fx' =
            fx <+ build_log_event n' (Messages.received_vote from (length (add from votes))) in
          become_leader-Calm n' fx' r (rw won at h) (Calm-log _ _ c)
      | inr short ↦
          subst (λ (x : ReplyResult). Calm r.0 x.1) (ok-injective (rw short at h)) (Calm-log _ _ c)
    ]

vote_reply_at-Calm :
    (s : NodeState) (n : RaftNode) (from : String) (reply : RequestVoteReply) (fx : List SideEffect)
    (r : ReplyResult)
    → VoteReply.reply_at s n from reply fx ≡ ok r
    → Calm r.0 fx
    → Calm r.0 r.1
unfolding VoteReply.reply_at
vote_reply_at-Calm (candidate votes) n from reply fx r h c =
    elim (Bool-cases ((reply.term == n.current_term) && reply.vote_granted)) [
      | inl counted ↦ count_vote-Calm n votes from fx r (rw counted at h) c
      | inr other ↦ elim (Bool-cases reply.vote_granted) [
        | inl granted ↦
            subst (λ (x : ReplyResult). Calm r.0 x.1) (ok-injective (rw (other, granted) at h)) c
        | inr denied ↦
            subst (λ (x : ReplyResult). Calm r.0 x.1) (ok-injective (rw (other, denied) at h))
              (Calm-log _ _ c)
      ]
    ]
vote_reply_at-Calm follower n from reply fx r h c =
    subst (λ (x : ReplyResult). Calm r.0 x.1) (ok-injective h) c
vote_reply_at-Calm (leader _ _) n from reply fx r h c =
    subst (λ (x : ReplyResult). Calm r.0 x.1) (ok-injective h) c

pub handle_request_vote_reply-Calm :
    (n : RaftNode) (from : String) (reply : RequestVoteReply) (r : ReplyResult)
    → handle_request_vote_reply n from reply ≡ ok r
    → Calm r.0 r.1
unfolding handle_request_vote_reply
handle_request_vote_reply-Calm n from reply r h =
    let (n', fx, stepped_down) = maybe_step_down n reply.term [] in
    let calm = maybe_step_down-Calm n reply.term in
    elim (Bool-cases stepped_down) [
      | inl newer ↦ subst (λ (x : ReplyResult). Calm r.0 x.1) (ok-injective (rw newer at h)) calm
      | inr same ↦ vote_reply_at-Calm n'.state n' from reply fx r (rw same at h) calm
    ]
