-- ===== src/Node/VoteReply/Laws.antt =====
-- What `handle_request_vote_reply` (mini-raft/raft-rust/src/node.rs) does to an election.
use mathlib.Core.Path.{subst}
use distributed_sys_lab.Prelude.{
  ◌<◌, ◌≤◌, ◌≢◌, ◌+◌, ◌/◌, ◌≡◌, ◌∙◌, ◌⊎◌, ◌&&◌, inl, inr, refl, sym, ap, some, String, true, List,
  [], arith, get_last?, ok, >>=-eq-ok, ok-injective, unwrap, add, length, ltb, ltb→lt, ltb→le, ◌==◌,
  Bool-cases, ◌<+◌, Dict,
}
use distributed_sys_lab.Protocol.{
  NodeState, follower, candidate, leader, SideEffect, RequestVoteReply,
}
use distributed_sys_lab.Node.{RaftNode, maybe_step_down, build_log_event}
use distributed_sys_lab.Node.Messages
use distributed_sys_lab.Node.StepDown.{
  adopted, adopted-stepped, stepped-adopted, stepped_same, maybe_step_down-stepped,
}
use distributed_sys_lab.Node.Election.{
  Role, role, Quiet, SameLog, SameLog-refl, stepped-SameLog, Quiet-refl, stepped-Quiet, Counts,
}
use distributed_sys_lab.Node.VoteReply.{
  init_indices, become_leader, count_vote, reply_at, handle_request_vote_reply,
}

abbrev pub ReplyResult : Type 0
ReplyResult = RaftNode × List SideEffect

-- The fields that winning sets.
abbrev leads : RaftNode → Dict → Dict → RaftNode
leads n next_indices match_indices = record n {
  state = leader next_indices match_indices;
  leader_id = some n.id;
}

become_leader-leads :
    (n : RaftNode) (fx : List SideEffect) (r : ReplyResult)
    → become_leader n fx ≡ ok r
    → (d : Dict × Dict) × (r.0 ≡ leads n d.0 d.1)
unfolding become_leader
become_leader-leads n fx r h =
    let (last, got, rest) = >>=-eq-ok (unwrap (get_last? n.log)) _ h in
    let (d, filled, done) = >>=-eq-ok (init_indices n.peers last.index [] []) _ rest in
    (d, ap (λ (x : ReplyResult). x.0) (sym (ok-injective done)))

-- A vote that is counted, for a node whose votes so far are known.
pub count_vote-Counts :
    (n : RaftNode) (votes : List String) (from : String) (fx : List SideEffect) (r : ReplyResult)
    → role n.state ≡ Role.candidate votes
    → count_vote n votes from fx ≡ ok r
    → Counts from n r.0
unfolding count_vote
count_vote-Counts n votes from fx r was h =
    elim (Bool-cases (ltb ((length n.peers + 1) / 2) (length (add from votes)))) [
      | inl won ↦
          let n' = record n { state = candidate (add from votes) } in
          let fx' =
            fx <+ build_log_event n' (Messages.received_vote from (length (add from votes))) in
          let (d, node) = become_leader-leads n' fx' r (rw won at h) in
          record {
            same = record {
              id = ap (λ (m : RaftNode). m.id) node;
              peers = ap (λ (m : RaftNode). m.peers) node;
              term = ap (λ (m : RaftNode). m.current_term) node;
              vote = ap (λ (m : RaftNode). m.voted_for) node;
            };
            kept = record {
              log = ap (λ (m : RaftNode). m.log) node;
              committed = ap (λ (m : RaftNode). m.committed_index) node;
              applied = ap (λ (m : RaftNode). m.last_applied) node;
            };
            votes = votes;
            was = was;
            becomes = inr (ap (λ (m : RaftNode). role m.state) node, ltb→lt _ _ won);
          }
      | inr short ↦
          let e = sym (ok-injective (rw short at h)) in
          record {
            same = record {
              id = ap (λ (x : ReplyResult). x.0.id) e;
              peers = ap (λ (x : ReplyResult). x.0.peers) e;
              term = ap (λ (x : ReplyResult). x.0.current_term) e;
              vote = ap (λ (x : ReplyResult). x.0.voted_for) e;
            };
            kept = record {
              log = ap (λ (x : ReplyResult). x.0.log) e;
              committed = ap (λ (x : ReplyResult). x.0.committed_index) e;
              applied = ap (λ (x : ReplyResult). x.0.last_applied) e;
            };
            votes = votes;
            was = was;
            becomes = inl (ap (λ (x : ReplyResult). role x.0.state) e, ltb→le _ _ short);
          }
    ]

-- A vote for a candidate, in its own term.
abbrev pub IsVote : RaftNode → RequestVoteReply → List String → Type 0
IsVote n reply votes =
    (role n.state ≡ Role.candidate votes)
    × (reply.term ≡ n.current_term)
    × (reply.vote_granted ≡ true)

-- What a vote reply does: a newer term is adopted; a vote for a candidate in its own term is counted; any
-- other reply is ignored.
pub data VoteReplied (n : RaftNode) (from : String) (reply : RequestVoteReply) (n' : RaftNode)
    : Type 0 where
  newer : n.current_term < reply.term → n' ≡ adopted n reply.term → VoteReplied n from reply n'
  counted : (c : Counts from n n') → IsVote n reply c.votes → VoteReplied n from reply n'
  ignored :
      reply.term ≤ n.current_term
      → ((votes : List String) → IsVote n reply votes → ⊥)
      → n' ≡ n
      → VoteReplied n from reply n'

no_candidate-VoteReplied :
    (n : RaftNode) (from : String) (reply : RequestVoteReply) (fx : List SideEffect)
    (r : ReplyResult)
    → reply.term ≤ n.current_term
    → ((votes : List String) → role n.state ≢ Role.candidate votes)
    → ok (n, fx) ≡ ok r
    → VoteReplied n from reply r.0
no_candidate-VoteReplied n from reply fx r old other h =
    ignored old (λ votes v. other votes v.0) (ap (λ (x : ReplyResult). x.0) (sym (ok-injective h)))

reply_at-VoteReplied :
    (s : NodeState) (n : RaftNode) (from : String) (reply : RequestVoteReply) (fx : List SideEffect)
    (r : ReplyResult)
    → s ≡ n.state
    → reply.term ≤ n.current_term
    → reply_at s n from reply fx ≡ ok r
    → VoteReplied n from reply r.0
unfolding reply_at
reply_at-VoteReplied (candidate votes) n from reply fx r s old h =
    elim (Bool-cases ((reply.term == n.current_term) && reply.vote_granted)) [
      | inl good ↦
          let c = count_vote-Counts n votes from fx r (ap role (sym s)) (rw good at h) in
          counted c (c.was, ground (arith, good), ground (arith, good))
      | inr bad ↦
          ignored old (λ votes v. ground (arith, bad, v.1, v.2))
            (ap (λ (x : ReplyResult). x.0) (sym (ok-injective (rw bad at h))))
    ]
reply_at-VoteReplied follower n from reply fx r s old h =
    no_candidate-VoteReplied n from reply fx r old (λ votes e. cc (ap role s, e)) h
reply_at-VoteReplied (leader _ _) n from reply fx r s old h =
    no_candidate-VoteReplied n from reply fx r old (λ votes e. cc (ap role s, e)) h

-- Every reply to a request for votes that is handled has one of three outcomes. A newer term is adopted as a
-- follower without a vote and a leader. A vote that a candidate is granted in its own term is counted: the
-- sender joins the votes, and the node leads when these are more than half of the nodes, and goes on as a
-- candidate when they are not. Any other reply leaves the node as it is.
pub handle_request_vote_reply_lem :
    (n : RaftNode) (from : String) (reply : RequestVoteReply) (r : ReplyResult)
    → handle_request_vote_reply n from reply ≡ ok r
    → VoteReplied n from reply r.0
unfolding handle_request_vote_reply
handle_request_vote_reply_lem n from reply r h =
    let (n', fx, stepped_down) = maybe_step_down n reply.term [] in
    let (node, flag) = maybe_step_down-stepped n reply.term [] in
    elim (Bool-cases (ltb n.current_term reply.term)) [
      | inl higher ↦
          let e = ok-injective (rw (flag, higher) at h) in
          newer (ltb→lt _ _ higher)
            (ap (λ (x : ReplyResult). x.0) (sym e) ∙ node ∙ stepped-adopted n reply.term higher)
      | inr current ↦
          let same : n' ≡ n = node ∙ stepped_same n reply.term current in
          subst (λ m. VoteReplied m from reply r.0) same
            (reply_at-VoteReplied n'.state n' from reply fx r refl (ground (arith, current, same))
              (rw (flag, current) at h))
    ]

-- What an election sees of a vote reply: nothing, or a granted vote of this term that is counted.
abbrev pub ReplyEffect : RaftNode → String → RequestVoteReply → RaftNode → Type 0
ReplyEffect n from reply n' =
    (Quiet n n' × SameLog n n')
    ⊎ ((reply.term ≡ n.current_term) × (reply.vote_granted ≡ true) × Counts from n n')

VoteReplied-ReplyEffect :
    (n : RaftNode) (from : String) (reply : RequestVoteReply) (n' : RaftNode)
    → VoteReplied n from reply n'
    → ReplyEffect n from reply n'
VoteReplied-ReplyEffect n from reply n' (newer up e) = inl (
    subst (λ m. Quiet n m × SameLog n m) (sym (e ∙ adopted-stepped n reply.term up))
      (stepped-Quiet n reply.term, stepped-SameLog n reply.term))
VoteReplied-ReplyEffect n from reply n' (counted c (_, now, good)) = inr (now, good, c)
VoteReplied-ReplyEffect n from reply n' (ignored _ _ e) =
    inl (subst (λ m. Quiet n m × SameLog n m) (sym e) (Quiet-refl n, SameLog-refl n))

pub handle_request_vote_reply-ReplyEffect :
    (n : RaftNode) (from : String) (reply : RequestVoteReply) (r : ReplyResult)
    → handle_request_vote_reply n from reply ≡ ok r
    → ReplyEffect n from reply r.0
handle_request_vote_reply-ReplyEffect n from reply r h =
    VoteReplied-ReplyEffect n from reply r.0 (handle_request_vote_reply_lem n from reply r h)
