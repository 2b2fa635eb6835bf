-- ===== src/Node/Steps.antt =====
-- The life of a node of mini-raft/raft-rust/src/node.rs: the steps that its handlers make, in any order
-- and with any messages, and what a node keeps over a whole run.
use mathlib.Core.Path.{subst}
use mathlib.Core.Option.{some-injective}
use distributed_sys_lab.Prelude.{
  ℕ, ◌≡◌, ◌≤◌, ◌∙◌, sym, ap, inl, inr, true, some, String, List, arith, ok,
}
use distributed_sys_lab.Protocol.{
  AppendEntriesArgs, RequestVoteArgs, AppendEntriesReply, RequestVoteReply, ClientRequestArgs,
  ClientRequestReply, SideEffect,
}
use distributed_sys_lab.Node.{RaftNode}
use distributed_sys_lab.Node.Voter.{Follows, Follows-refl, Follows-trans, SameVoter-Follows}
use distributed_sys_lab.Node.Election.{Stands}
use distributed_sys_lab.Node.AppendEntries.Laws.{after}
use distributed_sys_lab.Node.AppendEntries.Roles.{handle_append_entries-Quiet}
use distributed_sys_lab.Node.RequestVote.{handle_request_vote}
use distributed_sys_lab.Node.RequestVote.Laws.{VoteAnswer, handle_request_vote-Granted}
use distributed_sys_lab.Node.RequestVote.Roles.{handle_request_vote-Quiet}
use distributed_sys_lab.Node.Client.{handle_client_request}
use distributed_sys_lab.Node.Client.Laws.{handle_client_request-Quiet}
use distributed_sys_lab.Node.Timeouts.{handle_election_timeout}
use distributed_sys_lab.Node.Timeouts.Laws.{handle_election_timeout-Stands}
use distributed_sys_lab.Node.VoteReply.{handle_request_vote_reply}
use distributed_sys_lab.Node.VoteReply.Laws.{ReplyEffect, handle_request_vote_reply-ReplyEffect}
use distributed_sys_lab.Node.AppendReply.{handle_append_entries_reply}
use distributed_sys_lab.Node.AppendReply.Roles.{handle_append_entries_reply-Quiet}

-- One step: a handler that returned. A heartbeat timeout does not change the node.
pub data Step (n n' : RaftNode) : Type 0 where
  append_entries : (args : AppendEntriesArgs) → after n args ≡ n' → Step n n'
  request_vote :
      (args : RequestVoteArgs) (r : VoteAnswer)
      → handle_request_vote n args ≡ ok r
      → r.0 ≡ n'
      → Step n n'
  append_reply :
      (from : String) (reply : AppendEntriesReply) (r : RaftNode × List SideEffect)
      → handle_append_entries_reply n from reply ≡ ok r
      → r.0 ≡ n'
      → Step n n'
  vote_reply :
      (from : String) (reply : RequestVoteReply) (r : RaftNode × List SideEffect)
      → handle_request_vote_reply n from reply ≡ ok r
      → r.0 ≡ n'
      → Step n n'
  client_request :
      (args : ClientRequestArgs) (r : RaftNode × ClientRequestReply × List SideEffect)
      → handle_client_request n args ≡ ok r
      → r.0 ≡ n'
      → Step n n'
  election_timeout :
      (r : RaftNode × List SideEffect) → handle_election_timeout n ≡ ok r → r.0 ≡ n' → Step n n'

pub data Steps : RaftNode → RaftNode → Type 0 where
  done : (n : RaftNode) → Steps n n
  step : {a b c : RaftNode} → Step a b → Steps b c → Steps a c

pub Stands-Follows : {n n' : RaftNode} → Stands n n' → Follows n n'
Stands-Follows {n = n} {n' = n'} s = record {
  id = s.id;
  peers = s.peers;
  term = omega (arith, s.term);
  vote = λ e c h. absurd (omega (arith, s.term, e));
}

ReplyEffect-Follows :
    {n n' : RaftNode} (from : String) (reply : RequestVoteReply)
    → ReplyEffect n from reply n'
    → Follows n n'
ReplyEffect-Follows from reply (inl (q, _)) = q.follows
ReplyEffect-Follows from reply (inr (_, _, c)) = SameVoter-Follows c.same

timeout-Follows :
    (n : RaftNode) (r : RaftNode × List SideEffect)
    → handle_election_timeout n ≡ ok r
    → Follows n r.0
timeout-Follows n r h = elim (handle_election_timeout-Stands n r h) [
  | inl (_, e) ↦ subst (λ (x : RaftNode × List SideEffect). Follows n x.0) (sym e) (Follows-refl n)
  | inr (_, s) ↦ Stands-Follows s
]

pub Step-Follows : (n n' : RaftNode) → Step n n' → Follows n n'
Step-Follows n n' (append_entries args e) =
    subst (Follows n) e (handle_append_entries-Quiet n args).follows
Step-Follows n n' (request_vote args r h e) =
    subst (Follows n) e (handle_request_vote-Quiet n args r h).follows
Step-Follows n n' (append_reply from reply r h e) =
    subst (Follows n) e (handle_append_entries_reply-Quiet n from reply r h).follows
Step-Follows n n' (vote_reply from reply r h e) =
    subst (Follows n) e
      (ReplyEffect-Follows from reply (handle_request_vote_reply-ReplyEffect n from reply r h))
Step-Follows n n' (client_request args r h e) =
    subst (Follows n) e (handle_client_request-Quiet n args r h).follows
Step-Follows n n' (election_timeout r h e) = subst (Follows n) e (timeout-Follows n r h)

-- Over a run a node stays the same member of the same cluster, its term never falls, and while the term
-- stays a vote stands.
pub Steps-Follows : (n n' : RaftNode) → Steps n n' → Follows n n'
Steps-Follows n n' (done _) = Follows-refl n
Steps-Follows n n' (step {b = b} s rest) =
    Follows-trans (Step-Follows n b s) (Steps-Follows b n' rest)

-- A vote for a candidate in a term: granted to a request, or given to itself by a node that stands.
pub data Ballot (n n' : RaftNode) (candidate_id : String) (term : ℕ) : Type 0 where
  granted :
      (args : RequestVoteArgs) (r : VoteAnswer)
      → handle_request_vote n args ≡ ok r
      → r.0 ≡ n'
      → r.1.vote_granted ≡ true
      → args.candidate_id ≡ candidate_id
      → args.term ≡ term
      → Ballot n n' candidate_id term
  own :
      (r : RaftNode × List SideEffect)
      → handle_election_timeout n ≡ ok r
      → r.0 ≡ n'
      → Stands n n'
      → n.id ≡ candidate_id
      → n'.current_term ≡ term
      → Ballot n n' candidate_id term

-- After a vote the node is in its term and remembers it.
Ballot-voted :
    (n n' : RaftNode) (c : String) (term : ℕ)
    → Ballot n n' c term
    → (n'.current_term ≡ term) × (n'.voted_for ≡ some c)
Ballot-voted n n' c term (granted args r h e g c_is t_is) =
    let v = handle_request_vote-Granted n args r h g in
    (
      ap (λ (m : RaftNode). m.current_term) (sym e) ∙ v.term ∙ t_is,
      ap (λ (m : RaftNode). m.voted_for) (sym e) ∙ v.vote ∙ ap some c_is,
    )
Ballot-voted n n' c term (own r h e s c_is t_is) = (t_is, s.vote ∙ ap some c_is)

-- A node that has voted in a term votes for the same candidate only.
Ballot-again :
    (n n' : RaftNode) (c c' : String) (term : ℕ)
    → term ≤ n.current_term
    → (n.current_term ≡ term → n.voted_for ≡ some c)
    → Ballot n n' c' term
    → c ≡ c'
Ballot-again n n' c c' term reached remembers (granted args r h e g c_is t_is) =
    let v = handle_request_vote-Granted n args r h g in
    let at : n.current_term ≡ term = omega (arith, v.grants.current, t_is) in
    let voted = remembers at in
    elim v.grants.may_vote [
      | inl newer ↦ absurd (omega (arith, t_is))
      | inr (inl no_vote) ↦ cc
      | inr (inr same) ↦ some-injective c args.candidate_id (sym voted ∙ same) ∙ c_is
    ]
Ballot-again n n' c c' term reached remembers (own r h e s c_is t_is) =
    absurd (omega (arith, s.term))

-- In a term a node votes for one candidate only, whatever it does and receives between two votes.
pub Ballot-unique :
    (a b d e : RaftNode) (c c' : String) (term : ℕ)
    → Ballot a b c term
    → Steps b d
    → Ballot d e c' term
    → c ≡ c'
Ballot-unique a b d e c c' term first between second =
    let f = Steps-Follows b d between in
    let (at, voted) = Ballot-voted a b c term first in
    Ballot-again d e c c' term (omega (arith, f.term)) (λ now. f.vote (omega arith) c voted) second
