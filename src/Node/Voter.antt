-- ===== src/Node/Voter.antt =====
-- What a node of mini-raft/raft-rust/src/node.rs remembers of its votes, and how long.
use distributed_sys_lab.Prelude.{ℕ, ◌≤◌, ◌≡◌, ◌∙◌, refl, some, String, arith}
use distributed_sys_lab.Node.{RaftNode}
use distributed_sys_lab.Node.StepDown.{stepped}

-- The later node is the same member in the same or a later term; within a term a vote stands.
pub record Follows (n n' : RaftNode) : Type 0 where
  pub id : n'.id ≡ n.id
  pub peers : n'.peers ≡ n.peers
  pub term : n.current_term ≤ n'.current_term
  pub vote :
      n'.current_term ≡ n.current_term → (c : String) → n.voted_for ≡ some c → n'.voted_for ≡ some c

-- The fields that only elections change.
pub record SameVoter (n n' : RaftNode) : Type 0 where
  pub id : n'.id ≡ n.id
  pub peers : n'.peers ≡ n.peers
  pub term : n'.current_term ≡ n.current_term
  pub vote : n'.voted_for ≡ n.voted_for

pub SameVoter-refl : (n : RaftNode) → SameVoter n n
SameVoter-refl n = record { id = refl; peers = refl; term = refl; vote = refl }

pub SameVoter-trans : {a b c : RaftNode} → SameVoter a b → SameVoter b c → SameVoter a c
SameVoter-trans s t = record {
  id = t.id ∙ s.id;
  peers = t.peers ∙ s.peers;
  term = t.term ∙ s.term;
  vote = t.vote ∙ s.vote;
}

pub SameVoter-Follows : {n n' : RaftNode} → SameVoter n n' → Follows n n'
SameVoter-Follows s = record {
  id = s.id;
  peers = s.peers;
  term = omega arith;
  vote = λ e c h. s.vote ∙ h;
}

pub Follows-refl : (n : RaftNode) → Follows n n
Follows-refl n = SameVoter-Follows (SameVoter-refl n)

pub Follows-trans : {a b c : RaftNode} → Follows a b → Follows b c → Follows a c
Follows-trans s t = record {
  id = t.id ∙ s.id;
  peers = t.peers ∙ s.peers;
  term = omega arith;
  vote = λ e v h. t.vote (omega arith) v (s.vote (omega arith) v h);
}

pub stepped-Follows : (n : RaftNode) (term : ℕ) → Follows n (stepped n term)
unfolding stepped
stepped-Follows n term = record {
  id = ground arith;
  peers = ground arith;
  term = ground arith;
  vote = λ e c h. ground arith;
}
