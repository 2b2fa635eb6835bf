-- ===== src/Node/Election.antt =====
-- The steps of mini-raft/raft-rust/src/node.rs as an election sees them: the role of a node without its
-- bookkeeping, and which steps change it.
use distributed_sys_lab.Prelude.{
  ℕ, ◌+◌, ◌/◌, ◌<◌, ◌≤◌, ◌≡◌, ◌∙◌, ◌⊎◌, inl, inr, refl, some, String, List, [], ◌∷◌, arith, length,
  add,
}
use distributed_sys_lab.Protocol.{NodeState}
use distributed_sys_lab.Node.{RaftNode}
use distributed_sys_lab.Node.StepDown.{stepped}
use distributed_sys_lab.Node.Voter.{
  Follows, SameVoter, SameVoter-Follows, Follows-trans, Follows-refl, stepped-Follows,
}

pub data Role : Type 0 where
  follower : Role
  candidate : (votes : List String) → Role
  leader : Role

abbrev pub role : NodeState → Role
role NodeState.follower = Role.follower
role (NodeState.candidate votes) = Role.candidate votes
role (NodeState.leader _ _) = Role.leader

-- A step without a change of role, unless the node falls back to a follower.
pub record Quiet (n n' : RaftNode) : Type 0 where
  pub follows : Follows n n'
  pub stays :
      (role n'.state ≡ Role.follower)
      ⊎ ((n'.current_term ≡ n.current_term) × (role n'.state ≡ role n.state))

-- The fields that no election changes.
pub record SameLog (n n' : RaftNode) : Type 0 where
  pub log : n'.log ≡ n.log
  pub committed : n'.committed_index ≡ n.committed_index
  pub applied : n'.last_applied ≡ n.last_applied

-- The node stands for election in the next term, and votes for itself.
pub record Stands (n n' : RaftNode) : Type 0 where
  pub id : n'.id ≡ n.id
  pub peers : n'.peers ≡ n.peers
  pub term : n'.current_term ≡ n.current_term + 1
  pub vote : n'.voted_for ≡ some n.id
  pub stands : role n'.state ≡ Role.candidate (n.id ∷ [])
  pub kept : SameLog n n'

-- A candidate counts a vote, and becomes the leader when more than half of the nodes voted for it.
pub record Counts (from : String) (n n' : RaftNode) : Type 0 where
  pub same : SameVoter n n'
  pub kept : SameLog n n'
  pub votes : List String
  pub was : role n.state ≡ Role.candidate votes
  pub becomes :
      ((role n'.state ≡ Role.candidate (add from votes))
        × (length (add from votes) ≤ (length n.peers + 1) / 2))
      ⊎ ((role n'.state ≡ Role.leader) × ((length n.peers + 1) / 2 < length (add from votes)))

pub SameLog-refl : (n : RaftNode) → SameLog n n
SameLog-refl n = record { log = refl; committed = refl; applied = refl }

pub stepped-SameLog : (n : RaftNode) (term : ℕ) → SameLog n (stepped n term)
unfolding stepped
stepped-SameLog n term = record {
  log = ground arith;
  committed = ground arith;
  applied = ground arith;
}

pub Quiet-refl : (n : RaftNode) → Quiet n n
Quiet-refl n = record { follows = Follows-refl n; stays = inr (refl, refl) }

-- A step that leaves the voter's fields and the role alone.
pub SameVoter-Quiet : {n n' : RaftNode} → SameVoter n n' → role n'.state ≡ role n.state → Quiet n n'
SameVoter-Quiet s e = record { follows = SameVoter-Follows s; stays = inr (s.term, e) }

pub stepped-Quiet : (n : RaftNode) (term : ℕ) → Quiet n (stepped n term)
unfolding stepped
stepped-Quiet n term = record { follows = stepped-Follows n term; stays = ground arith }

pub Quiet-trans :
    {a b c : RaftNode} → Quiet a b → SameVoter b c → role c.state ≡ role b.state → Quiet a c
Quiet-trans q s e = record {
  follows = Follows-trans q.follows (SameVoter-Follows s);
  stays = elim q.stays [ inl f ↦ inl (e ∙ f) | inr (t, r) ↦ inr (s.term ∙ t, e ∙ r) ];
}
