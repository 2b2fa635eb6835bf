-- ===== src/Cluster/Votes.antt =====
-- Why a turn of mini-raft/raft-rust/src/node.rs claims a vote.
use distributed_sys_lab.Prelude.{ℕ, ◌≡◌, some, String, Option, get_last?}
use distributed_sys_lab.Protocol.{Message, LogEntry, RequestVoteArgs}
use distributed_sys_lab.Node.{RaftNode}
use distributed_sys_lab.Node.Election.{Stands}
use distributed_sys_lab.Node.RequestVote.Laws.{IsUpToDate}
use distributed_sys_lab.Engine.{Platform}
use distributed_sys_lab.Cluster.Claims.{Causes}

module _ (p : Platform) where
  -- The node stands, or grants a request whose log is at least as up to date as its own.
  pub data VoteCause (line : Option (Message p.Value)) (n n' : RaftNode) (c : String) (term : ℕ)
      : Type 0 where
    stood : Stands n n' → n'.id ≡ c → n'.current_term ≡ term → VoteCause line n n' c term
    granted_to :
        (m : Message p.Value) (args : RequestVoteArgs) (last : LogEntry)
        → line ≡ some m
        → m.message_type ≡ "RequestVote"
        → p.request_vote.from_value m.payload ≡ some args
        → get_last? n.log ≡ some last
        → IsUpToDate args last
        → args.candidate_id ≡ c
        → args.term ≡ term
        → VoteCause line n n' c term

  abbrev pub causes : Option (Message p.Value) → RaftNode → RaftNode → Causes
  causes line n n' = record { vote = VoteCause line n n' }
