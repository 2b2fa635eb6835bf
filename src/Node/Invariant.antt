-- ===== src/Node/Invariant.antt =====
-- The invariant of a node of mini-raft/raft-rust/src/node.rs, and what it relies on in the messages of
-- a leader.
use distributed_sys_lab.Prelude.{suc, ◌+◌, ◌-◌, ◌≤◌, ◌<◌, length, take}
use distributed_sys_lab.Protocol.{AppendEntriesArgs}
use distributed_sys_lab.Node.{RaftNode}
use distributed_sys_lab.Node.Log.{Contiguous, Agrees, IsLog}

-- Every entry stands at its own index, the committed entries are in the log, and nothing is applied
-- that is not committed.
pub record IsValid (n : RaftNode) : Type 0 where
  pub is_log : IsLog n.log
  pub committed_within : n.committed_index < length n.log
  pub applied_within : n.last_applied ≤ n.committed_index

-- What a message states about the sender's log alone: the entries follow `prev_log_index` one by one
-- and reach the leader's commit index.
pub record IsCoherent (args : AppendEntriesArgs) : Type 0 where
  pub contiguous : Contiguous (suc args.prev_log_index) args.entries
  pub covers : args.leader_commit ≤ args.prev_log_index + length args.entries

-- The entries that the message repeats below the receiver's commit index have the terms that the
-- receiver has there: what Raft's election restriction gives.
abbrev pub KeepsCommitted : RaftNode → AppendEntriesArgs → Type 0
KeepsCommitted n args =
    Agrees n.log (suc args.prev_log_index)
      (take (n.committed_index - args.prev_log_index) args.entries)
