-- ===== src/Tests/Data.antt =====
-- Three nodes, A, B and C, as the tests of mini-raft set them up.
use distributed_sys_lab.Prelude.{ℕ, String, [], ◌∷◌, none, some, Outcome, ok, panic}
use distributed_sys_lab.Protocol.{NodeState, LogEntry, AppendEntriesArgs}
use distributed_sys_lab.Node.{RaftNode, sentinel}

abbrev pub entry : ℕ → ℕ → String → LogEntry
entry term index command = record { term = term; index = index; command = command }

-- The value of a run that does not panic.
abbrev pub from_ok {ℓ} : {A : Type ℓ} → A → Outcome A → A
from_ok d (ok a) = a
from_ok d panic = d

-- A follower with two entries of term 1, the first of them committed and applied.
abbrev pub node_b : RaftNode
node_b = record {
  id = "B";
  peers = "A" ∷ "C" ∷ [];
  current_term = 1;
  voted_for = none;
  leader_id = none;
  log = sentinel ∷ entry 1 1 "cmd1" ∷ entry 1 2 "old_cmd2" ∷ [];
  state = NodeState.follower;
  committed_index = 1;
  last_applied = 1;
}

-- A leader of term 2 with an entry of its own.
abbrev pub node_a : RaftNode
node_a = record {
  id = "A";
  peers = "B" ∷ "C" ∷ [];
  current_term = 2;
  voted_for = some "A";
  leader_id = some "A";
  log = sentinel ∷ entry 1 1 "cmd1" ∷ entry 2 2 "new_cmd2" ∷ [];
  state = NodeState.leader (("B", 2) ∷ ("C", 2) ∷ []) (("B", 1) ∷ ("C", 0) ∷ []);
  committed_index = 1;
  last_applied = 1;
}

-- A candidate of term 2 with its own vote.
abbrev pub node_c : RaftNode
node_c = record {
  id = "C";
  peers = "A" ∷ "B" ∷ [];
  current_term = 2;
  voted_for = some "C";
  leader_id = none;
  log = sentinel ∷ entry 1 1 "cmd1" ∷ [];
  state = NodeState.candidate ("C" ∷ []);
  committed_index = 0;
  last_applied = 0;
}

-- What A sends to B: the entry at index 2 conflicts with B's.
abbrev pub from_a : AppendEntriesArgs
from_a = record {
  term = 2;
  leader_id = "A";
  prev_log_index = 1;
  prev_log_term = 1;
  entries = entry 2 2 "new_cmd2" ∷ entry 2 3 "new_cmd3" ∷ [];
  leader_commit = 3;
}
