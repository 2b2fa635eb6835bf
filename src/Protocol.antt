-- ===== src/Protocol.antt =====
-- mini-raft/raft-rust/src/protocol.rs: the data that nodes keep and exchange. A `u64` is a native
-- number; what overflows is written out where the code adds. The `serde` derivations belong to that
-- package.
use distributed_sys_lab.Prelude.{ℕ, String, Bool, Option, List, Dict}

-- `HashSet<String>` is a list without repetitions, `HashMap<String, u64>` an association list.
pub data NodeState : Type 0 where
  follower : NodeState
  candidate : (votes_received : List String) → NodeState
  leader : (next_indices match_indices : Dict) → NodeState

pub record LogEntry : Type 0 where
  pub term : ℕ
  pub index : ℕ
  pub command : String

pub record RequestVoteArgs : Type 0 where
  pub term : ℕ
  pub candidate_id : String
  pub last_log_index : ℕ
  pub last_log_term : ℕ

pub record RequestVoteReply : Type 0 where
  pub term : ℕ
  pub vote_granted : Bool

pub record AppendEntriesArgs : Type 0 where
  pub term : ℕ
  pub leader_id : String
  pub prev_log_index : ℕ
  pub prev_log_term : ℕ
  pub entries : List LogEntry
  pub leader_commit : ℕ

pub record AppendEntriesReply : Type 0 where
  pub term : ℕ
  pub success : Bool
  pub match_index : ℕ

pub record ClientRequestArgs : Type 0 where
  pub command : String

pub record ClientRequestReply : Type 0 where
  pub success : Bool
  pub leader_id : Option String
  pub response : String

-- What a node decides; the engine executes it.
pub data SideEffect : Type 0 where
  reset_election_timer : SideEffect
  reset_heartbeat_timer : SideEffect
  broadcast_request_vote : RequestVoteArgs → SideEffect
  broadcast_append_entries : AppendEntriesArgs → SideEffect
  send_append_entries : (target_id : String) → AppendEntriesArgs → SideEffect
  apply_entry : (index : ℕ) (command : String) → SideEffect
  log_message : String → SideEffect

-- The envelope; `Value` is that of `serde_json`, and `message_type` is the field `type`.
pub record Message (Value : Type 0) : Type 0 where
  pub from : String
  pub to : String
  pub message_type : String
  pub payload : Value
