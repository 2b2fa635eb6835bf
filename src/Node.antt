-- ===== src/Node.antt =====
-- mini-raft/raft-rust/src/node.rs: `RaftNode`, its constructor and its private helpers. A method
-- takes the node and returns the new one beside its result; `side_effects` is threaded through.
pub mod Messages
pub mod Log
pub mod Invariant
pub mod StepDown
pub mod Voter
pub mod Election
pub mod Apply
pub mod AppendEntries
pub mod RequestVote
pub mod Client
pub mod Timeouts
pub mod VoteReply
pub mod AppendReply
pub mod Replication
pub mod Retry
pub mod Steps
pub mod Runs
pub mod Slices
pub mod Matching
pub mod Calm
pub mod Answers
use Prim.Native.String.{◌++◌ as str_append}
use distributed_sys_lab.Prelude.{
  ℕ, String, Bool, true, false, Option, none, some, List, [], ◌∷◌, ◌-◌, show_u64, ltb, ◌==◌,
  if◌then◌else◌, length, get_elem?, get_last?, drop, ◌<+◌,
}
use distributed_sys_lab.Protocol.{
  NodeState, follower, candidate, leader, LogEntry, AppendEntriesArgs, AppendEntriesReply,
  SideEffect, log_message,
}
use Messages

pub record RaftNode : Type 0 where
  pub id : String
  pub peers : List String
  pub current_term : ℕ
  pub voted_for : Option String
  pub leader_id : Option String
  pub log : List LogEntry
  pub state : NodeState
  pub committed_index : ℕ
  pub last_applied : ℕ

abbrev pub sentinel : LogEntry
sentinel = record { term = 0; index = 0; command = "sentinel" }

unfoldable pub new : String → List String → RaftNode
new id peers = record {
  id = id;
  peers = peers;
  current_term = 0;
  voted_for = none;
  leader_id = none;
  log = sentinel ∷ [];
  state = follower;
  committed_index = 0;
  last_applied = 0;
}

unfoldable pub state_str : NodeState → String
state_str follower = "Follower"
state_str (candidate _) = "Candidate"
state_str (leader _ _) = "Leader"

unfoldable pub get_state_str : RaftNode → String
unfolding state_str
get_state_str n = state_str n.state

unfoldable pub build_log_event : RaftNode → String → SideEffect
build_log_event n message = log_message (
    str_append "[T=" (
      str_append (show_u64 n.current_term) (
        str_append "][Node=" (
          str_append n.id
            (str_append "][" (str_append (get_state_str n) (str_append "] " message)))))))

unfoldable pub has_matching_prev_entry : RaftNode → ℕ → ℕ → Bool
has_matching_prev_entry n index term = elim (get_elem? n.log index) [
  | none ↦ false
  | some entry ↦ entry.term == term
]

-- The node, the effects, and whether the term was updated.
unfoldable pub maybe_step_down : RaftNode → ℕ → List SideEffect → RaftNode × List SideEffect × Bool
maybe_step_down n term side_effects =
    if ltb n.current_term term
    then (let n' = record n {
      current_term = term;
      voted_for = none;
      leader_id = none;
      state = follower;
    } in
        (
          n',
          side_effects
              <+ build_log_event n' (Messages.term_updated n.current_term term (get_state_str n)),
          true,
        ))
    else (n, side_effects, false)

-- `self.log.last().map(|e| e.index).unwrap_or(0)`
unfoldable pub last_index_or_zero : List LogEntry → ℕ
last_index_or_zero log = elim (get_last? log) [ none ↦ 0 | some e ↦ e.index ]

unfoldable pub reject_append_entries : RaftNode → AppendEntriesReply
reject_append_entries n = record {
  term = n.current_term;
  success = false;
  match_index = last_index_or_zero n.log;
}

-- `self.log.get(i).map(|e| e.term).unwrap_or(0)`
unfoldable pub term_or_zero : List LogEntry → ℕ → ℕ
term_or_zero log i = elim (get_elem? log i) [ none ↦ 0 | some e ↦ e.term ]

unfoldable pub build_append_entries_args : RaftNode → ℕ → Option AppendEntriesArgs
unfolding term_or_zero
build_append_entries_args n next_index =
    if next_index == 0
    then none
    else some (record {
      term = n.current_term;
      leader_id = n.id;
      prev_log_index = next_index - 1;
      prev_log_term = term_or_zero n.log (next_index - 1);
      entries = if ltb next_index (length n.log) then drop next_index n.log else [];
      leader_commit = n.committed_index;
    })
