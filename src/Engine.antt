-- ===== src/Engine.antt =====
-- The engine around a node (mini-raft/raft-rust/src/main.rs): timers, the dispatch of messages and the
-- execution of effects. The generator of random numbers and the JSON codec are a `Platform`.
pub mod Dispatch
pub mod Ticks
pub mod Effects
pub mod Silence
pub mod Resets
pub mod Timers
pub mod Life
pub mod Payloads
pub mod Delivery
pub mod Sends
pub mod Panics
pub mod Progress
pub mod Heartbeats
pub mod Campaign
use Prim.Native.String.{◌++◌}
use distributed_sys_lab.Prelude.{
  ℕ, ◌+◌, String, Option, none, some, List, [], ◌∷◌, ◌<+◌, leb, if◌then◌else◌, Outcome, ok, ◌>>=◌,
  add_u64, unwrap, show_u64,
}
use distributed_sys_lab.Protocol
use distributed_sys_lab.Protocol.{
  Message, NodeState, RequestVoteArgs, RequestVoteReply, AppendEntriesArgs, AppendEntriesReply,
  ClientRequestArgs, ClientRequestReply, SideEffect,
}
use distributed_sys_lab.Node
use distributed_sys_lab.Node.{RaftNode}
use distributed_sys_lab.Node.AppendEntries.{handle_append_entries}
use distributed_sys_lab.Node.RequestVote.{handle_request_vote}
use distributed_sys_lab.Node.Client.{handle_client_request}
use distributed_sys_lab.Node.Timeouts.{handle_heartbeat_timeout, handle_election_timeout}
use distributed_sys_lab.Node.VoteReply.{handle_request_vote_reply}
use distributed_sys_lab.Node.AppendReply.{handle_append_entries_reply}

-- `serde_json` for one type: `to_value`, which does not fail for these structs, and `from_slice` of the
-- bytes of a value.
pub record Serde (Value A : Type 0) : Type 0 where
  pub to_value : A → Value
  pub from_value : Value → Option A

-- What the engine takes from `rand` and `serde_json`.
pub record Platform : Type 1 where
  pub Rng : Type 0
  pub gen_range : Rng → ℕ × Rng
  pub Value : Type 0
  pub append_entries : Serde Value AppendEntriesArgs
  pub append_reply : Serde Value AppendEntriesReply
  pub request_vote : Serde Value RequestVoteArgs
  pub vote_reply : Serde Value RequestVoteReply
  pub client_request : Serde Value ClientRequestArgs
  pub client_reply : Serde Value ClientRequestReply

pub record EngineState : Type 0 where
  pub election_tick_count : ℕ
  pub heartbeat_tick_count : ℕ
  pub election_timeout_limit : ℕ

abbrev pub heartbeat_interval : ℕ
heartbeat_interval = 6

module _ (p : Platform) where
  -- A process: the two locked states, the generator, the messages given to `tx` and the lines printed.
  pub record Process : Type 0 where
    pub node : RaftNode
    pub engine_state : EngineState
    pub rng : p.Rng
    pub sent : List (Message p.Value)
    pub printed : List String

  -- `EngineState::new`
  unfoldable pub new : p.Rng → EngineState × p.Rng
  new rng =
      let (limit, rng') = p.gen_range rng in
      (
        record {
          election_tick_count = 0;
          heartbeat_tick_count = 0;
          election_timeout_limit = limit;
        },
        rng',
      )

  -- What `main` begins with.
  unfoldable pub start : String → List String → p.Rng → Process
  unfolding new
  start id peers rng =
      let (engine_state, rng') = new rng in
      record {
        node = Node.new id peers;
        engine_state = engine_state;
        rng = rng';
        sent = [];
        printed = [];
      }

  unfoldable pub reset_election_timer : Process → Process
  reset_election_timer w =
      let (limit, rng) = p.gen_range w.rng in
      record w {
        engine_state = record w.engine_state {
          election_tick_count = 0;
          election_timeout_limit = limit;
        };
        rng = rng;
      }

  unfoldable pub reset_heartbeat_timer : Process → Process
  reset_heartbeat_timer w = record w {
    engine_state = record w.engine_state { heartbeat_tick_count = 0 };
  }

  -- `tx.send(Message { from: node.id, .. })`; its result is dropped.
  unfoldable pub send : String → String → p.Value → Process → Process
  send to message_type payload w = record w {
    sent =
        w.sent
        <+ record { from = w.node.id; to = to; message_type = message_type; payload = payload };
  }

  -- `for peer in &node.peers`
  unfoldable pub send_all : List String → String → p.Value → Process → Process
  send_all [] message_type payload w = w
  send_all (peer ∷ peers) message_type payload w =
      send_all peers message_type payload (send peer message_type payload w)

  unfoldable pub print : String → Process → Process
  print line w = record w { printed = w.printed <+ line }

  unfoldable pub apply_line : RaftNode → ℕ → String → String
  apply_line n index command =
      "[Node="
      ++ n.id
      ++ "] *** STATE MACHINE APPLY *** Index: "
      ++ show_u64 index
      ++ ", Command: '"
      ++ command
      ++ "'"

  -- One turn of the loop of `execute_effects`.
  unfoldable pub execute_effect : SideEffect → Process → Process
  execute_effect (Protocol.log_message m) w = print m w
  execute_effect (Protocol.apply_entry index command) w = print (apply_line w.node index command) w
  execute_effect (Protocol.send_append_entries target args) w =
      send target "AppendEntries" (p.append_entries.to_value args) w
  execute_effect (Protocol.broadcast_append_entries args) w =
      send_all w.node.peers "AppendEntries" (p.append_entries.to_value args) w
  execute_effect (Protocol.broadcast_request_vote args) w =
      send_all w.node.peers "RequestVote" (p.request_vote.to_value args) w
  execute_effect Protocol.reset_election_timer w = reset_election_timer w
  execute_effect Protocol.reset_heartbeat_timer w = reset_heartbeat_timer w

  unfoldable pub execute_effects : List SideEffect → Process → Process
  execute_effects [] w = w
  execute_effects (effect ∷ effects) w = execute_effects effects (execute_effect effect w)
