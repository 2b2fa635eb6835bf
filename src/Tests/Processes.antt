-- ===== src/Tests/Processes.antt =====
-- Engines at concrete processes.
use distributed_sys_lab.Prelude.{
  ◌↔◌, some, true, false, panic, ℕ, suc, ◌+◌, ◌-◌, ◌%◌, ◌≤◌, ◌<◌, ◌≡◌, refl, [], ◌∷◌, ◌++◌, ◌<+◌,
  map, ok, arith,
}
use distributed_sys_lab.Protocol
use distributed_sys_lab.Protocol.{
  Message, AppendEntriesArgs, AppendEntriesReply, RequestVoteArgs, RequestVoteReply,
  ClientRequestArgs, ClientRequestReply,
}
use distributed_sys_lab.Node.{RaftNode, build_append_entries_args}
use distributed_sys_lab.Node.Timeouts.{next_index_of}
use mathlib.Core.List.Memᴰ
use distributed_sys_lab.Engine.Heartbeats.{SentSince, ticks-Beats}
use distributed_sys_lab.Engine.Progress.{tick-ok}
use distributed_sys_lab.Node.Election.{Stands}
use distributed_sys_lab.Engine.{Platform, start, Process, execute_effect}
use distributed_sys_lab.Engine.Effects.{envelope}
use distributed_sys_lab.Engine.Campaign.{asked, tick-broadcast_request_vote}
use distributed_sys_lab.Engine.Dispatch.{handle_message}
use distributed_sys_lab.Engine.Panics.{is_readable, handle_message-panic_iff}
use distributed_sys_lab.Protocol.{Message, AppendEntriesArgs}
use distributed_sys_lab.Engine.Delivery.{Answered, handle_message-execute_effect}
use distributed_sys_lab.Engine.Ticks.{tick, ticks}
use distributed_sys_lab.Engine.Resets.{IsTimed}
use distributed_sys_lab.Engine.Life.{ticked, Turns, Turns-start}
use distributed_sys_lab.Engine.Silence.{ticks-Stands}
use distributed_sys_lab.Tests.Program.{program, engine}
use distributed_sys_lab.Tests.Wire.{Payload, append_entries, wire}
use distributed_sys_lab.Tests.Data.{entry, from_ok, node_a, node_b, from_a}

-- Limits 30, 31, ... 149, and 30 again.
abbrev platform : Platform
platform = wire (λ g. (30 + g % 120, suc g))

platform_range : (g : ℕ) → (30 ≤ 30 + g % 120) × (30 + g % 120 < 150)
platform_range g = (omega arith, omega arith)

-- A process of a node whose counters are one below their limits.
abbrev process : RaftNode → Process platform
process n = record {
  node = n;
  engine_state = record {
    election_tick_count = 29;
    heartbeat_tick_count = 5;
    election_timeout_limit = 30;
  };
  rng = 7;
  sent = [];
  printed = [];
}

tick-broadcast_request_vote_example :
    (w' : Process platform) × (tick platform (process node_b) ≡ ok w')
    × (w'.sent ≡ [] ++ map (asked platform node_b 2 (entry 1 2 "old_cmd2")) ("A" ∷ "C" ∷ []))
tick-broadcast_request_vote_example =
    tick-broadcast_request_vote platform (process node_b) (entry 1 2 "old_cmd2") (λ e. cc)
      (omega arith) (omega arith) refl (omega arith)

handle_message-execute_effect_example :
    ((execute_effect platform (Protocol.send_append_entries "B" from_a) (process node_a)).sent
      ≡ [] <+ envelope platform "A" "AppendEntries" (append_entries from_a) "B")
    × (b' : Process platform) × (handle_message platform
          (envelope platform "A" "AppendEntries" (append_entries from_a) "B")
          (process node_b)
        ≡ ok b')
    × Answered platform (process node_a) (process node_b) b' from_a
handle_message-execute_effect_example =
    handle_message-execute_effect platform (process node_a) (process node_b) "B" from_a refl

ticks-Stands_example :
    (w' : Process platform) × (ticks platform (30 - 29) (process node_b) ≡ ok w')
    × Stands node_b w'.node
ticks-Stands_example =
    ticks-Stands platform (process node_b) (entry 1 2 "old_cmd2") (λ e. cc) (omega arith)
      (omega arith) refl (omega arith)

-- A process that has just started, and its first tick.
abbrev started : Process platform
started = start platform "B" ("A" ∷ "C" ∷ []) 0

abbrev first_tick : Process platform
first_tick = from_ok started (tick platform started)

first_tick_ok : tick platform started ≡ ok first_tick
unfolding engine
first_tick_ok = refl

first_tick_count : first_tick.engine_state.election_tick_count ≡ 1
unfolding engine
first_tick_count = refl

Turns-start_example : IsTimed first_tick.engine_state
Turns-start_example =
    Turns-start platform platform_range "B" ("A" ∷ "C" ∷ []) 0 first_tick
      (Turns.turn (ticked first_tick_ok) (Turns.done first_tick))

-- A request for votes whose payload is a reply.
abbrev garbled : Message platform.Value
garbled = record {
  from = "A";
  to = "B";
  message_type = "RequestVote";
  payload = Payload.vote_reply (record { term = 1; vote_granted = true });
}

handle_message-panic_iff_example :
    (handle_message platform garbled (process node_b) ≡ panic)
    ↔ (is_readable platform garbled ≡ false)
handle_message-panic_iff_example =
    handle_message-panic_iff platform garbled (process node_b)
      (record { last = entry 1 2 "old_cmd2"; is_last = refl; fits = omega arith }) (λ reply e. cc e)

-- What A sends to B at its next heartbeat.
abbrev heartbeat : AppendEntriesArgs
heartbeat = record from_a { entries = entry 2 2 "new_cmd2" ∷ []; leader_commit = 1 }

b_next :
    build_append_entries_args node_a (next_index_of (("B", 2) ∷ ("C", 2) ∷ []) "B") ≡ some heartbeat
unfolding program
b_next = refl

ticks-Beats_example :
    (w' : Process platform) × (ticks platform 1 (process node_a) ≡ ok w')
    × (w'.node ≡ node_a)
    × SentSince platform [] w'.sent
        (envelope platform "A" "AppendEntries" (append_entries heartbeat) "B")
ticks-Beats_example =
    ticks-Beats platform (process node_a) (("B", 2) ∷ ("C", 2) ∷ []) (("B", 1) ∷ ("C", 0) ∷ []) "B"
      heartbeat refl (omega arith) (Memᴰ.head refl) b_next

tick-ok_example : (w' : Process platform) × (tick platform (process node_b) ≡ ok w')
tick-ok_example =
    tick-ok platform (process node_b) (entry 1 2 "old_cmd2")
      (record {
        low = omega arith;
        high = omega arith;
        election = omega arith;
        heartbeat = omega arith;
      })
      refl (omega arith)
