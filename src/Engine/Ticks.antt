-- ===== src/Engine/Ticks.antt =====
-- The tick loop of `main` (mini-raft/raft-rust/src/main.rs).
use distributed_sys_lab.Prelude.{ℕ, zero, suc, leb, if◌then◌else◌, Outcome, ok, ◌>>=◌, add_u64}
use distributed_sys_lab.Protocol.{NodeState, leader}
use distributed_sys_lab.Node.Timeouts.{handle_heartbeat_timeout, handle_election_timeout}
use distributed_sys_lab.Engine.{Platform, Process, heartbeat_interval, execute_effects}

module _ (p : Platform) where
  abbrev pub with_election_ticks : ℕ → Process p → Process p
  with_election_ticks n w = record w {
    engine_state = record w.engine_state { election_tick_count = n };
  }

  abbrev pub with_heartbeat_ticks : ℕ → Process p → Process p
  with_heartbeat_ticks n w = record w {
    engine_state = record w.engine_state { heartbeat_tick_count = n };
  }

  -- A tick of a leader.
  unfoldable pub leader_tick : Process p → Outcome (Process p)
  leader_tick w = add_u64 w.engine_state.heartbeat_tick_count 1 >>= λ ticks.
      let w' = with_heartbeat_ticks ticks w in
      let w'' =
        if leb heartbeat_interval ticks
        then execute_effects p (handle_heartbeat_timeout w.node) w'
        else w' in
      ok (with_election_ticks 0 w'')

  -- A tick of a follower or a candidate.
  unfoldable pub election_tick : Process p → Outcome (Process p)
  election_tick w = add_u64 w.engine_state.election_tick_count 1 >>= λ ticks.
      let w' = with_election_ticks ticks w in
      if leb w.engine_state.election_timeout_limit ticks
      then (handle_election_timeout w.node >>= λ r.
          ok (execute_effects p r.1 (record w' { node = r.0 })))
      else ok w'

  unfoldable pub tick_at : NodeState → Process p → Outcome (Process p)
  unfolding leader_tick election_tick
  tick_at (leader _ _) w = leader_tick w
  tick_at _ w = election_tick w

  -- One turn of the loop.
  unfoldable pub tick : Process p → Outcome (Process p)
  unfolding tick_at
  tick w = tick_at w.node.state w

  unfoldable pub ticks : ℕ → Process p → Outcome (Process p)
  ticks zero w = ok w
  ticks (suc n) w = tick w >>= λ w'. ticks n w'
