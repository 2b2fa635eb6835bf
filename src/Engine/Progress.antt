-- ===== src/Engine/Progress.antt =====
-- Panics of the tick loop of `main` (mini-raft/raft-rust/src/main.rs).
use distributed_sys_lab.Prelude.{
  ◌+◌, ◌<◌, ◌≡◌, refl, inl, inr, Bool-cases, some, arith, leb, get_last?, ok, add_u64,
  add_u64_of_lt, u64_limit,
}
use distributed_sys_lab.Protocol.{NodeState, follower, candidate, leader, LogEntry}
use distributed_sys_lab.Node.Answers.{Answers, bind-Answers}
use distributed_sys_lab.Node.Timeouts.{handle_election_timeout}
use distributed_sys_lab.Node.Timeouts.Laws.{handle_election_timeout_lem}
use distributed_sys_lab.Engine.{Platform, Process}
use distributed_sys_lab.Engine.Ticks.{leader_tick, election_tick, tick_at, tick}
use distributed_sys_lab.Engine.Resets.{IsTimed}

module _ (p : Platform) where
  leader_tick-Answers : (w : Process p) → IsTimed w.engine_state → Answers (leader_tick p w)
  unfolding leader_tick
  leader_tick-Answers w t =
      bind-Answers (add_u64 w.engine_state.heartbeat_tick_count 1) _
        (_, add_u64_of_lt w.engine_state.heartbeat_tick_count 1 (omega (arith, t.heartbeat)))
        (λ ticks. (_, refl))

  election_tick-Answers :
      (w : Process p) (last : LogEntry)
      → IsTimed w.engine_state
      → get_last? w.node.log ≡ some last
      → w.node.current_term + 1 < u64_limit
      → Answers (election_tick p w)
  unfolding election_tick
  election_tick-Answers w last t got fits =
      bind-Answers (add_u64 w.engine_state.election_tick_count 1) _
        (_, add_u64_of_lt w.engine_state.election_tick_count 1 (omega (arith, t.election, t.high)))
        (λ ticks. elim (Bool-cases (leb w.engine_state.election_timeout_limit ticks)) [
          | inl due ↦
              let (r, e, _) = handle_election_timeout_lem w.node last got fits in
              rw due (bind-Answers (handle_election_timeout w.node) _ (r, e) (λ _. (_, refl)))
          | inr early ↦ rw early (_, refl)
        ])

  tick_at-Answers :
      (s : NodeState) (w : Process p) (last : LogEntry)
      → IsTimed w.engine_state
      → get_last? w.node.log ≡ some last
      → w.node.current_term + 1 < u64_limit
      → Answers (tick_at p s w)
  unfolding tick_at
  tick_at-Answers (leader _ _) w last t got fits = leader_tick-Answers w t
  tick_at-Answers follower w last t got fits = election_tick-Answers w last t got fits
  tick_at-Answers (candidate _) w last t got fits = election_tick-Answers w last t got fits

  -- A tick does not panic while the counters are below their limits, the log has an entry and the term can
  -- be counted up.
  pub tick-ok :
      (w : Process p) (last : LogEntry)
      → IsTimed w.engine_state
      → get_last? w.node.log ≡ some last
      → w.node.current_term + 1 < u64_limit
      → (w' : Process p) × (tick p w ≡ ok w')
  unfolding tick
  tick-ok w last t got fits = tick_at-Answers w.node.state w last t got fits
