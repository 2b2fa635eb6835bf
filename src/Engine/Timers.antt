-- ===== src/Engine/Timers.antt =====
-- The counters of mini-raft/raft-rust/src/main.rs stay below their limits.
use mathlib.Core.Path.{subst}
use distributed_sys_lab.Prelude.{
  ℕ, ◌≤◌, ◌<◌, ◌≡◌, ◌≢◌, ◌∙◌, inl, inr, refl, sym, ap, List, [], ◌∷◌, arith, ok, leb, Bool-cases,
  >>=-eq-ok, ok-injective, add_u64-eq-ok, add_u64,
}
use distributed_sys_lab.Protocol
use distributed_sys_lab.Protocol.{
  NodeState, follower, candidate, leader, LogEntry, Message, SideEffect,
}
use distributed_sys_lab.Node.{RaftNode, build_log_event}
use distributed_sys_lab.Node.Election.{Role, role}
use distributed_sys_lab.Node.Timeouts.{
  heartbeats, heartbeat_at, handle_heartbeat_timeout, stand, handle_election_timeout,
}
use distributed_sys_lab.Node.Timeouts.Laws.{handle_election_timeout-cases, start_election-stand}
use distributed_sys_lab.Engine.{
  Platform, Process, heartbeat_interval, send_all, print, reset_election_timer,
  reset_heartbeat_timer, execute_effect, execute_effects,
}
use distributed_sys_lab.Engine.Effects.{send_all-SameTimers, execute_effects-append}
use distributed_sys_lab.Engine.Ticks.{
  with_heartbeat_ticks, leader_tick, election_tick, tick_at, tick,
}
use distributed_sys_lab.Engine.Resets.{IsTimed, Resets-limit, execute_effects-Resets}

module _ (p : Platform)
    (in_range : (g : p.Rng) → (30 ≤ (p.gen_range g).0) × ((p.gen_range g).0 < 150)) where
  -- The effects of a leader's heartbeat end with the reset of its counter.
  heartbeat_at-reset :
      (s : NodeState) (n : RaftNode) (w : Process p)
      → role s ≡ Role.leader
      → (execute_effects p (heartbeat_at s n) w).engine_state.heartbeat_tick_count ≡ 0
  unfolding heartbeat_at execute_effects execute_effect reset_heartbeat_timer
  heartbeat_at-reset (leader next _) n w leads =
      ap (λ (x : Process p). x.engine_state.heartbeat_tick_count)
        (execute_effects-append p
          (heartbeats n next n.peers
            (build_log_event n "Heartbeat Timeout -> Broadcasting heartbeats" ∷ []))
          (Protocol.reset_heartbeat_timer ∷ []) w)
  heartbeat_at-reset follower n w leads = cc
  heartbeat_at-reset (candidate _) n w leads = cc

  -- The effects of standing for election draw a new limit.
  stand-reset :
      (n : RaftNode) (term : ℕ) (last : LogEntry) (w : Process p)
      → (execute_effects p (stand n term last).1 w).engine_state ≡ record {
        election_tick_count = 0;
        heartbeat_tick_count = w.engine_state.heartbeat_tick_count;
        election_timeout_limit = (p.gen_range w.rng).0;
      }
  unfolding stand execute_effects execute_effect print reset_election_timer send_all build_log_event
  stand-reset n term last w = (send_all-SameTimers p w.node.peers _ _ _).engine_state

  leader_tick-IsTimed :
      (w w' : Process p)
      → role w.node.state ≡ Role.leader
      → IsTimed w.engine_state
      → leader_tick p w ≡ ok w'
      → IsTimed w'.engine_state
  unfolding leader_tick handle_heartbeat_timeout
  leader_tick-IsTimed w w' leads t h =
      let (count, added, done) = >>=-eq-ok (add_u64 w.engine_state.heartbeat_tick_count 1) _ h in
      let (sum, _) = add_u64-eq-ok w.engine_state.heartbeat_tick_count 1 added in
      let w1 = with_heartbeat_ticks p count w in
      elim (Bool-cases (leb heartbeat_interval count)) [
        | inl due ↦
            let fx = handle_heartbeat_timeout w.node in
            let r = execute_effects-Resets p in_range fx w1 in
            let zeroed = heartbeat_at-reset w.node.state w.node w1 leads in
            let (low, high) = Resets-limit _ _ r (t.low, t.high) in
            let e = ok-injective (rw due at done) in
            subst (λ (x : Process p). IsTimed x.engine_state) e
              (record {
                low = low;
                high = high;
                election = omega (arith, low);
                heartbeat = subst (λ k. k < heartbeat_interval) (sym zeroed) (omega arith);
              })
        | inr early ↦
            let e = ok-injective (rw early at done) in
            subst (λ (x : Process p). IsTimed x.engine_state) e
              (record {
                low = t.low;
                high = t.high;
                election = omega (arith, t.low);
                heartbeat = ground (arith, early);
              })
      ]

  -- What the tick at the limit leaves.
  timeout-IsTimed :
      (w : Process p) (r : RaftNode × List SideEffect)
      → role w.node.state ≢ Role.leader
      → w.engine_state.heartbeat_tick_count < heartbeat_interval
      → handle_election_timeout w.node ≡ ok r
      → (w1 : Process p)
      → w1.engine_state.heartbeat_tick_count ≡ w.engine_state.heartbeat_tick_count
      → IsTimed (execute_effects p r.1 w1).engine_state
  timeout-IsTimed w r waits calm h w1 same = elim (handle_election_timeout-cases w.node r h) [
    | inl (leads, _) ↦ absurd (waits leads)
    | inr (_, started) ↦
        let (term, last, e, _) = start_election-stand w.node r started in
        let (low, high) = in_range w1.rng in
        let state =
          ap (λ (x : RaftNode × List SideEffect). (execute_effects p x.1 w1).engine_state) e
          ∙ stand-reset w.node term last w1 in
        subst IsTimed (sym state) (record {
          low = low;
          high = high;
          election = omega (arith, low);
          heartbeat = omega (arith, same, calm);
        })
  ]

  election_tick-IsTimed :
      (w w' : Process p)
      → role w.node.state ≢ Role.leader
      → IsTimed w.engine_state
      → election_tick p w ≡ ok w'
      → IsTimed w'.engine_state
  unfolding election_tick
  election_tick-IsTimed w w' waits t h =
      let (count, added, done) = >>=-eq-ok (add_u64 w.engine_state.election_tick_count 1) _ h in
      elim (Bool-cases (leb w.engine_state.election_timeout_limit count)) [
        | inl due ↦
            let (r, e, rest) = >>=-eq-ok (handle_election_timeout w.node) _ (rw due at done) in
            subst (λ (x : Process p). IsTimed x.engine_state) (ok-injective rest)
              (timeout-IsTimed w r waits t.heartbeat e _ refl)
        | inr early ↦
            subst (λ (x : Process p). IsTimed x.engine_state) (ok-injective (rw early at done))
              (record {
                low = t.low;
                high = t.high;
                election = ground (arith, early);
                heartbeat = t.heartbeat;
              })
      ]

  tick_at-IsTimed :
      (s : NodeState) (w w' : Process p)
      → s ≡ w.node.state
      → IsTimed w.engine_state
      → tick_at p s w ≡ ok w'
      → IsTimed w'.engine_state
  unfolding tick_at
  tick_at-IsTimed (leader _ _) w w' s t h = leader_tick-IsTimed w w' (ap role (sym s)) t h
  tick_at-IsTimed follower w w' s t h = election_tick-IsTimed w w' (λ e. cc (ap role s, e)) t h
  tick_at-IsTimed (candidate _) w w' s t h = election_tick-IsTimed w w' (λ e. cc (ap role s, e)) t h

  -- When the limits are drawn from `30..150`, a tick keeps both counters below their limits, and the
  -- election limit in that range.
  pub tick-IsTimed :
      (w w' : Process p) → IsTimed w.engine_state → tick p w ≡ ok w' → IsTimed w'.engine_state
  unfolding tick
  tick-IsTimed w w' t h = tick_at-IsTimed w.node.state w w' refl t h
