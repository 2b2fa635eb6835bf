-- ===== src/Engine/Silence.antt =====
-- The election timer of mini-raft/raft-rust/src/main.rs.
use distributed_sys_lab.Prelude.{
  ℕ, zero, suc, ◌+◌, ◌-◌, ◌<◌, ◌≡◌, ◌≢◌, ◌∙◌, inl, inr, refl, sym, true, false, some, arith,
  get_last?, ok, u64_limit, leb, add_u64_of_lt,
}
use mathlib.Core.Path.{subst}
use distributed_sys_lab.Protocol.{NodeState, follower, candidate, leader, LogEntry}
use distributed_sys_lab.Node.Election.{Role, role, Stands}
use distributed_sys_lab.Node.Timeouts.Laws.{handle_election_timeout_lem}
use distributed_sys_lab.Engine.{Platform, Process, execute_effects}
use distributed_sys_lab.Engine.Effects.{execute_effects-node}
use distributed_sys_lab.Engine.Ticks.{with_election_ticks, election_tick, tick_at, tick, ticks}

module _ (p : Platform) where
  tick_at-waiting :
      (s : NodeState) (w : Process p) → role s ≢ Role.leader → tick_at p s w ≡ election_tick p w
  unfolding tick_at
  tick_at-waiting follower w waits = refl
  tick_at-waiting (candidate _) w waits = refl
  tick_at-waiting (leader _ _) w waits = absurd (waits refl)

  pub tick-waiting :
      (w : Process p) → role w.node.state ≢ Role.leader → tick p w ≡ election_tick p w
  unfolding tick
  tick-waiting w waits = tick_at-waiting w.node.state w waits

  -- A tick below the limit only counts.
  tick-counts :
      (w : Process p)
      → role w.node.state ≢ Role.leader
      → w.engine_state.election_tick_count + 1 < w.engine_state.election_timeout_limit
      → w.engine_state.election_timeout_limit < u64_limit
      → tick p w ≡ ok (with_election_ticks p (w.engine_state.election_tick_count + 1) w)
  unfolding election_tick
  tick-counts w waits early fits =
      let count = w.engine_state.election_tick_count in
      let below : leb w.engine_state.election_timeout_limit (count + 1) ≡ false = ground arith in
      tick-waiting w waits ∙ (rw (add_u64_of_lt count 1 (omega arith), below) refl)

  -- The tick at the limit makes the node stand.
  tick-Stands :
      (w : Process p) (last : LogEntry)
      → role w.node.state ≢ Role.leader
      → w.engine_state.election_tick_count + 1 ≡ w.engine_state.election_timeout_limit
      → w.engine_state.election_timeout_limit < u64_limit
      → get_last? w.node.log ≡ some last
      → w.node.current_term + 1 < u64_limit
      → (w' : Process p) × (tick p w ≡ ok w') × Stands w.node w'.node
  unfolding election_tick
  tick-Stands w last waits now fits got term_fits =
      let count = w.engine_state.election_tick_count in
      let at : leb w.engine_state.election_timeout_limit (count + 1) ≡ true = ground arith in
      let (r, e, outcome) = handle_election_timeout_lem w.node last got term_fits in
      let w' = record (with_election_ticks p (count + 1) w) { node = r.0 } in
      let stands : Stands w.node r.0 = elim outcome [
        | inl (leads, _) ↦ absurd (waits leads)
        | inr (_, s) ↦ s
      ] in
      (
        execute_effects p r.1 w',
        tick-waiting w waits ∙ (rw (add_u64_of_lt count 1 (omega arith), at, e) refl),
        subst (Stands w.node) (sym (execute_effects-node p r.1 w')) stands,
      )

  ticks-silent :
      (k : ℕ) (w : Process p) (last : LogEntry)
      → role w.node.state ≢ Role.leader
      → w.engine_state.election_tick_count + suc k ≡ w.engine_state.election_timeout_limit
      → w.engine_state.election_timeout_limit < u64_limit
      → get_last? w.node.log ≡ some last
      → w.node.current_term + 1 < u64_limit
      → (w' : Process p) × (ticks p (suc k) w ≡ ok w') × Stands w.node w'.node
  unfolding ticks
  ticks-silent zero w last waits left fits got term_fits =
      let (w', e, s) = tick-Stands w last waits (omega arith) fits got term_fits in
      (w', rw e refl, s)
  ticks-silent (suc k) w last waits left fits got term_fits =
      let count = w.engine_state.election_tick_count in
      let w1 = with_election_ticks p (count + 1) w in
      let (w', e, s) = ticks-silent k w1 last waits (omega arith) fits got term_fits in
      (w', rw (tick-counts w waits (omega arith) fits) e, s)

  -- A follower or a candidate whose election count is below its limit, and which hears nothing for the
  -- ticks that are left, has then stood for election once, in the next term and with its own vote. The log
  -- has an entry, the term can be counted up, and the limit is a `u64`.
  pub ticks-Stands :
      (w : Process p) (last : LogEntry)
      → role w.node.state ≢ Role.leader
      → w.engine_state.election_tick_count < w.engine_state.election_timeout_limit
      → w.engine_state.election_timeout_limit < u64_limit
      → get_last? w.node.log ≡ some last
      → w.node.current_term + 1 < u64_limit
      → let left = w.engine_state.election_timeout_limit - w.engine_state.election_tick_count in
        (w' : Process p) × (ticks p left w ≡ ok w') × Stands w.node w'.node
  ticks-Stands w last waits early fits got term_fits =
      let count = w.engine_state.election_tick_count in
      let limit = w.engine_state.election_timeout_limit in
      let k = limit - count - 1 in
      let e : suc k ≡ limit - count = omega arith in
      subst (λ left. (w' : Process p) × (ticks p left w ≡ ok w') × Stands w.node w'.node) e
        (ticks-silent k w last waits (omega arith) fits got term_fits)
