-- ===== src/Engine/Resets.antt =====
-- What effects do to the timers of mini-raft/raft-rust/src/main.rs.
use mathlib.Core.Path.{subst}
use distributed_sys_lab.Prelude.{◌≤◌, ◌<◌, ◌≡◌, ◌⊎◌, ◌∙◌, inl, inr, refl, sym, List, [], ◌∷◌, arith}
use distributed_sys_lab.Protocol
use distributed_sys_lab.Protocol.{
  NodeState, follower, candidate, leader, LogEntry, Message, SideEffect,
}
use distributed_sys_lab.Engine.{
  Platform, EngineState, Process, heartbeat_interval, send, print, reset_election_timer,
  reset_heartbeat_timer, execute_effect, execute_effects,
}
use distributed_sys_lab.Engine.Effects.{send_all-SameTimers}

-- The limit was drawn from `30..150`, and both counters are below their limits.
pub record IsTimed (e : EngineState) : Type 0 where
  pub low : 30 ≤ e.election_timeout_limit
  pub high : e.election_timeout_limit < 150
  pub election : e.election_tick_count < e.election_timeout_limit
  pub heartbeat : e.heartbeat_tick_count < heartbeat_interval

-- A counter is kept or starts again at 0, the election counter with a new limit.
pub record Resets (e e' : EngineState) : Type 0 where
  pub election :
      ((e'.election_tick_count ≡ e.election_tick_count)
        × (e'.election_timeout_limit ≡ e.election_timeout_limit))
      ⊎ ((e'.election_tick_count ≡ 0)
          × (30 ≤ e'.election_timeout_limit)
          × (e'.election_timeout_limit < 150))
  heartbeat : (e'.heartbeat_tick_count ≡ e.heartbeat_tick_count) ⊎ (e'.heartbeat_tick_count ≡ 0)

Resets-refl : (e : EngineState) → Resets e e
Resets-refl e = record { election = inl (refl, refl); heartbeat = inl refl }

Resets-trans : {a b c : EngineState} → Resets a b → Resets b c → Resets a c
Resets-trans r s = record {
  election = elim s.election [
    | inl (count, limit) ↦ elim r.election [
      | inl (count', limit') ↦ inl (count ∙ count', limit ∙ limit')
      | inr (zeroed, low, high) ↦ inr (count ∙ zeroed, omega (arith, limit), omega (arith, limit))
    ]
    | inr fresh ↦ inr fresh
  ];
  heartbeat = elim s.heartbeat [
    | inl kept ↦ elim r.heartbeat [
      | inl kept' ↦ inl (kept ∙ kept')
      | inr zeroed ↦ inr (kept ∙ zeroed)
    ]
    | inr zeroed ↦ inr zeroed
  ];
}

pub Resets-IsTimed : (e e' : EngineState) → Resets e e' → IsTimed e → IsTimed e'
Resets-IsTimed e e' r t = record {
  low = elim r.election [ inl (_, limit) ↦ omega (arith, limit, t.low) | inr (_, low, _) ↦ low ];
  high = elim r.election [
    | inl (_, limit) ↦ omega (arith, limit, t.high)
    | inr (_, _, high) ↦ high
  ];
  election = elim r.election [
    | inl (count, limit) ↦ omega (arith, count, limit, t.election)
    | inr (zeroed, low, _) ↦ omega (arith, zeroed, low)
  ];
  heartbeat = elim r.heartbeat [
    | inl kept ↦ omega (arith, kept, t.heartbeat)
    | inr zeroed ↦ omega (arith, zeroed)
  ];
}

pub Resets-limit :
    (e e' : EngineState)
    → Resets e e'
    → (30 ≤ e.election_timeout_limit) × (e.election_timeout_limit < 150)
    → (30 ≤ e'.election_timeout_limit) × (e'.election_timeout_limit < 150)
Resets-limit e e' r (low, high) = elim r.election [
  | inl (_, limit) ↦ (omega (arith, limit), omega (arith, limit))
  | inr (_, low', high') ↦ (low', high')
]

Resets-same : {e e' : EngineState} → e' ≡ e → Resets e e'
Resets-same {e} same = subst (Resets e) (sym same) (Resets-refl e)

module _ (p : Platform)
    (in_range : (g : p.Rng) → (30 ≤ (p.gen_range g).0) × ((p.gen_range g).0 < 150)) where
  execute_effect-Resets :
      (fx : SideEffect) (w : Process p) → Resets w.engine_state (execute_effect p fx w).engine_state
  unfolding execute_effect send print reset_election_timer reset_heartbeat_timer
  execute_effect-Resets (Protocol.log_message m) w = Resets-refl w.engine_state
  execute_effect-Resets (Protocol.apply_entry index command) w = Resets-refl w.engine_state
  execute_effect-Resets (Protocol.send_append_entries target args) w = Resets-refl w.engine_state
  execute_effect-Resets (Protocol.broadcast_append_entries args) w =
      Resets-same (send_all-SameTimers p w.node.peers _ _ w).engine_state
  execute_effect-Resets (Protocol.broadcast_request_vote args) w =
      Resets-same (send_all-SameTimers p w.node.peers _ _ w).engine_state
  execute_effect-Resets Protocol.reset_election_timer w =
      let (low, high) = in_range w.rng in
      record { election = inr (refl, low, high); heartbeat = inl refl }
  execute_effect-Resets Protocol.reset_heartbeat_timer w = record {
    election = inl (refl, refl);
    heartbeat = inr refl;
  }

  pub execute_effects-Resets :
      (fx : List SideEffect) (w : Process p)
      → Resets w.engine_state (execute_effects p fx w).engine_state
  unfolding execute_effects
  execute_effects-Resets [] w = Resets-refl w.engine_state
  execute_effects-Resets (e ∷ fx) w =
      Resets-trans (execute_effect-Resets e w) (execute_effects-Resets fx (execute_effect p e w))
