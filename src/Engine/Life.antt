-- ===== src/Engine/Life.antt =====
-- The life of an engine (mini-raft/raft-rust/src/main.rs): ticks and lines from the relay, in any order.
use mathlib.Core.Path.{subst}
use distributed_sys_lab.Prelude.{
  ◌≤◌, ◌<◌, ◌≡◌, sym, String, Option, none, some, List, ok, >>=-eq-ok, ok-injective, arith,
}
use distributed_sys_lab.Protocol.{Message}
use distributed_sys_lab.Engine.{Platform, Process, new, start}
use distributed_sys_lab.Engine.Dispatch.{dispatch, handle_message, handle_line}
use distributed_sys_lab.Engine.Sends.{dispatch-Sends}
use distributed_sys_lab.Engine.Ticks.{tick}
use distributed_sys_lab.Engine.Timers.{tick-IsTimed}
use distributed_sys_lab.Engine.Resets.{IsTimed, execute_effects-Resets, Resets-IsTimed}

-- One turn of a thread of the engine.
pub data Turn (p : Platform) (w w' : Process p) : Type 0 where
  ticked : tick p w ≡ ok w' → Turn p w w'
  received : (line : Option (Message p.Value)) → handle_line p line w ≡ ok w' → Turn p w w'

pub data Turns (p : Platform) : Process p → Process p → Type 0 where
  done : (w : Process p) → Turns p w w
  turn : {a b c : Process p} → Turn p a b → Turns p b c → Turns p a c

module _ (p : Platform)
    (in_range : (g : p.Rng) → (30 ≤ (p.gen_range g).0) × ((p.gen_range g).0 < 150)) where
  handle_line-IsTimed :
      (line : Option (Message p.Value)) (w w' : Process p)
      → IsTimed w.engine_state
      → handle_line p line w ≡ ok w'
      → IsTimed w'.engine_state
  unfolding handle_line handle_message
  handle_line-IsTimed none w w' t h =
      subst (λ (x : Process p). IsTimed x.engine_state) (ok-injective h) t
  handle_line-IsTimed (some msg) w w' t h =
      let (r, e, end) = >>=-eq-ok (dispatch p msg w) _ h in
      let before = subst IsTimed (sym (dispatch-Sends p msg w r e).engine_state) t in
      subst (λ (x : Process p). IsTimed x.engine_state) (ok-injective end)
        (Resets-IsTimed _ _ (execute_effects-Resets p in_range r.1 r.0) before)

  Turn-IsTimed : (w w' : Process p) → Turn p w w' → IsTimed w.engine_state → IsTimed w'.engine_state
  Turn-IsTimed w w' (ticked h) t = tick-IsTimed p in_range w w' t h
  Turn-IsTimed w w' (received line h) t = handle_line-IsTimed line w w' t h

  Turns-IsTimed :
      (w w' : Process p) → Turns p w w' → IsTimed w.engine_state → IsTimed w'.engine_state
  Turns-IsTimed w w' (done _) t = t
  Turns-IsTimed w w' (turn {b = b} first rest) t =
      Turns-IsTimed b w' rest (Turn-IsTimed w b first t)

  -- When the limits are drawn from `30..150`, the counters of an engine that was started stay below their
  -- limits, and the election limit in that range, whatever it receives and for however many ticks.
  pub Turns-start :
      (id : String) (peers : List String) (g : p.Rng) (w : Process p)
      → Turns p (start p id peers g) w
      → IsTimed w.engine_state
  unfolding start new
  Turns-start id peers g w run =
      let (low, high) = in_range g in
      Turns-IsTimed (start p id peers g) w run
        (record { low = low; high = high; election = omega (arith, low); heartbeat = omega arith })
