-- ===== src/Engine/Effects.antt =====
-- What `execute_effects` (mini-raft/raft-rust/src/main.rs) changes.
use mathlib.Core.List.{append-nil, append_assoc}
use distributed_sys_lab.Prelude.{◌≡◌, ◌∙◌, refl, sym, String, List, [], ◌∷◌, ◌++◌, map}
use distributed_sys_lab.Protocol
use distributed_sys_lab.Protocol.{Message, SideEffect}
use distributed_sys_lab.Engine.{
  Platform, Process, send, send_all, reset_election_timer, reset_heartbeat_timer, print,
  execute_effect, execute_effects,
}

module _ (p : Platform) where
  -- The fields that sending does not touch.
  pub record SameTimers (w w' : Process p) : Type 0 where
    pub node : w'.node ≡ w.node
    pub engine_state : w'.engine_state ≡ w.engine_state
    pub rng : w'.rng ≡ w.rng

  pub send_all-SameTimers :
      (peers : List String) (message_type : String) (payload : p.Value) (w : Process p)
      → SameTimers w (send_all p peers message_type payload w)
  unfolding send_all send
  send_all-SameTimers [] message_type payload w = record {
    node = refl;
    engine_state = refl;
    rng = refl;
  }
  send_all-SameTimers (peer ∷ peers) message_type payload w =
      let s = send_all-SameTimers peers message_type payload (send p peer message_type payload w) in
      record { node = s.node; engine_state = s.engine_state; rng = s.rng }

  pub execute_effect-node :
      (fx : SideEffect) (w : Process p) → (execute_effect p fx w).node ≡ w.node
  unfolding execute_effect send print reset_election_timer reset_heartbeat_timer
  execute_effect-node (Protocol.log_message m) w = refl
  execute_effect-node (Protocol.apply_entry index command) w = refl
  execute_effect-node (Protocol.send_append_entries target args) w = refl
  execute_effect-node (Protocol.broadcast_append_entries args) w =
      (send_all-SameTimers w.node.peers _ _ w).node
  execute_effect-node (Protocol.broadcast_request_vote args) w =
      (send_all-SameTimers w.node.peers _ _ w).node
  execute_effect-node Protocol.reset_election_timer w = refl
  execute_effect-node Protocol.reset_heartbeat_timer w = refl

  pub execute_effects-node :
      (fx : List SideEffect) (w : Process p) → (execute_effects p fx w).node ≡ w.node
  unfolding execute_effects
  execute_effects-node [] w = refl
  execute_effects-node (e ∷ fx) w =
      execute_effects-node fx (execute_effect p e w) ∙ execute_effect-node e w

  -- The envelope for one peer.
  abbrev pub envelope : String → String → p.Value → String → Message p.Value
  envelope from message_type payload to = record {
    from = from;
    to = to;
    message_type = message_type;
    payload = payload;
  }

  -- A broadcast sends one message to each peer, in the order of the peers, after what was sent before.
  pub send_all-sent :
      (peers : List String) (message_type : String) (payload : p.Value) (w : Process p)
      → (send_all p peers message_type payload w).sent
        ≡ w.sent ++ map (envelope w.node.id message_type payload) peers
  unfolding send_all send
  send_all-sent [] message_type payload w = sym (append-nil w.sent)
  send_all-sent (peer ∷ peers) message_type payload w =
      send_all-sent peers message_type payload (send p peer message_type payload w)
      ∙ append_assoc w.sent (envelope w.node.id message_type payload peer ∷ []) _

  pub execute_effects-append :
      (xs ys : List SideEffect) (w : Process p)
      → execute_effects p (xs ++ ys) w ≡ execute_effects p ys (execute_effects p xs w)
  unfolding execute_effects
  execute_effects-append [] ys w = refl
  execute_effects-append (x ∷ xs) ys w = execute_effects-append xs ys (execute_effect p x w)
