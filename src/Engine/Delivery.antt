-- ===== src/Engine/Delivery.antt =====
-- From one engine to another (mini-raft/raft-rust/src/main.rs): what is sent is what the receiver handles,
-- and the sender gets an answer.
use mathlib.Core.List.{append-nil, append_assoc}
use distributed_sys_lab.Prelude.{
  ◌≡◌, ◌∙◌, refl, sym, ap, some, String, List, [], ◌∷◌, ◌++◌, ◌<+◌, ok, All-append, All-map,
}
use distributed_sys_lab.Protocol
use distributed_sys_lab.Protocol.{Message, AppendEntriesArgs, SideEffect}
use distributed_sys_lab.Node.AppendEntries.{handle_append_entries}
use distributed_sys_lab.Node.AppendEntries.Laws.{after, reply}
use distributed_sys_lab.Engine.{
  Platform, Process, send, print, reset_election_timer, reset_heartbeat_timer, execute_effect,
  execute_effects,
}
use distributed_sys_lab.Engine.Effects.{envelope, send_all-sent, execute_effects-node}
use distributed_sys_lab.Engine.Payloads
use distributed_sys_lab.Engine.Payloads.{IsWritten, AllWritten}
use distributed_sys_lab.Engine.Dispatch.{answer, on_append_entries, dispatch, handle_message}

module _ (p : Platform) where
  pub execute_effect-sent :
      (e : SideEffect) (w : Process p)
      → (more : List (Message p.Value)) × ((execute_effect p e w).sent ≡ w.sent ++ more)
        × AllWritten p more
  unfolding execute_effect send print reset_election_timer reset_heartbeat_timer
  execute_effect-sent (Protocol.log_message m) w = ([], sym (append-nil w.sent), tt)
  execute_effect-sent (Protocol.apply_entry index command) w = ([], sym (append-nil w.sent), tt)
  execute_effect-sent (Protocol.send_append_entries target args) w =
      (_, refl, (Payloads.append_entries args refl, tt))
  execute_effect-sent (Protocol.broadcast_append_entries args) w = (
    _,
    send_all-sent p w.node.peers _ _ w,
    All-map (IsWritten p) _ w.node.peers (λ to. Payloads.append_entries args refl),
  )
  execute_effect-sent (Protocol.broadcast_request_vote args) w = (
    _,
    send_all-sent p w.node.peers _ _ w,
    All-map (IsWritten p) _ w.node.peers (λ to. Payloads.request_vote args refl),
  )
  execute_effect-sent Protocol.reset_election_timer w = ([], sym (append-nil w.sent), tt)
  execute_effect-sent Protocol.reset_heartbeat_timer w = ([], sym (append-nil w.sent), tt)

  -- Effects only add messages after those that were sent, and each with a payload of the program.
  pub execute_effects-sent :
      (fx : List SideEffect) (w : Process p)
      → (more : List (Message p.Value)) × ((execute_effects p fx w).sent ≡ w.sent ++ more)
        × AllWritten p more
  unfolding execute_effects
  execute_effects-sent [] w = ([], sym (append-nil w.sent), tt)
  execute_effects-sent (e ∷ fx) w =
      let (first, at, one) = execute_effect-sent e w in
      let (more, rest, all) = execute_effects-sent fx (execute_effect p e w) in
      (
        first ++ more,
        rest ∙ ap (λ xs. xs ++ more) at ∙ append_assoc w.sent first more,
        All-append (IsWritten p) first more one all,
      )

  -- What a receiver does with the entries that an engine sends it, and what it answers.
  pub record Answered (a b b' : Process p) (args : AppendEntriesArgs) : Type 0 where
    pub node : b'.node ≡ after b.node args
    pub later : List (Message p.Value)
    pub sent :
        b'.sent
        ≡ (b.sent
            <+ envelope p
                (after b.node args).id
                "AppendReply"
                (p.append_reply.to_value (reply b.node args))
                a.node.id)
          ++ later

  -- When the codec reads back the arguments that it wrote, entries that one engine sends and another
  -- receives are handled there with the same arguments, without a panic, and the answer of that handler is
  -- the first message that the receiver sends, to the sender.
  pub handle_message-execute_effect :
      (a b : Process p) (target : String) (args : AppendEntriesArgs)
      → p.append_entries.from_value (p.append_entries.to_value args) ≡ some args
      → let msg = envelope p a.node.id "AppendEntries" (p.append_entries.to_value args) target in
        ((execute_effect p (Protocol.send_append_entries target args) a).sent ≡ a.sent <+ msg)
        × (b' : Process p) × (handle_message p msg b ≡ ok b')
        × Answered a b b' args
  unfolding execute_effect send handle_message dispatch on_append_entries answer
  handle_message-execute_effect a b target args reads =
      let (node, reply, fx) = handle_append_entries b.node args in
      let w =
        send p a.node.id "AppendReply" (p.append_reply.to_value reply) (record b { node = node }) in
      let (more, sent, _) = execute_effects-sent fx w in
      (
        refl,
        execute_effects p fx w,
        rw reads refl,
        record { node = execute_effects-node p fx w; later = more; sent = sent },
      )
