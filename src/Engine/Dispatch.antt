-- ===== src/Engine/Dispatch.antt =====
-- `handle_connection` of mini-raft/raft-rust/src/main.rs: one line from the relay.
use distributed_sys_lab.Prelude.{
  String, Option, none, some, List, [], str_eq, if◌then◌else◌, Outcome, ok, ◌>>=◌, unwrap,
}
use distributed_sys_lab.Protocol.{Message, SideEffect}
use distributed_sys_lab.Node.{RaftNode}
use distributed_sys_lab.Node.AppendEntries.{handle_append_entries}
use distributed_sys_lab.Node.RequestVote.{handle_request_vote}
use distributed_sys_lab.Node.Client.{handle_client_request}
use distributed_sys_lab.Node.VoteReply.{handle_request_vote_reply}
use distributed_sys_lab.Node.AppendReply.{handle_append_entries_reply}
use distributed_sys_lab.Engine.{Platform, Process, send, execute_effects}

module _ (p : Platform) where
  abbrev pub Handled : Type 0
  Handled = Process p × List SideEffect

  -- The node after a request, with the reply on its way to the sender.
  unfoldable pub answer :
      Process p → String → String → RaftNode → p.Value → List SideEffect → Handled
  answer w to message_type node payload effects =
      (send p to message_type payload (record w { node = node }), effects)

  -- `expect("Payload mismatch")` panics on a payload of another type.
  unfoldable pub on_append_entries : Message p.Value → Process p → Outcome Handled
  on_append_entries msg w = unwrap (p.append_entries.from_value msg.payload) >>= λ args.
      let (node, reply, effects) = handle_append_entries w.node args in
      ok (answer w msg.from "AppendReply" node (p.append_reply.to_value reply) effects)

  unfoldable pub on_request_vote : Message p.Value → Process p → Outcome Handled
  on_request_vote msg w = unwrap (p.request_vote.from_value msg.payload) >>= λ args.
      handle_request_vote w.node args >>= λ r.
      ok (answer w msg.from "VoteReply" r.0 (p.vote_reply.to_value r.1) r.2)

  unfoldable pub on_append_reply : Message p.Value → Process p → Outcome Handled
  on_append_reply msg w = unwrap (p.append_reply.from_value msg.payload) >>= λ reply.
      handle_append_entries_reply w.node msg.from reply >>= λ r. ok (record w { node = r.0 }, r.1)

  unfoldable pub on_vote_reply : Message p.Value → Process p → Outcome Handled
  on_vote_reply msg w = unwrap (p.vote_reply.from_value msg.payload) >>= λ reply.
      handle_request_vote_reply w.node msg.from reply >>= λ r. ok (record w { node = r.0 }, r.1)

  unfoldable pub on_client_request : Message p.Value → Process p → Outcome Handled
  on_client_request msg w = unwrap (p.client_request.from_value msg.payload) >>= λ args.
      handle_client_request w.node args >>= λ r.
      ok (answer w msg.from "ClientReply" r.0 (p.client_reply.to_value r.1) r.2)

  -- The `match` on the type of the message; an unknown type has no effects.
  unfoldable pub dispatch : Message p.Value → Process p → Outcome Handled
  unfolding on_append_entries on_request_vote on_append_reply on_vote_reply on_client_request
  dispatch msg w =
      if str_eq msg.message_type "AppendEntries"
      then on_append_entries msg w
      else if str_eq msg.message_type "RequestVote"
      then on_request_vote msg w
      else if str_eq msg.message_type "AppendReply"
      then on_append_reply msg w
      else if str_eq msg.message_type "VoteReply"
      then on_vote_reply msg w
      else if str_eq msg.message_type "ClientRequest"
      then on_client_request msg w
      else ok (w, [])

  unfoldable pub handle_message : Message p.Value → Process p → Outcome (Process p)
  unfolding dispatch
  handle_message msg w = dispatch msg w >>= λ r. ok (execute_effects p r.1 r.0)

  -- A line that is no message is reported and skipped.
  unfoldable pub handle_line : Option (Message p.Value) → Process p → Outcome (Process p)
  handle_line none w = ok w
  handle_line (some msg) w = handle_message msg w
