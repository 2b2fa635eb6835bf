-- ===== src/Engine/Payloads.antt =====
-- The payloads that mini-raft/raft-rust/src/main.rs puts into its messages.
use distributed_sys_lab.Prelude.{◌≡◌, List, All}
use distributed_sys_lab.Protocol.{
  Message, AppendEntriesArgs, AppendEntriesReply, RequestVoteArgs, RequestVoteReply,
  ClientRequestReply,
}
use distributed_sys_lab.Engine.{Platform}

module _ (p : Platform) where
  -- `serde_json::to_value` of the arguments or the reply of a call.
  pub data IsPayload (v : p.Value) : Type 0 where
    append_entries : (x : AppendEntriesArgs) → v ≡ p.append_entries.to_value x → IsPayload v
    append_reply : (x : AppendEntriesReply) → v ≡ p.append_reply.to_value x → IsPayload v
    request_vote : (x : RequestVoteArgs) → v ≡ p.request_vote.to_value x → IsPayload v
    vote_reply : (x : RequestVoteReply) → v ≡ p.vote_reply.to_value x → IsPayload v
    client_reply : (x : ClientRequestReply) → v ≡ p.client_reply.to_value x → IsPayload v

  abbrev pub IsWritten : Message p.Value → Type 0
  IsWritten m = IsPayload m.payload

  abbrev pub AllWritten : List (Message p.Value) → Type 0
  AllWritten ms = All IsWritten ms
