-- ===== src/Tests/Wire.antt =====
-- A platform for the engine of mini-raft/raft-rust/src/main.rs, over a given generator of timeouts.
use distributed_sys_lab.Prelude.{ℕ, Option, none, some}
use distributed_sys_lab.Protocol.{
  AppendEntriesArgs, AppendEntriesReply, RequestVoteArgs, RequestVoteReply, ClientRequestArgs,
  ClientRequestReply,
}
use distributed_sys_lab.Engine.{Platform}

-- A codec that keeps what it is given.
pub data Payload : Type 0 where
  append_entries : AppendEntriesArgs → Payload
  append_reply : AppendEntriesReply → Payload
  request_vote : RequestVoteArgs → Payload
  vote_reply : RequestVoteReply → Payload
  client_request : ClientRequestArgs → Payload
  client_reply : ClientRequestReply → Payload

abbrev append_entries_of : Payload → Option AppendEntriesArgs
append_entries_of (append_entries x) = some x
append_entries_of _ = none

abbrev append_reply_of : Payload → Option AppendEntriesReply
append_reply_of (append_reply x) = some x
append_reply_of _ = none

abbrev request_vote_of : Payload → Option RequestVoteArgs
request_vote_of (request_vote x) = some x
request_vote_of _ = none

abbrev vote_reply_of : Payload → Option RequestVoteReply
vote_reply_of (vote_reply x) = some x
vote_reply_of _ = none

abbrev client_request_of : Payload → Option ClientRequestArgs
client_request_of (client_request x) = some x
client_request_of _ = none

abbrev client_reply_of : Payload → Option ClientRequestReply
client_reply_of (client_reply x) = some x
client_reply_of _ = none

abbrev pub wire : (ℕ → ℕ × ℕ) → Platform
wire range = record {
  Rng = ℕ;
  gen_range = range;
  Value = Payload;
  append_entries = record { to_value = append_entries; from_value = append_entries_of };
  append_reply = record { to_value = append_reply; from_value = append_reply_of };
  request_vote = record { to_value = request_vote; from_value = request_vote_of };
  vote_reply = record { to_value = vote_reply; from_value = vote_reply_of };
  client_request = record { to_value = client_request; from_value = client_request_of };
  client_reply = record { to_value = client_reply; from_value = client_reply_of };
}
