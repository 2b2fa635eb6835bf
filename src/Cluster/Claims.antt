-- ===== src/Cluster/Claims.antt =====
-- What a message of mini-raft/raft-rust/src/main.rs says about votes, and what the messages that a process
-- sends may say.
use mathlib.Core.Bool.{false≢true}
use distributed_sys_lab.Prelude.{
  str_eq, eq_iff, true, false, ℕ, ◌≡◌, ◌≢◌, ◌∙◌, sym, some, String, List, get_last?,
}
use distributed_sys_lab.Node.Election.{Role, role}
use distributed_sys_lab.Protocol.{
  LogEntry, Message, AppendEntriesArgs, RequestVoteArgs, RequestVoteReply,
}
use distributed_sys_lab.Node.{RaftNode}
use distributed_sys_lab.Node.Slices.{Offers}
use distributed_sys_lab.Engine.{Platform}

-- A request for votes is a candidate's, in its term, with the end of its log.
pub record Requests (n : RaftNode) (args : RequestVoteArgs) : Type 0 where
  pub votes : List String
  pub stands : role n.state ≡ Role.candidate votes
  pub term : args.term ≡ n.current_term
  pub last : LogEntry
  pub is_last : get_last? n.log ≡ some last
  pub last_index : args.last_log_index ≡ last.index
  pub last_term : args.last_log_term ≡ last.term

-- Why a node may claim what it claims: a vote for a candidate in a term.
pub record Causes : Type 1 where
  pub vote : String → ℕ → Type 0

module _ (p : Platform) where
  -- What the message `m` says: its sender votes for a candidate in a term.
  pub data Claims (m : Message p.Value) (candidate_id : String) (term : ℕ) : Type 0 where
    granted :
        (reply : RequestVoteReply)
        → m.message_type ≡ "VoteReply"
        → p.vote_reply.from_value m.payload ≡ some reply
        → reply.vote_granted ≡ true
        → reply.term ≡ term
        → m.to ≡ candidate_id
        → Claims m candidate_id term
    own :
        (args : RequestVoteArgs)
        → m.message_type ≡ "RequestVote"
        → p.request_vote.from_value m.payload ≡ some args
        → args.term ≡ term
        → args.candidate_id ≡ candidate_id
        → Claims m candidate_id term

  -- Who asks for votes, asks for itself.
  abbrev pub AsksForItself : Message p.Value → Type 0
  AsksForItself m =
      (args : RequestVoteArgs)
      → m.message_type ≡ "RequestVote"
      → p.request_vote.from_value m.payload ≡ some args
      → args.candidate_id ≡ m.from

  -- The entries in the message are the node's to offer.
  pub record Quotes (n : RaftNode) (m : Message p.Value) : Type 0 where
    pub args : AppendEntriesArgs
    pub written : m.payload ≡ p.append_entries.to_value args
    pub offers : Offers n args

  -- What a node may send: a message under its own name, which claims no vote but the node's of this term, and
  -- holds no entries but the node's.
  pub record Truthful (k : Causes) (n : RaftNode) (m : Message p.Value) : Type 0 where
    pub signed : m.from ≡ n.id
    pub asks : AsksForItself m
    pub requests :
        (args : RequestVoteArgs)
        → m.message_type ≡ "RequestVote"
        → p.request_vote.from_value m.payload ≡ some args
        → Requests n args
    pub quotes : m.message_type ≡ "AppendEntries" → Quotes n m
    pub claims :
        (c : String) (term : ℕ)
        → Claims m c term
        → (term ≡ n.current_term) × (n.voted_for ≡ some c) × k.vote c term

  -- A message of another type claims nothing.
  pub other-Truthful :
      (k : Causes) (n : RaftNode) (m : Message p.Value)
      → m.from ≡ n.id
      → str_eq m.message_type "VoteReply" ≡ false
      → str_eq m.message_type "RequestVote" ≡ false
      → (m.message_type ≡ "AppendEntries" → Quotes n m)
      → Truthful k n m
  other-Truthful k n m signed no_reply no_request quotes = record {
    quotes = quotes;
    requests = λ args e _. absurd (differ "RequestVote" no_request e);
    signed = signed;
    asks = λ args e _. absurd (differ "RequestVote" no_request e);
    claims = λ c term. silent c term;
  }
    where
      differ : (text : String) → str_eq m.message_type text ≡ false → m.message_type ≢ text
      differ text no_match e = false≢true (sym no_match ∙ (eq_iff m.message_type text).1 e)

      silent :
          (c : String) (term : ℕ)
          → Claims m c term
          → (term ≡ n.current_term) × (n.voted_for ≡ some c) × k.vote c term
      silent c term (granted _ e _ _ _ _) = absurd (differ "VoteReply" no_reply e)
      silent c term (own _ e _ _ _) = absurd (differ "RequestVote" no_request e)
