-- ===== src/Node/Runs.antt =====
-- What a run of mini-raft/raft-rust/src/node.rs keeps when the leaders it hears keep Raft's promises.
use mathlib.Core.Path.{subst}
use distributed_sys_lab.Prelude.{
  ℕ, ◌+◌, ◌≡◌, ◌≤◌, ◌∙◌, sym, ap, inl, inr, refl, String, List, arith, ok, length, get_elem?,
  get_elem?-append_left,
}
use distributed_sys_lab.Protocol.{
  RequestVoteArgs, RequestVoteReply, LogEntry, ClientRequestArgs, ClientRequestReply, SideEffect,
}
use distributed_sys_lab.Node.{RaftNode, new, last_index_or_zero}
use distributed_sys_lab.Node.Log.{IsLog}
use distributed_sys_lab.Node.Invariant.{IsValid, IsCoherent, KeepsCommitted}
use distributed_sys_lab.Node.StepDown.{stepped}
use distributed_sys_lab.Node.Election.{SameLog, SameLog-refl, stepped-SameLog}
use distributed_sys_lab.Node.AppendEntries.Keeps.{handle_append_entries-IsValid}
use distributed_sys_lab.Node.RequestVote.{decide_vote, handle_request_vote}
use distributed_sys_lab.Node.RequestVote.Laws.{VoteAnswer, Answer, stale, decided, answer_lem}
use distributed_sys_lab.Node.Client.{handle_client_request}
use distributed_sys_lab.Node.Client.Laws.{
  with_entry, with_entry-IsValid, handle_client_request-node,
}
use distributed_sys_lab.Node.Timeouts.{handle_election_timeout}
use distributed_sys_lab.Node.Timeouts.Laws.{handle_election_timeout-Stands}
use distributed_sys_lab.Node.VoteReply.Laws.{ReplyEffect, handle_request_vote_reply-ReplyEffect}
use distributed_sys_lab.Node.AppendReply.Commit.{handle_append_entries_reply-IsValid}
use distributed_sys_lab.Node.Steps.{
  Step, append_entries, request_vote, append_reply, vote_reply, client_request, election_timeout,
}

-- The later node is valid, its commit index has not fallen, and it has the entries that were committed.
pub record Keeps (n n' : RaftNode) : Type 0 where
  pub valid : IsValid n'
  pub committed : n.committed_index ≤ n'.committed_index
  pub entries : (i : ℕ) → i ≤ n.committed_index → get_elem? n'.log i ≡ get_elem? n.log i

Keeps-refl : (n : RaftNode) → IsValid n → Keeps n n
Keeps-refl n v = record { valid = v; committed = omega arith; entries = λ i h. refl }

Keeps-trans : {a b c : RaftNode} → Keeps a b → Keeps b c → Keeps a c
Keeps-trans s t = record {
  valid = t.valid;
  committed = omega (arith, s.committed, t.committed);
  entries = λ i h. t.entries i (omega (arith, s.committed)) ∙ s.entries i h;
}

SameLog-Keeps : (n n' : RaftNode) → IsValid n → SameLog n n' → Keeps n n'
SameLog-Keeps n n' v s = record {
  valid = record {
    is_log = subst IsLog (sym s.log) v.is_log;
    committed_within =
        omega (arith, v.committed_within, s.committed, ap (λ (l : List LogEntry). length l) s.log);
    applied_within = omega (arith, v.applied_within, s.committed, s.applied);
  };
  committed = omega (arith, s.committed);
  entries = λ i h. ap (λ l. get_elem? l i) s.log;
}

decide_vote-SameLog :
    (m : RaftNode) (args : RequestVoteArgs) (last : LogEntry) (fx : List SideEffect)
    → SameLog m (decide_vote m args last fx).0
unfolding decide_vote
decide_vote-SameLog m args last fx = record {
  log = ground arith;
  committed = ground arith;
  applied = ground arith;
}

SameLog-trans : {a b c : RaftNode} → SameLog a b → SameLog b c → SameLog a c
SameLog-trans s t = record {
  log = t.log ∙ s.log;
  committed = t.committed ∙ s.committed;
  applied = t.applied ∙ s.applied;
}

pub handle_request_vote-SameLog :
    (n : RaftNode) (args : RequestVoteArgs) (r : VoteAnswer)
    → handle_request_vote n args ≡ ok r
    → SameLog n r.0
handle_request_vote-SameLog n args r h = go (answer_lem n args r h)
  where
    go : Answer n args r → SameLog n r.0
    go (stale _ same _) = subst (SameLog n) (sym same) (SameLog-refl n)
    go (decided last fx _ _ e) =
        subst (λ (x : VoteAnswer). SameLog n x.0) (sym e)
          (SameLog-trans (stepped-SameLog n args.term)
            (decide_vote-SameLog (stepped n args.term) args last fx))

handle_election_timeout-SameLog :
    (n : RaftNode) (r : RaftNode × List SideEffect)
    → handle_election_timeout n ≡ ok r
    → SameLog n r.0
handle_election_timeout-SameLog n r h = elim (handle_election_timeout-Stands n r h) [
  | inl (_, e) ↦ subst (λ (x : RaftNode × List SideEffect). SameLog n x.0) (sym e) (SameLog-refl n)
  | inr (_, s) ↦ s.kept
]

pub ReplyEffect-SameLog :
    {n n' : RaftNode} (from : String) (reply : RequestVoteReply)
    → ReplyEffect n from reply n'
    → SameLog n n'
ReplyEffect-SameLog from reply (inl (_, s)) = s
ReplyEffect-SameLog from reply (inr (_, _, c)) = c.kept

with_entry-Keeps :
    (n : RaftNode) (command : String)
    → IsValid n
    → Keeps n (with_entry n command (last_index_or_zero n.log + 1))
with_entry-Keeps n command v = record {
  valid = with_entry-IsValid n command v;
  committed = omega arith;
  entries = λ i h. get_elem?-append_left n.log _ i (omega (arith, v.committed_within));
}

handle_client_request-Keeps :
    (n : RaftNode) (args : ClientRequestArgs) (r : RaftNode × ClientRequestReply × List SideEffect)
    → IsValid n
    → handle_client_request n args ≡ ok r
    → Keeps n r.0
handle_client_request-Keeps n args r v h = elim (handle_client_request-node n args r h) [
  | inl (_, e) ↦ subst (Keeps n) (sym e) (with_entry-Keeps n args.command v)
  | inr e ↦ subst (Keeps n) (sym e) (Keeps-refl n v)
]

-- What Raft's leaders promise: a message of entries reaches its own commit index, and repeats what the
-- receiver has committed. The other steps need no promise.
unfoldable pub Promised : (n n' : RaftNode) → Step n n' → Type 0
Promised n n' (append_entries args _) = IsCoherent args × KeepsCommitted n args
Promised n n' _ = Unit {0}

-- A run in which the promises are kept.
pub data Run : RaftNode → RaftNode → Type 0 where
  done : (n : RaftNode) → Run n n
  step : {a b c : RaftNode} (s : Step a b) → Promised a b s → Run b c → Run a c

Step-Keeps : (n n' : RaftNode) (s : Step n n') → IsValid n → Promised n n' s → Keeps n n'
unfolding Promised
Step-Keeps n n' (append_entries args e) v (c, k) =
    let (valid, committed, entries) = handle_append_entries-IsValid n args v c k in
    subst (Keeps n) e (record { valid = valid; committed = committed; entries = entries })
Step-Keeps n n' (request_vote args r h e) v _ =
    subst (Keeps n) e (SameLog-Keeps n r.0 v (handle_request_vote-SameLog n args r h))
Step-Keeps n n' (append_reply from reply r h e) v _ =
    let (valid, log, committed) = handle_append_entries_reply-IsValid n from reply r v h in
    subst (Keeps n) e (record {
      valid = valid;
      committed = committed;
      entries = λ i _. ap (λ l. get_elem? l i) log;
    })
Step-Keeps n n' (vote_reply from reply r h e) v _ =
    let effect = handle_request_vote_reply-ReplyEffect n from reply r h in
    subst (Keeps n) e (SameLog-Keeps n r.0 v (ReplyEffect-SameLog from reply effect))
Step-Keeps n n' (client_request args r h e) v _ =
    subst (Keeps n) e (handle_client_request-Keeps n args r v h)
Step-Keeps n n' (election_timeout r h e) v _ =
    subst (Keeps n) e (SameLog-Keeps n r.0 v (handle_election_timeout-SameLog n r h))

-- Over any run of a valid node in which the senders of entries keep their promises, the node stays valid,
-- its commit index never falls, and what it has committed stays in its log.
pub Run-Keeps : (n n' : RaftNode) → Run n n' → IsValid n → Keeps n n'
Run-Keeps n n' (done _) v = Keeps-refl n v
Run-Keeps n n' (step {b = b} s p rest) v =
    let k = Step-Keeps n b s v p in Keeps-trans k (Run-Keeps b n' rest k.valid)

new-IsValid : (id : String) (peers : List String) → IsValid (new id peers)
unfolding new
new-IsValid id peers = omega arith

-- Every node that `new` makes is valid after any run in which the senders of entries keep their promises.
pub Run-new : (id : String) (peers : List String) (n : RaftNode) → Run (new id peers) n → IsValid n
Run-new id peers n run = (Run-Keeps (new id peers) n run (new-IsValid id peers)).valid
