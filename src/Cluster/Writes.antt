-- ===== src/Cluster/Writes.antt =====
-- What the handlers of mini-raft/raft-rust/src/node.rs do to the log.
use distributed_sys_lab.Prelude.{
  ◌+◌, ◌≡◌, ◌∙◌, refl, sym, ap, inl, inr, true, some, String, Option, List, arith, ok, get_elem?,
  Bool-cases,
}
use distributed_sys_lab.Protocol.{
  Message, LogEntry, AppendEntriesArgs, ClientRequestArgs, ClientRequestReply, SideEffect,
}
use distributed_sys_lab.Node.{RaftNode, last_index_or_zero}
use distributed_sys_lab.Node.Election.{Role, role}
use distributed_sys_lab.Node.Client.{handle_client_request}
use distributed_sys_lab.Node.Client.Laws.{with_entry, handle_client_request-node}
use distributed_sys_lab.Node.AppendEntries.Laws.{
  has_matching_prev_entry-HasEntry, after, reply, success_lem, following-match,
}
use distributed_sys_lab.Node.AppendEntries.Keeps.{
  accepted_lem, refused_lem, handle_append_entries-term,
}
use distributed_sys_lab.Node.AppendEntries.Store.{stored_all}
use distributed_sys_lab.Node.AppendEntries.Result.{committed_to, following, accepted}
use distributed_sys_lab.Engine.{Platform}

-- The entries of a message are stored in a log that has the entry before them.
pub record Stores (log : List LogEntry) (args : AppendEntriesArgs) (log' : List LogEntry)
    : Type 0 where
  pub prev : LogEntry
  pub at : get_elem? log args.prev_log_index ≡ some prev
  pub term : prev.term ≡ args.prev_log_term
  pub result : log' ≡ stored_all log args.entries

accepted-Stores :
    (n : RaftNode) (args : AppendEntriesArgs)
    → (reply n args).success ≡ true
    → Stores n.log args (after n args).log
accepted-Stores n args h =
    let s = success_lem n args h in
    let (prev, at, term) =
      has_matching_prev_entry-HasEntry n args.prev_log_index args.prev_log_term
        (sym (following-match n args _ _) ∙ s.matching) in
    record { prev = prev; at = at; term = term; result = (accepted_lem n args h).log }

-- Whoever stores entries follows their sender.
success-follower :
    (n : RaftNode) (args : AppendEntriesArgs)
    → (reply n args).success ≡ true
    → role (after n args).state ≡ Role.follower
unfolding accepted committed_to following
success-follower n args h = ap (λ (m : RaftNode). role m.state) (success_lem n args h).node

-- Whoever stores entries is in the term of their sender.
success-term :
    (n : RaftNode) (args : AppendEntriesArgs)
    → (reply n args).success ≡ true
    → (after n args).current_term ≡ args.term
success-term n args h =
    omega (arith, handle_append_entries-term n args, (success_lem n args h).current)

module _ (p : Platform) where
  -- The log is left alone, a leader adds an entry of its term at the end, or a follower stores the entries of
  -- a message.
  pub data Writes (line : Option (Message p.Value)) (n n' : RaftNode) : Type 0 where
    keeps : n'.log ≡ n.log → Writes line n n'
    proposes :
        (command : String)
        → role n.state ≡ Role.leader
        → n' ≡ with_entry n command (last_index_or_zero n.log + 1)
        → Writes line n n'
    stores :
        (m : Message p.Value) (args : AppendEntriesArgs)
        → line ≡ some m
        → m.message_type ≡ "AppendEntries"
        → p.append_entries.from_value m.payload ≡ some args
        → role n'.state ≡ Role.follower
        → n'.current_term ≡ args.term
        → Stores n.log args n'.log
        → Writes line n n'

  pub handle_append_entries-Writes :
      (n : RaftNode) (m : Message p.Value) (args : AppendEntriesArgs)
      → m.message_type ≡ "AppendEntries"
      → p.append_entries.from_value m.payload ≡ some args
      → Writes (some m) n (after n args)
  handle_append_entries-Writes n m args type read = elim (Bool-cases (reply n args).success) [
    | inl good ↦
        stores m args refl type read (success-follower n args good) (success-term n args good)
          (accepted-Stores n args good)
    | inr bad ↦ keeps (refused_lem n args bad).log
  ]

  pub handle_client_request-Writes :
      (line : Option (Message p.Value)) (n : RaftNode) (args : ClientRequestArgs)
      (r : RaftNode × ClientRequestReply × List SideEffect)
      → handle_client_request n args ≡ ok r
      → Writes line n r.0
  handle_client_request-Writes line n args r h = elim (handle_client_request-node n args r h) [
    | inl (leads, e) ↦ proposes args.command leads e
    | inr e ↦ keeps (ap (λ (x : RaftNode). x.log) e)
  ]
