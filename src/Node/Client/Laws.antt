-- ===== src/Node/Client/Laws.antt =====
-- What `propose_command` and `handle_client_request` (mini-raft/raft-rust/src/node.rs) do.
use mathlib.Core.Path.{subst}
use distributed_sys_lab.Prelude.{
  ℕ, ◌+◌, ◌≡◌, ◌≢◌, ◌∙◌, ◌⊎◌, inl, inr, refl, sym, ap, some, none, String, true, false, List, [],
  ◌∷◌, arith, ok, add_u64, >>=-eq-ok, ok-injective, add_u64-eq-ok, ◌<+◌, length, length-append,
}
use distributed_sys_lab.Protocol.{
  NodeState, follower, candidate, leader, LogEntry, SideEffect, ClientRequestArgs,
  ClientRequestReply,
}
use distributed_sys_lab.Node.{RaftNode, last_index_or_zero}
use distributed_sys_lab.Node.Log.{last_index_or_zero-IsLog, push-IsLog}
use distributed_sys_lab.Node.Invariant.{IsValid}
use distributed_sys_lab.Node.Election.{Role, role, Quiet, Quiet-refl, SameVoter-Quiet}
use distributed_sys_lab.Node.Client.{
  Proposal, append_command, propose_at, propose_command, client_reply, handle_client_request,
}

-- The node of a leader with a new entry at the end of its log.
abbrev pub with_entry : RaftNode → String → ℕ → RaftNode
with_entry n command index = record n {
  log = n.log <+ record { term = n.current_term; index = index; command = command };
}

propose_at-cases :
    (s : NodeState) (n : RaftNode) (command : String) (p : Proposal)
    → propose_at s n command ≡ ok p
    → ((role s ≡ Role.leader)
        × (p.0 ≡ with_entry n command (last_index_or_zero n.log + 1))
        × (p.1 ≡ some (last_index_or_zero n.log + 1, n.current_term)))
      ⊎ ((role s ≢ Role.leader) × (p.0 ≡ n) × (p.1 ≡ none))
unfolding propose_at append_command
propose_at-cases (leader _ _) n command p h =
    let (index, added, done) = >>=-eq-ok (add_u64 (last_index_or_zero n.log) 1) _ h in
    let e = sym (ok-injective done) in
    let (sum, _) = add_u64-eq-ok (last_index_or_zero n.log) 1 added in
    inl (
      refl,
      ap (λ (x : Proposal). x.0) e ∙ ap (with_entry n command) sum,
      ap (λ (x : Proposal). x.1) e ∙ ap (λ (i : ℕ). some (i, n.current_term)) sum,
    )
propose_at-cases follower n command p h = inr ((λ e. cc), cc, cc)
propose_at-cases (candidate _) n command p h = inr ((λ e. cc), cc, cc)

-- A leader appends the command after its last entry, in its own term; any other node keeps its log.
pub propose_command-cases :
    (n : RaftNode) (command : String) (p : Proposal)
    → propose_command n command ≡ ok p
    → ((role n.state ≡ Role.leader)
        × (p.0 ≡ with_entry n command (last_index_or_zero n.log + 1))
        × (p.1 ≡ some (last_index_or_zero n.log + 1, n.current_term)))
      ⊎ ((role n.state ≢ Role.leader) × (p.0 ≡ n) × (p.1 ≡ none))
unfolding propose_command
propose_command-cases n command p h = propose_at-cases n.state n command p h

propose_command-Quiet :
    (n : RaftNode) (command : String) (p : Proposal)
    → propose_command n command ≡ ok p
    → Quiet n p.0
propose_command-Quiet n command p h = elim (propose_command-cases n command p h) [
  | inl (_, e, _) ↦
      rw e (SameVoter-Quiet (record { id = refl; peers = refl; term = refl; vote = refl }) refl)
  | inr (_, e, _) ↦ rw e (Quiet-refl n)
]

-- A leader's log grows by the command at its end, and its invariant is kept.
pub with_entry-IsValid :
    (n : RaftNode) (command : String)
    → IsValid n
    → IsValid (with_entry n command (last_index_or_zero n.log + 1))
with_entry-IsValid n command v =
    let new : LogEntry = record {
      term = n.current_term;
      index = last_index_or_zero n.log + 1;
      command = command;
    } in
    record {
      is_log = push-IsLog n.log new v.is_log (last_index_or_zero-IsLog n.log v.is_log);
      committed_within = omega (arith, v.committed_within, length-append n.log (new ∷ []));
      applied_within = v.applied_within;
    }

client_reply-cases :
    (n : RaftNode) (args : ClientRequestArgs) (r : RaftNode × ClientRequestReply × List SideEffect)
    → handle_client_request n args ≡ ok r
    → (p : Proposal) × (propose_command n args.command ≡ ok p)
      × (r ≡ (p.0, client_reply p.0 p.1, p.2))
unfolding handle_client_request
client_reply-cases n args r h =
    let (p, e, done) = >>=-eq-ok (propose_command n args.command) _ h in
    (p, e, sym (ok-injective done))

pub handle_client_request-Quiet :
    (n : RaftNode) (args : ClientRequestArgs) (r : RaftNode × ClientRequestReply × List SideEffect)
    → handle_client_request n args ≡ ok r
    → Quiet n r.0
handle_client_request-Quiet n args r h =
    let (p, e, done) = client_reply-cases n args r h in
    subst (λ (x : RaftNode × ClientRequestReply × List SideEffect). Quiet n x.0) (sym done)
      (propose_command-Quiet n args.command p e)

-- The node after a request: a leader's with a new entry, or as before.
pub handle_client_request-node :
    (n : RaftNode) (args : ClientRequestArgs) (r : RaftNode × ClientRequestReply × List SideEffect)
    → handle_client_request n args ≡ ok r
    → ((role n.state ≡ Role.leader)
        × (r.0 ≡ with_entry n args.command (last_index_or_zero n.log + 1)))
      ⊎ (r.0 ≡ n)
handle_client_request-node n args r h =
    let (p, e, done) = client_reply-cases n args r h in
    let at = ap (λ (x : RaftNode × ClientRequestReply × List SideEffect). x.0) done in
    elim (propose_command-cases n args.command p e) [
      | inl (leads, node, _) ↦ inl (leads, at ∙ node)
      | inr (_, node, _) ↦ inr (at ∙ node)
    ]

-- On a valid node a client's request keeps the node valid. A leader appends the command as the entry of
-- its term at the position past the end of its log and reports success with its own name; any other
-- node is left as it is and reports failure with the leader that it knows.
pub handle_client_request_lem :
    (n : RaftNode) (args : ClientRequestArgs) (r : RaftNode × ClientRequestReply × List SideEffect)
    → IsValid n
    → handle_client_request n args ≡ ok r
    → IsValid r.0
      × (((role n.state ≡ Role.leader)
            × (r.1.success ≡ true)
            × (r.1.leader_id ≡ some n.id)
            × (r.0.log
                ≡ n.log <+ record {
                  term = n.current_term;
                  index = length n.log;
                  command = args.command;
                }))
          ⊎ ((role n.state ≢ Role.leader)
              × (r.1.success ≡ false)
              × (r.1.leader_id ≡ n.leader_id)
              × (r.0 ≡ n)))
unfolding client_reply
handle_client_request_lem n args r v h =
    let (p, e, done) = client_reply-cases n args r h in
    elim (propose_command-cases n args.command p e) [
      | inl (lead, node, info) ↦
          let index = last_index_or_zero-IsLog n.log v.is_log in
          let at : r.0 ≡ with_entry n args.command (last_index_or_zero n.log + 1) =
            ap (λ (x : RaftNode × ClientRequestReply × List SideEffect). x.0) done ∙ node in
          (
            subst IsValid (sym at) (with_entry-IsValid n args.command v),
            inl (
              lead,
              ground (arith, done, info),
              ground (arith, done, info, node),
              ap (λ (m : RaftNode). m.log) at
                  ∙ ap
                      (λ (i : ℕ).
                        n.log
                        <+ record { term = n.current_term; index = i; command = args.command })
                      index,
            ),
          )
      | inr (other, node, info) ↦
          let at : r.0 ≡ n =
            ap (λ (x : RaftNode × ClientRequestReply × List SideEffect). x.0) done ∙ node in
          (
            subst IsValid (sym at) v,
            inr (other, ground (arith, done, info), ground (arith, done, info, node), at),
          )
    ]
