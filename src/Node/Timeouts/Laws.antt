-- ===== src/Node/Timeouts/Laws.antt =====
-- What an election timeout of mini-raft/raft-rust/src/node.rs does.
use distributed_sys_lab.Prelude.{
  ℕ, ◌+◌, ◌<◌, ◌≡◌, ◌≢◌, ◌∙◌, ◌⊎◌, inl, inr, refl, sym, ap, some, List, [], get_last?, ok,
  u64_limit, add_u64, >>=-eq-ok, ok-injective, unwrap, unwrap-eq-ok, add_u64-eq-ok, add_u64_of_lt,
}
use distributed_sys_lab.Protocol.{NodeState, follower, candidate, leader, LogEntry, SideEffect}
use distributed_sys_lab.Node.{RaftNode}
use distributed_sys_lab.Node.Election.{Role, role, Stands}
use distributed_sys_lab.Node.Timeouts.{stand, start_election, election_at, handle_election_timeout}

pub start_election-Stands :
    (n : RaftNode) (r : RaftNode × List SideEffect)
    → start_election n ≡ ok r
    → Stands n r.0 × (r.0.log ≡ n.log) × (n.current_term + 1 < u64_limit)
unfolding start_election
start_election-Stands n r h =
    let (term, added, rest) = >>=-eq-ok (add_u64 n.current_term 1) _ h in
    let (last, got, done) = >>=-eq-ok (unwrap (get_last? n.log)) _ rest in
    let e = sym (ok-injective done) in
    let (sum, fits) = add_u64-eq-ok n.current_term 1 added in
    (
      record {
        id = ap (λ (x : RaftNode × List SideEffect). x.0.id) e;
        peers = ap (λ (x : RaftNode × List SideEffect). x.0.peers) e;
        term = ap (λ (x : RaftNode × List SideEffect). x.0.current_term) e ∙ sum;
        vote = ap (λ (x : RaftNode × List SideEffect). x.0.voted_for) e;
        stands = ap (λ (x : RaftNode × List SideEffect). role x.0.state) e;
        kept = record {
          log = ap (λ (x : RaftNode × List SideEffect). x.0.log) e;
          committed = ap (λ (x : RaftNode × List SideEffect). x.0.committed_index) e;
          applied = ap (λ (x : RaftNode × List SideEffect). x.0.last_applied) e;
        };
      },
      ap (λ (x : RaftNode × List SideEffect). x.0.log) e,
      fits,
    )

election_at-cases :
    (s : NodeState) (n : RaftNode) (r : RaftNode × List SideEffect)
    → election_at s n ≡ ok r
    → ((role s ≡ Role.leader) × (r ≡ (n, [])))
      ⊎ ((role s ≢ Role.leader) × (start_election n ≡ ok r))
unfolding election_at
election_at-cases (leader _ _) n r h = inl (refl, sym (ok-injective h))
election_at-cases follower n r h = inr ((λ e. cc), h)
election_at-cases (candidate _) n r h = inr ((λ e. cc), h)

-- A leader ignores the timeout; any other node stands for election in the next term with its own vote.
pub handle_election_timeout-cases :
    (n : RaftNode) (r : RaftNode × List SideEffect)
    → handle_election_timeout n ≡ ok r
    → ((role n.state ≡ Role.leader) × (r ≡ (n, [])))
      ⊎ ((role n.state ≢ Role.leader) × (start_election n ≡ ok r))
unfolding handle_election_timeout
handle_election_timeout-cases n r h = election_at-cases n.state n r h

pub handle_election_timeout-Stands :
    (n : RaftNode) (r : RaftNode × List SideEffect)
    → handle_election_timeout n ≡ ok r
    → ((role n.state ≡ Role.leader) × (r ≡ (n, []))) ⊎ ((role n.state ≢ Role.leader) × Stands n r.0)
handle_election_timeout-Stands n r h = elim (handle_election_timeout-cases n r h) [
  | inl l ↦ inl l
  | inr (other, s) ↦ inr (other, (start_election-Stands n r s).0)
]

-- A node that stands, and what it sends.
pub start_election-stand :
    (n : RaftNode) (r : RaftNode × List SideEffect)
    → start_election n ≡ ok r
    → (term : ℕ) × (last : LogEntry) × (r ≡ stand n term last) × (get_last? n.log ≡ some last)
unfolding start_election
start_election-stand n r h =
    let (term, _, rest) = >>=-eq-ok (add_u64 n.current_term 1) _ h in
    let (last, got, done) = >>=-eq-ok (unwrap (get_last? n.log)) _ rest in
    (term, last, sym (ok-injective done), unwrap-eq-ok (get_last? n.log) got)

start_election-ok :
    (n : RaftNode) (last : LogEntry)
    → get_last? n.log ≡ some last
    → n.current_term + 1 < u64_limit
    → (r : RaftNode × List SideEffect) × (start_election n ≡ ok r)
unfolding start_election
start_election-ok n last got fits =
    (stand n (n.current_term + 1) last, rw (add_u64_of_lt n.current_term 1 fits, got))

election_at-ok :
    (s : NodeState) (n : RaftNode) (last : LogEntry)
    → get_last? n.log ≡ some last
    → n.current_term + 1 < u64_limit
    → (r : RaftNode × List SideEffect) × (election_at s n ≡ ok r)
unfolding election_at
election_at-ok (leader _ _) n last got fits = ((n, []), refl)
election_at-ok follower n last got fits = start_election-ok n last got fits
election_at-ok (candidate _) n last got fits = start_election-ok n last got fits

-- The timeout does not panic while the log has an entry and the term can be counted up, and then a
-- leader is left as it is while any other node stands in the next term, having voted for itself only.
pub handle_election_timeout_lem :
    (n : RaftNode) (last : LogEntry)
    → get_last? n.log ≡ some last
    → n.current_term + 1 < u64_limit
    → (r : RaftNode × List SideEffect) × (handle_election_timeout n ≡ ok r)
      × (((role n.state ≡ Role.leader) × (r ≡ (n, [])))
          ⊎ ((role n.state ≢ Role.leader) × Stands n r.0))
unfolding handle_election_timeout
handle_election_timeout_lem n last got fits =
    let (r, e) = election_at-ok n.state n last got fits in
    (r, e, handle_election_timeout-Stands n r e)
