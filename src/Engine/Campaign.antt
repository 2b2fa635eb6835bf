-- ===== src/Engine/Campaign.antt =====
-- What a process of mini-raft/raft-rust/src/main.rs sends when its node stands for election.
use distributed_sys_lab.Prelude.{
  ℕ, ◌+◌, ◌≤◌, ◌<◌, ◌≡◌, ◌≢◌, ◌∙◌, refl, true, some, String, ◌++◌, arith, map, get_last?, ok,
  u64_limit, leb, add_u64_of_lt,
}
use distributed_sys_lab.Protocol.{
  Message, NodeState, follower, candidate, leader, LogEntry, RequestVoteArgs,
}
use distributed_sys_lab.Node.{RaftNode, build_log_event}
use distributed_sys_lab.Node.Election.{Role, role}
use distributed_sys_lab.Node.Timeouts.{stand, start_election, election_at, handle_election_timeout}
use distributed_sys_lab.Engine.{
  Platform, Process, print, reset_election_timer, execute_effect, execute_effects,
}
use distributed_sys_lab.Engine.Effects.{envelope, send_all-sent}
use distributed_sys_lab.Engine.Ticks.{with_election_ticks, election_tick, tick}
use distributed_sys_lab.Engine.Silence.{tick-waiting}

election_at-stand :
    (s : NodeState) (n : RaftNode) (last : LogEntry)
    → role s ≢ Role.leader
    → get_last? n.log ≡ some last
    → n.current_term + 1 < u64_limit
    → election_at s n ≡ ok (stand n (n.current_term + 1) last)
unfolding election_at start_election
election_at-stand (leader _ _) n last waits got fits = absurd (waits refl)
election_at-stand follower n last waits got fits =
    rw (add_u64_of_lt n.current_term 1 fits, got) refl
election_at-stand (candidate _) n last waits got fits =
    rw (add_u64_of_lt n.current_term 1 fits, got) refl

-- The arguments that a node with this last entry asks for votes with in a term.
abbrev pub asking : RaftNode → ℕ → LogEntry → RequestVoteArgs
asking n term last = record {
  term = term;
  candidate_id = n.id;
  last_log_index = last.index;
  last_log_term = last.term;
}

module _ (p : Platform) where
  abbrev pub asked : RaftNode → ℕ → LogEntry → String → Message p.Value
  asked n term last = envelope p n.id "RequestVote" (p.request_vote.to_value (asking n term last))

  -- Standing for election sends a request to each peer.
  pub stand-sent :
      (n : RaftNode) (term : ℕ) (last : LogEntry) (w : Process p)
      → let (n', fx) = stand n term last in
        (execute_effects p fx (record w { node = n' })).sent
        ≡ w.sent ++ map (asked n term last) n.peers
  unfolding stand execute_effects execute_effect print reset_election_timer build_log_event
  stand-sent n term last w = send_all-sent p n.peers _ _ _

  -- A follower or a candidate whose next tick reaches the election limit, whose log has an entry, and whose
  -- tick count and term can be counted up: the tick does not panic, and what it sends is, after what was
  -- sent before, one RequestVote for each peer in the order of the peers, from the node, with the next term,
  -- the node as the candidate, and the index and the term of the last entry of its log.
  pub tick-broadcast_request_vote :
      (w : Process p) (last : LogEntry)
      → role w.node.state ≢ Role.leader
      → w.engine_state.election_timeout_limit ≤ w.engine_state.election_tick_count + 1
      → w.engine_state.election_tick_count + 1 < u64_limit
      → get_last? w.node.log ≡ some last
      → w.node.current_term + 1 < u64_limit
      → (w' : Process p) × (tick p w ≡ ok w')
        × (w'.sent ≡ w.sent ++ map (asked w.node (w.node.current_term + 1) last) w.node.peers)
  unfolding election_tick handle_election_timeout
  tick-broadcast_request_vote w last waits due fits got term_fits =
      let count = w.engine_state.election_tick_count in
      let at : leb w.engine_state.election_timeout_limit (count + 1) ≡ true = ground arith in
      let e = election_at-stand w.node.state w.node last waits got term_fits in
      let w1 = with_election_ticks p (count + 1) w in
      let (n', fx) = stand w.node (w.node.current_term + 1) last in
      (
        execute_effects p fx (record w1 { node = n' }),
        tick-waiting p w waits ∙ (rw (add_u64_of_lt count 1 fits, at, e) refl),
        stand-sent w.node (w.node.current_term + 1) last w1,
      )
