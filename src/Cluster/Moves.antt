-- ===== src/Cluster/Moves.antt =====
-- What a turn of a process of mini-raft/raft-rust/src/main.rs is to an election and to the log: a tick, or a
-- line from the relay.
use mathlib.Core.Path.{subst}
use mathlib.Core.List.{Memᴰ}
use mathlib.Core.List.Memᴰ
use distributed_sys_lab.Prelude.{
  All-map, ℕ, ◌≡◌, ◌≢◌, ◌∙◌, inl, inr, refl, sym, ap, none, some, String, Option, List, [], ◌∷◌,
  ◌++◌, map, leb, get_last?, Bool-cases, ok, >>=-eq-ok, ok-injective, add_u64,
}
use distributed_sys_lab.Protocol.{
  NodeState, follower, candidate, leader, Message, LogEntry, RequestVoteArgs, RequestVoteReply,
  SideEffect,
}
use distributed_sys_lab.Node.{RaftNode}
use distributed_sys_lab.Node.Election.{Quiet, Quiet-refl, Stands, Counts}
use distributed_sys_lab.Node.Calm.{Calm, Calm-nil}
use distributed_sys_lab.Node.Calm.Leading.{handle_heartbeat_timeout-Calm}
use distributed_sys_lab.Node.Timeouts.{stand, handle_heartbeat_timeout, handle_election_timeout}
use distributed_sys_lab.Node.Timeouts.Laws.{
  handle_election_timeout-cases, start_election-Stands, start_election-stand,
}
use distributed_sys_lab.Engine.{Platform, Process, heartbeat_interval, execute_effects}
use distributed_sys_lab.Engine.Effects.{execute_effects-node}
use distributed_sys_lab.Engine.Dispatch.{dispatch, handle_message, handle_line}
use distributed_sys_lab.Engine.Ticks.{
  with_election_ticks, with_heartbeat_ticks, leader_tick, election_tick, tick_at, tick,
}
use distributed_sys_lab.Cluster.Claims.{Claims, AsksForItself, Truthful}
use distributed_sys_lab.Cluster.Writes.{Writes, keeps}
use distributed_sys_lab.Cluster.Votes.{stood, causes}
use distributed_sys_lab.Cluster.Says.{
  Says, Says-refl, Says-trans, execute_effects-Says, Vouches, ask, ask-own, ask-Truthful,
  stand-sent,
}
use distributed_sys_lab.Cluster.Handles.{dispatch-Handles}

module _ (p : Platform) where
  -- Who receives a line trusts a request for votes to name its sender.
  abbrev pub LineAsks : Option (Message p.Value) → Type 0
  LineAsks none = Unit
  LineAsks (some m) = AsksForItself p m

  -- The three kinds of turn.
  pub data Change (line : Option (Message p.Value)) (n n' : RaftNode)
      (sent' : List (Message p.Value)) : Type 0 where
    quiet : Quiet n n' → Change line n n' sent'
    stands :
        Stands n n'
        → (n'.peers ≢ [] → Vouches p sent' n'.id n'.current_term)
        → Change line n n' sent'
    counts :
        (m : Message p.Value)
        → line ≡ some m
        → Claims p m m.to n.current_term
        → Counts m.from n n'
        → Change line n n' sent'

  -- What a turn sends and how it changes the node.
  pub record Moves (line : Option (Message p.Value)) (w : Process p) (n' : RaftNode)
      (sent' : List (Message p.Value)) : Type 0 where
    pub says : Says p (causes p line w.node n') n' w.sent sent'
    pub change : Change line w.node n' sent'
    pub writes : Writes p line w.node n'

  Moves-refl : (line : Option (Message p.Value)) (w : Process p) → Moves line w w.node w.sent
  Moves-refl line w = record {
    says = Says-refl p _ w.node w.sent;
    change = quiet (Quiet-refl w.node);
    writes = keeps refl;
  }

  effects-Moves :
      (fx : List SideEffect) (w w1 : Process p)
      → Calm w1.node fx
      → w1.node ≡ w.node
      → w1.sent ≡ w.sent
      → let w' = execute_effects p fx w1 in Moves none w w'.node w'.sent
  effects-Moves fx w w1 calm node sent =
      let w' = execute_effects p fx w1 in
      let cs = causes p none w.node w.node in
      let said : Says p cs w.node w.sent w'.sent =
        subst (λ n. Says p cs n w.sent w'.sent) node
          (subst (λ s. Says p cs w1.node s w'.sent) sent (execute_effects-Says p cs fx w1 calm)) in
      subst (λ n. Moves none w n w'.sent) (sym (execute_effects-node p fx w1 ∙ node))
        (record { says = said; change = quiet (Quiet-refl w.node); writes = keeps refl })

  leader_tick-Moves : (w w' : Process p) → leader_tick p w ≡ ok w' → Moves none w w'.node w'.sent
  unfolding leader_tick
  leader_tick-Moves w w' h =
      let (count, _, done) = >>=-eq-ok (add_u64 w.engine_state.heartbeat_tick_count 1) _ h in
      let w1 = with_heartbeat_ticks p count w in
      let fx = handle_heartbeat_timeout w.node in
      elim (Bool-cases (leb heartbeat_interval count)) [
        | inl due ↦
            subst (λ (x : Process p). Moves none w x.node x.sent) (ok-injective (rw due at done))
              (effects-Moves fx w w1 (handle_heartbeat_timeout-Calm w.node) refl refl)
        | inr early ↦
            subst (λ (x : Process p). Moves none w x.node x.sent) (ok-injective (rw early at done))
              (Moves-refl none w)
      ]

module _ (p : Platform)
    (reads : (x : RequestVoteArgs)
      → p.request_vote.from_value (p.request_vote.to_value x) ≡ some x) where
  -- The first request is there when there is a peer.
  first_ask :
      (n : RaftNode) (last : LogEntry) (before : List (Message p.Value)) (peers : List String)
      → peers ≢ []
      → Vouches p (before ++ map (ask p reads n last) peers) n.id n.current_term
  first_ask n last before [] some_peer = absurd (some_peer refl)
  first_ask n last before (peer ∷ peers) some_peer = record {
    message = ask p reads n last peer;
    among = Memᴰ.append_right before (Memᴰ.head refl);
    claim = ask-own p reads n last peer;
  }

  stand-Moves :
      (w w1 : Process p) (term : ℕ) (last : LogEntry)
      → w1.sent ≡ w.sent
      → get_last? w.node.log ≡ some last
      → Stands w.node (stand w.node term last).0
      → let (n', fx) = stand w.node term last in
        let w' = execute_effects p fx (record w1 { node = n' }) in Moves p none w w'.node w'.sent
  stand-Moves w w1 term last same got s =
      let (n', fx) = stand w.node term last in
      let w2 = record w1 { node = n' } in
      let w' = execute_effects p fx w2 in
      let sent : w'.sent ≡ w.sent ++ map (ask p reads n' last) n'.peers =
        stand-sent p reads w.node term last w1
        ∙ ap (λ xs. xs ++ map (ask p reads n' last) n'.peers) same in
      subst (λ n. Moves p none w n w'.sent) (sym (execute_effects-node p fx w2))
        (record {
          says = record {
            more = map (ask p reads n' last) n'.peers;
            sent = sent;
            truthful =
                All-map (Truthful p (causes p none w.node n') n') (ask p reads n' last) n'.peers
                  (λ to.
                    ask-Truthful p reads (causes p none w.node n') n' last to
                      (s.vote ∙ ap some (sym s.id)) (stood s refl refl)
                      (record {
                        votes = _;
                        stands = s.stands;
                        term = refl;
                        last = last;
                        is_last = ap get_last? s.kept.log ∙ got;
                        last_index = refl;
                        last_term = refl;
                      }));
          };
          change = Change.stands s (λ some_peer.
              subst (λ xs. Vouches p xs n'.id n'.current_term) (sym sent)
                (first_ask n' last w.sent n'.peers some_peer));
          writes = keeps s.kept.log;
        })

  -- The turn once the effects of a timeout are executed.
  abbrev AfterTimeout : Process p → Process p → RaftNode × List SideEffect → Type 0
  AfterTimeout w w1 r =
      let w' = execute_effects p r.1 (record w1 { node = r.0 }) in Moves p none w w'.node w'.sent

  timeout-Moves :
      (w w1 : Process p) (r : RaftNode × List SideEffect)
      → w1.sent ≡ w.sent
      → handle_election_timeout w.node ≡ ok r
      → AfterTimeout w w1 r
  timeout-Moves w w1 r same h = elim (handle_election_timeout-cases w.node r h) [
    | inl (_, e) ↦
        subst (AfterTimeout w w1) (sym e)
          (effects-Moves p [] w (record w1 { node = w.node }) Calm-nil refl same)
    | inr (_, started) ↦
        let (term, last, e, got) = start_election-stand w.node r started in
        let s : Stands w.node r.0 = (start_election-Stands w.node r started).0 in
        subst (AfterTimeout w w1) (sym e) (
          stand-Moves w w1 term last same got
            (subst (λ (x : RaftNode × List SideEffect). Stands w.node x.0) e s))
  ]

  election_tick-Moves :
      (w w' : Process p) → election_tick p w ≡ ok w' → Moves p none w w'.node w'.sent
  unfolding election_tick
  election_tick-Moves w w' h =
      let (count, _, done) = >>=-eq-ok (add_u64 w.engine_state.election_tick_count 1) _ h in
      elim (Bool-cases (leb w.engine_state.election_timeout_limit count)) [
        | inl due ↦
            let (r, e, rest) = >>=-eq-ok (handle_election_timeout w.node) _ (rw due at done) in
            subst (λ (x : Process p). Moves p none w x.node x.sent) (ok-injective rest)
              (timeout-Moves w (with_election_ticks p count w) r refl e)
        | inr early ↦
            subst (λ (x : Process p). Moves p none w x.node x.sent)
              (ok-injective (rw early at done)) (Moves-refl p none w)
      ]

  tick_at-Moves :
      (s : NodeState) (w w' : Process p) → tick_at p s w ≡ ok w' → Moves p none w w'.node w'.sent
  unfolding tick_at
  tick_at-Moves (leader _ _) w w' h = leader_tick-Moves p w w' h
  tick_at-Moves follower w w' h = election_tick-Moves w w' h
  tick_at-Moves (candidate _) w w' h = election_tick-Moves w w' h

  pub tick-Moves : (w w' : Process p) → tick p w ≡ ok w' → Moves p none w w'.node w'.sent
  unfolding tick
  tick-Moves w w' h = tick_at-Moves w.node.state w w' h

module _ (p : Platform)
    (reads_reply : (x : RequestVoteReply)
      → p.vote_reply.from_value (p.vote_reply.to_value x) ≡ some x) where
  message-Moves :
      (m : Message p.Value) (w w' : Process p)
      → AsksForItself p m
      → handle_message p m w ≡ ok w'
      → Moves p (some m) w w'.node w'.sent
  unfolding handle_message
  message-Moves m w w' asks h =
      let (r, e, done) = >>=-eq-ok (dispatch p m w) _ h in
      let x = dispatch-Handles p reads_reply m w r asks e in
      let w1 = execute_effects p r.1 r.0 in
      let at : Moves p (some m) w r.0.node w1.sent = record {
        says =
            Says-trans p (causes p (some m) w.node r.0.node) r.0.node w.sent r.0.sent w1.sent x.says
              (execute_effects-Says p (causes p (some m) w.node r.0.node) r.1 r.0 x.calm);
        change = elim x.change [ inl q ↦ quiet q | inr (claim, c) ↦ counts m refl claim c ];
        writes = x.writes;
      } in
      subst (λ (x : Process p). Moves p (some m) w x.node x.sent) (ok-injective done)
        (subst (λ n. Moves p (some m) w n w1.sent) (sym (execute_effects-node p r.1 r.0)) at)

  pub handle_line-Moves :
      (line : Option (Message p.Value)) (w w' : Process p)
      → LineAsks p line
      → handle_line p line w ≡ ok w'
      → Moves p line w w'.node w'.sent
  unfolding handle_line
  handle_line-Moves none w w' _ h =
      subst (λ (x : Process p). Moves p none w x.node x.sent) (ok-injective h) (Moves-refl p none w)
  handle_line-Moves (some m) w w' asks h = message-Moves m w w' asks h
