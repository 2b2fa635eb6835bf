-- ===== src/Cluster/Says.antt =====
-- What the effects of a handler of mini-raft/raft-rust/src/node.rs send, as far as votes go.
use mathlib.Core.Path.{subst}
use mathlib.Core.List.{append-nil, append_assoc, Memᴰ}
use mathlib.Core.Option.{some-injective}
use distributed_sys_lab.Prelude.{
  All, All-append, All-map, ℕ, ◌≡◌, ◌∙◌, refl, sym, ap, some, String, List, [], ◌∷◌, ◌++◌, ◌<+◌,
  map,
}
use distributed_sys_lab.Protocol
use distributed_sys_lab.Protocol.{
  Message, LogEntry, AppendEntriesArgs, RequestVoteArgs, RequestVoteReply, SideEffect,
}
use distributed_sys_lab.Node.{RaftNode}
use distributed_sys_lab.Node.Calm.{Fine, Calm}
use distributed_sys_lab.Node.Slices.{Offers}
use distributed_sys_lab.Node.Timeouts.{stand}
use distributed_sys_lab.Engine.{
  Platform, Process, send, print, reset_election_timer, reset_heartbeat_timer, execute_effect,
  execute_effects,
}
use distributed_sys_lab.Engine.Campaign
use distributed_sys_lab.Engine.Effects.{envelope, send_all-sent, execute_effect-node}
use distributed_sys_lab.Cluster.Claims.{
  Causes, Requests, Claims, granted, own, Truthful, other-Truthful,
}

module _ (p : Platform) where
  -- A vote for a candidate in a term is claimed by one of the messages.
  pub record Vouches (sent : List (Message p.Value)) (candidate_id : String) (term : ℕ)
      : Type 0 where
    pub message : Message p.Value
    pub among : Memᴰ message sent
    pub claim : Claims p message candidate_id term

module _ (p : Platform) (k : Causes) where
  -- The messages that were added to those sent before; a node may send them.
  pub record Says (n : RaftNode) (before after : List (Message p.Value)) : Type 0 where
    pub more : List (Message p.Value)
    pub sent : after ≡ before ++ more
    pub truthful : All (Truthful p k n) more

  pub Says-refl : (n : RaftNode) (before : List (Message p.Value)) → Says n before before
  Says-refl n before = record { more = []; sent = sym (append-nil before); truthful = tt }

  pub Says-trans :
      (n : RaftNode) (a b c : List (Message p.Value)) → Says n a b → Says n b c → Says n a c
  Says-trans n a b c s t = record {
    more = s.more ++ t.more;
    sent = t.sent ∙ ap (λ xs. xs ++ t.more) s.sent ∙ append_assoc a s.more t.more;
    truthful = All-append (Truthful p k n) s.more t.more s.truthful t.truthful;
  }

  pub Says-one :
      (n : RaftNode) (before : List (Message p.Value)) (m : Message p.Value)
      → Truthful p k n m
      → Says n before (before <+ m)
  Says-one n before m t = record { more = m ∷ []; sent = refl; truthful = (t, tt) }

  entries-Truthful :
      (n : RaftNode) (args : AppendEntriesArgs) (to : String)
      → Offers n args
      → Truthful p k n (envelope p n.id "AppendEntries" (p.append_entries.to_value args) to)
  entries-Truthful n args to offers =
      other-Truthful p k n _ refl refl refl
        (λ _. record { args = args; written = refl; offers = offers })

  execute_effect-Says :
      (e : SideEffect) (w : Process p)
      → Fine w.node e
      → Says w.node w.sent (execute_effect p e w).sent
  unfolding execute_effect send print reset_election_timer reset_heartbeat_timer
  execute_effect-Says (Protocol.log_message m) w _ = Says-refl w.node w.sent
  execute_effect-Says (Protocol.apply_entry index command) w _ = Says-refl w.node w.sent
  execute_effect-Says (Protocol.send_append_entries target args) w offers =
      Says-one w.node w.sent _ (entries-Truthful w.node args target offers)
  execute_effect-Says (Protocol.broadcast_append_entries args) w offers = record {
    more = _;
    sent = send_all-sent p w.node.peers _ _ w;
    truthful =
        All-map (Truthful p k w.node) _ w.node.peers (λ to. entries-Truthful w.node args to offers);
  }
  execute_effect-Says (Protocol.broadcast_request_vote args) w asks = absurd asks
  execute_effect-Says Protocol.reset_election_timer w _ = Says-refl w.node w.sent
  execute_effect-Says Protocol.reset_heartbeat_timer w _ = Says-refl w.node w.sent

  -- Effects that ask for no votes claim none.
  pub execute_effects-Says :
      (fx : List SideEffect) (w : Process p)
      → Calm w.node fx
      → Says w.node w.sent (execute_effects p fx w).sent
  unfolding execute_effects
  execute_effects-Says [] w c = Says-refl w.node w.sent
  execute_effects-Says (e ∷ fx) w c =
      let w1 = execute_effect p e w in
      let calm : Calm w1.node fx =
        subst (λ n. Calm n fx) (sym (execute_effect-node p e w)) (record { calm = c.calm.1 }) in
      let rest =
        subst (λ n. Says n w1.sent (execute_effects p fx w1).sent) (execute_effect-node p e w)
          (execute_effects-Says fx w1 calm) in
      Says-trans w.node w.sent w1.sent _ (execute_effect-Says e w c.calm.0) rest

module _ (p : Platform)
    (reads : (x : RequestVoteArgs)
      → p.request_vote.from_value (p.request_vote.to_value x) ≡ some x) where
  -- The request of a node that stands.
  abbrev pub request_of : RaftNode → LogEntry → RequestVoteArgs
  request_of n last = record {
    term = n.current_term;
    candidate_id = n.id;
    last_log_index = last.index;
    last_log_term = last.term;
  }

  abbrev pub ask : RaftNode → LogEntry → String → Message p.Value
  ask n last = envelope p n.id "RequestVote" (p.request_vote.to_value (request_of n last))

  read_back :
      (x args : RequestVoteArgs)
      → p.request_vote.from_value (p.request_vote.to_value x) ≡ some args
      → args ≡ x
  read_back x args e = some-injective args x (sym e ∙ reads x)

  ask-Claims :
      (n : RaftNode) (last : LogEntry) (to c : String) (term : ℕ)
      → n.voted_for ≡ some n.id
      → Claims p (ask n last to) c term
      → (term ≡ n.current_term) × (n.voted_for ≡ some c)
  ask-Claims n last to c term voted (granted _ e _ _ _ _) = cc e
  ask-Claims n last to c term voted (own args _ e at by) =
      let back = read_back (request_of n last) args e in
      (
        sym at ∙ ap (λ (x : RequestVoteArgs). x.term) back,
        voted ∙ ap some (sym (ap (λ (x : RequestVoteArgs). x.candidate_id) back) ∙ by),
      )

  pub ask-Truthful :
      (k : Causes) (n : RaftNode) (last : LogEntry) (to : String)
      → n.voted_for ≡ some n.id
      → k.vote n.id n.current_term
      → Requests n (request_of n last)
      → Truthful p k n (ask n last to)
  ask-Truthful k n last to voted cause request = record {
    requests = λ args _ e. subst (Requests n) (sym (read_back (request_of n last) args e)) request;
    signed = refl;
    quotes = λ e. cc e;
    asks = λ args _ e.
        ap (λ (x : RequestVoteArgs). x.candidate_id) (read_back (request_of n last) args e);
    claims = λ c term h.
        let (now, mine) = ask-Claims n last to c term voted h in
        let me : n.id ≡ c = some-injective n.id c (sym voted ∙ mine) in
        (now, mine, subst (λ x. k.vote x term) me (subst (k.vote n.id) (sym now) cause));
  }

  -- The message of a node that stands claims its own vote.
  pub ask-own :
      (n : RaftNode) (last : LogEntry) (to : String) → Claims p (ask n last to) n.id n.current_term
  ask-own n last to = own (request_of n last) refl (reads (request_of n last)) refl refl

  -- Standing for election sends a request to each peer.
  pub stand-sent :
      (n : RaftNode) (term : ℕ) (last : LogEntry) (w : Process p)
      → let (n', fx) = stand n term last in
        (execute_effects p fx (record w { node = n' })).sent ≡ w.sent ++ map (ask n' last) n'.peers
  unfolding stand
  stand-sent n term last w = Campaign.stand-sent p n term last w
