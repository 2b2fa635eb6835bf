-- ===== src/Engine/Sends.antt =====
-- What a turn of an engine (mini-raft/raft-rust/src/main.rs) adds to the messages that it has sent.
use mathlib.Core.Path.{subst}
use mathlib.Core.List.{append-nil, append_assoc}
use distributed_sys_lab.Prelude.{
  ◌≡◌, ◌∙◌, refl, sym, ap, inl, inr, Bool-cases, leb, String, Option, none, some, List, [], ◌++◌,
  ok, >>=-eq-ok, ok-injective, unwrap, str_eq, Outcome, if◌then◌else◌, Bool, true, false, add_u64,
  All-append,
}
use distributed_sys_lab.Protocol.{Message, NodeState, follower, candidate, leader, SideEffect}
use distributed_sys_lab.Node.{RaftNode}
use distributed_sys_lab.Node.RequestVote.{handle_request_vote}
use distributed_sys_lab.Node.Client.{handle_client_request}
use distributed_sys_lab.Node.VoteReply.{handle_request_vote_reply}
use distributed_sys_lab.Node.AppendReply.{handle_append_entries_reply}
use distributed_sys_lab.Node.Timeouts.{handle_heartbeat_timeout, handle_election_timeout}
use distributed_sys_lab.Engine.{Platform, Process, heartbeat_interval, send, execute_effects}
use distributed_sys_lab.Engine.Payloads
use distributed_sys_lab.Engine.Payloads.{IsPayload, IsWritten, AllWritten}
use distributed_sys_lab.Engine.Delivery.{execute_effects-sent}
use distributed_sys_lab.Engine.Dispatch.{
  Handled, answer, on_append_entries, on_request_vote, on_append_reply, on_vote_reply,
  on_client_request, dispatch, handle_message, handle_line,
}
use distributed_sys_lab.Engine.Ticks.{
  with_election_ticks, with_heartbeat_ticks, leader_tick, election_tick, tick_at, tick,
}

module _ (p : Platform) where
  -- The timers are not touched before the effects, no message is taken back, and each that is added has a
  -- payload of the program.
  pub record Sends (w : Process p) (r : Handled p) : Type 0 where
    pub engine_state : r.0.engine_state ≡ w.engine_state
    pub more : List (Message p.Value)
    pub sent : r.0.sent ≡ w.sent ++ more
    pub written : AllWritten p more

  abbrev Sending : Process p → Outcome (Handled p) → Type 0
  Sending w m = (r : Handled p) → m ≡ ok r → Sends w r

  Sending-if :
      (w : Process p) (b : Bool) (x y : Outcome (Handled p))
      → Sending w x
      → Sending w y
      → Sending w (if b then x else y)
  Sending-if w true x y f g = f
  Sending-if w false x y f g = g

  Sends-node :
      (w : Process p) (n : RaftNode) (fx : List SideEffect) → Sends w (record w { node = n }, fx)
  Sends-node w n fx = record {
    engine_state = refl;
    more = [];
    sent = sym (append-nil w.sent);
    written = tt;
  }

  answer-Sends :
      (w : Process p) (to message_type : String) (n : RaftNode) (payload : p.Value)
      (fx : List SideEffect)
      → IsPayload p payload
      → Sends w (answer p w to message_type n payload fx)
  unfolding answer send
  answer-Sends w to message_type n payload fx wrote = record {
    engine_state = refl;
    more = _;
    sent = refl;
    written = (wrote, tt);
  }

  Sends-ok : {w : Process p} {r r' : Handled p} → Sends w r → Outcome.ok r ≡ ok r' → Sends w r'
  Sends-ok {w} s e = subst (Sends w) (ok-injective e) s

  on_append_entries-Sending :
      (msg : Message p.Value) (w : Process p) → Sending w (on_append_entries p msg w)
  unfolding on_append_entries
  on_append_entries-Sending msg w r h =
      let (_, _, end) = >>=-eq-ok (unwrap (p.append_entries.from_value msg.payload)) _ h in
      Sends-ok (answer-Sends w _ _ _ _ _ (Payloads.append_reply _ refl)) end

  on_request_vote-Sending :
      (msg : Message p.Value) (w : Process p) → Sending w (on_request_vote p msg w)
  unfolding on_request_vote
  on_request_vote-Sending msg w r h =
      let (args, _, rest) = >>=-eq-ok (unwrap (p.request_vote.from_value msg.payload)) _ h in
      let (_, _, end) = >>=-eq-ok (handle_request_vote w.node args) _ rest in
      Sends-ok (answer-Sends w _ _ _ _ _ (Payloads.vote_reply _ refl)) end

  on_append_reply-Sending :
      (msg : Message p.Value) (w : Process p) → Sending w (on_append_reply p msg w)
  unfolding on_append_reply
  on_append_reply-Sending msg w r h =
      let (reply, _, rest) = >>=-eq-ok (unwrap (p.append_reply.from_value msg.payload)) _ h in
      let (_, _, end) = >>=-eq-ok (handle_append_entries_reply w.node msg.from reply) _ rest in
      Sends-ok (Sends-node w _ _) end

  on_vote_reply-Sending :
      (msg : Message p.Value) (w : Process p) → Sending w (on_vote_reply p msg w)
  unfolding on_vote_reply
  on_vote_reply-Sending msg w r h =
      let (reply, _, rest) = >>=-eq-ok (unwrap (p.vote_reply.from_value msg.payload)) _ h in
      let (_, _, end) = >>=-eq-ok (handle_request_vote_reply w.node msg.from reply) _ rest in
      Sends-ok (Sends-node w _ _) end

  on_client_request-Sending :
      (msg : Message p.Value) (w : Process p) → Sending w (on_client_request p msg w)
  unfolding on_client_request
  on_client_request-Sending msg w r h =
      let (args, _, rest) = >>=-eq-ok (unwrap (p.client_request.from_value msg.payload)) _ h in
      let (_, _, end) = >>=-eq-ok (handle_client_request w.node args) _ rest in
      Sends-ok (answer-Sends w _ _ _ _ _ (Payloads.client_reply _ refl)) end

  pub dispatch-Sends :
      (msg : Message p.Value) (w : Process p) (r : Handled p) → dispatch p msg w ≡ ok r → Sends w r
  unfolding dispatch
  dispatch-Sends msg w =
      Sending-if w (str_eq msg.message_type "AppendEntries") _ _ (on_append_entries-Sending msg w) (
        Sending-if w (str_eq msg.message_type "RequestVote") _ _ (on_request_vote-Sending msg w) (
          Sending-if w (str_eq msg.message_type "AppendReply") _ _ (on_append_reply-Sending msg w) (
            Sending-if w (str_eq msg.message_type "VoteReply") _ _ (on_vote_reply-Sending msg w) (
              Sending-if w (str_eq msg.message_type "ClientRequest") _ _
                (on_client_request-Sending msg w) (λ r h. Sends-ok (Sends-node w w.node []) h)))))

  -- The messages after a turn continue those before it with messages whose payloads are the program's.
  pub record Continues (w w' : Process p) : Type 0 where
    pub more : List (Message p.Value)
    pub sent : w'.sent ≡ w.sent ++ more
    pub written : AllWritten p more

  execute_effects-Continues :
      (fx : List SideEffect) (w w' : Process p)
      → w'.sent ≡ w.sent
      → Continues w (execute_effects p fx w')
  execute_effects-Continues fx w w' e =
      let (more, sent, all) = execute_effects-sent p fx w' in
      record { more = more; sent = sent ∙ ap (λ xs. xs ++ more) e; written = all }

  pub handle_line-Continues :
      (line : Option (Message p.Value)) (w w' : Process p)
      → handle_line p line w ≡ ok w'
      → Continues w w'
  unfolding handle_line handle_message
  handle_line-Continues none w w' h =
      subst (Continues w) (ok-injective h)
        (record { more = []; sent = sym (append-nil w.sent); written = tt })
  handle_line-Continues (some msg) w w' h =
      let (r, e, end) = >>=-eq-ok (dispatch p msg w) _ h in
      let s = dispatch-Sends msg w r e in
      let (more, sent, all) = execute_effects-sent p r.1 r.0 in
      subst (Continues w) (ok-injective end) (record {
        more = s.more ++ more;
        sent = sent ∙ ap (λ xs. xs ++ more) s.sent ∙ append_assoc w.sent s.more more;
        written = All-append (IsWritten p) s.more more s.written all;
      })

  leader_tick-Continues : (w w' : Process p) → leader_tick p w ≡ ok w' → Continues w w'
  unfolding leader_tick
  leader_tick-Continues w w' h =
      let (ticks, _, end) = >>=-eq-ok (add_u64 w.engine_state.heartbeat_tick_count 1) _ h in
      elim (Bool-cases (leb heartbeat_interval ticks)) [
        | inl due ↦
            let c =
              execute_effects-Continues (handle_heartbeat_timeout w.node) w
                (with_heartbeat_ticks p ticks w) refl in
            subst (Continues w) (ok-injective (rw due at end))
              (record { more = c.more; sent = c.sent; written = c.written })
        | inr early ↦
            subst (Continues w) (ok-injective (rw early at end))
              (record { more = []; sent = sym (append-nil w.sent); written = tt })
      ]

  election_tick-Continues : (w w' : Process p) → election_tick p w ≡ ok w' → Continues w w'
  unfolding election_tick
  election_tick-Continues w w' h =
      let (ticks, _, rest) = >>=-eq-ok (add_u64 w.engine_state.election_tick_count 1) _ h in
      elim (Bool-cases (leb w.engine_state.election_timeout_limit ticks)) [
        | inl due ↦
            let (r, _, end) = >>=-eq-ok (handle_election_timeout w.node) _ (rw due at rest) in
            subst (Continues w) (ok-injective end) (
              execute_effects-Continues r.1 w
                (record (with_election_ticks p ticks w) { node = r.0 }) refl)
        | inr early ↦
            subst (Continues w) (ok-injective (rw early at rest))
              (record { more = []; sent = sym (append-nil w.sent); written = tt })
      ]

  tick_at-Continues : (s : NodeState) (w w' : Process p) → tick_at p s w ≡ ok w' → Continues w w'
  unfolding tick_at
  tick_at-Continues (leader _ _) w w' h = leader_tick-Continues w w' h
  tick_at-Continues follower w w' h = election_tick-Continues w w' h
  tick_at-Continues (candidate _) w w' h = election_tick-Continues w w' h

  pub tick-Continues : (w w' : Process p) → tick p w ≡ ok w' → Continues w w'
  unfolding tick
  tick-Continues w w' h = tick_at-Continues w.node.state w w' h
