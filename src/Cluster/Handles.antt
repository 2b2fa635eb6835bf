-- ===== src/Cluster/Handles.antt =====
-- What a process of mini-raft/raft-rust/src/main.rs does with a message, as far as votes and logs go.
use mathlib.Core.Path.{subst}
use mathlib.Core.Option.{some-injective}
use distributed_sys_lab.Prelude.{
  ℕ, ◌≡◌, ◌∙◌, ◌⊎◌, inl, inr, refl, sym, ap, Bool, true, false, some, String, str_eq, eq_iff,
  if◌then◌else◌, Outcome, ok, unwrap, unwrap-eq-ok, >>=-eq-ok, ok-injective,
}
use distributed_sys_lab.Protocol.{Message, RequestVoteArgs, RequestVoteReply}
use distributed_sys_lab.Node.{RaftNode}
use distributed_sys_lab.Node.Election.{Quiet, Quiet-refl, Counts}
use distributed_sys_lab.Node.Calm.{Calm, Calm-nil}
use distributed_sys_lab.Node.Calm.Appends.{handle_append_entries-Calm}
use distributed_sys_lab.Node.Calm.Votes.{handle_request_vote-Calm, handle_request_vote_reply-Calm}
use distributed_sys_lab.Node.Calm.Leading.{
  handle_client_request-Calm, handle_append_entries_reply-Calm,
}
use distributed_sys_lab.Node.AppendEntries.Roles.{handle_append_entries-Quiet}
use distributed_sys_lab.Node.RequestVote.{handle_request_vote}
use distributed_sys_lab.Node.RequestVote.Laws.{VoteAnswer, handle_request_vote-Granted}
use distributed_sys_lab.Node.RequestVote.Roles.{handle_request_vote-Quiet}
use distributed_sys_lab.Node.Client.{handle_client_request}
use distributed_sys_lab.Node.Client.Laws.{handle_client_request-Quiet}
use distributed_sys_lab.Node.VoteReply.{handle_request_vote_reply}
use distributed_sys_lab.Node.VoteReply.Laws.{handle_request_vote_reply-ReplyEffect}
use distributed_sys_lab.Node.AppendReply.{handle_append_entries_reply}
use distributed_sys_lab.Node.AppendReply.Roles.{
  handle_append_entries_reply-Quiet, handle_append_entries_reply-log,
}
use distributed_sys_lab.Node.Runs.{handle_request_vote-SameLog, ReplyEffect-SameLog}
use distributed_sys_lab.Engine.{Platform, Process, send}
use distributed_sys_lab.Engine.Effects.{envelope}
use distributed_sys_lab.Engine.Dispatch.{
  Handled, answer, on_append_entries, on_request_vote, on_append_reply, on_vote_reply,
  on_client_request, dispatch,
}
use distributed_sys_lab.Cluster.Claims.{Claims, granted, own, AsksForItself, other-Truthful}
use distributed_sys_lab.Cluster.Writes.{
  Writes, keeps, handle_append_entries-Writes, handle_client_request-Writes,
}
use distributed_sys_lab.Cluster.Votes.{VoteCause, granted_to, causes}
use distributed_sys_lab.Cluster.Says.{Says, Says-refl, Says-one}

if_cases :
    {A : Type 0} (P : A → Type 0) (b : Bool) (x y : A)
    → (b ≡ true → P x)
    → P y
    → P (if b then x else y)
if_cases P true x y f g = f refl
if_cases P false x y f g = g

module _ (p : Platform)
    (reads : (x : RequestVoteReply)
      → p.vote_reply.from_value (p.vote_reply.to_value x) ≡ some x) where
  -- A message is handled without a change of role, or a vote for the receiver of the message is counted.
  pub record Handles (m : Message p.Value) (w : Process p) (r : Handled p) : Type 0 where
    pub says : Says p (causes p (some m) w.node r.0.node) r.0.node w.sent r.0.sent
    pub calm : Calm r.0.node r.1
    pub writes : Writes p (some m) w.node r.0.node
    pub change :
        Quiet w.node r.0.node
        ⊎ (Claims p m m.to w.node.current_term × Counts m.from w.node r.0.node)

  abbrev Handling : Message p.Value → Process p → Outcome (Handled p) → Type 0
  Handling m w o = (r : Handled p) → o ≡ ok r → Handles m w r

  on_append_entries-Handling :
      (m : Message p.Value) (w : Process p)
      → m.message_type ≡ "AppendEntries"
      → Handling m w (on_append_entries p m w)
  unfolding on_append_entries answer send
  on_append_entries-Handling m w is_entries r h =
      let (args, read, done) = >>=-eq-ok (unwrap (p.append_entries.from_value m.payload)) _ h in
      subst (Handles m w) (ok-injective done) (record {
        says = Says-one p _ _ w.sent _ (other-Truthful p _ _ _ refl refl refl (λ e. cc e));
        calm = handle_append_entries-Calm w.node args;
        writes =
            handle_append_entries-Writes p w.node m args is_entries
              (unwrap-eq-ok (p.append_entries.from_value m.payload) read);
        change = inl (handle_append_entries-Quiet w.node args);
      })

  -- A vote that the reply grants is the vote that the node has given.
  vote-Claims :
      (m : Message p.Value) (n : RaftNode) (args : RequestVoteArgs) (a : VoteAnswer) (c : String)
      (term : ℕ)
      → m.message_type ≡ "RequestVote"
      → p.request_vote.from_value m.payload ≡ some args
      → handle_request_vote n args ≡ ok a
      → args.candidate_id ≡ m.from
      → Claims p (envelope p a.0.id "VoteReply" (p.vote_reply.to_value a.1) m.from) c term
      → (term ≡ a.0.current_term) × (a.0.voted_for ≡ some c) × VoteCause p (some m) n a.0 c term
  vote-Claims m n args a c term type read h itself (own _ e _ _ _) = cc e
  vote-Claims m n args a c term type read h itself (granted reply _ e yes_vote at to) =
      let back = some-injective reply a.1 (sym e ∙ reads a.1) in
      let g =
        handle_request_vote-Granted n args a h
          (sym (ap (λ (x : RequestVoteReply). x.vote_granted) back) ∙ yes_vote) in
      (
        sym at ∙ ap (λ (x : RequestVoteReply). x.term) back ∙ g.reply_term ∙ sym g.term,
        g.vote ∙ ap some (itself ∙ to),
        granted_to m args g.last refl type read g.is_last g.grants.up_to_date (itself ∙ to)
            (sym g.reply_term ∙ sym (ap (λ (x : RequestVoteReply). x.term) back) ∙ at),
      )

  on_request_vote-Handling :
      (m : Message p.Value) (w : Process p)
      → m.message_type ≡ "RequestVote"
      → AsksForItself p m
      → Handling m w (on_request_vote p m w)
  unfolding on_request_vote answer send
  on_request_vote-Handling m w is_request asks r h =
      let (args, read, rest) = >>=-eq-ok (unwrap (p.request_vote.from_value m.payload)) _ h in
      let (a, voted, done) = >>=-eq-ok (handle_request_vote w.node args) _ rest in
      let got = unwrap-eq-ok (p.request_vote.from_value m.payload) read in
      let itself = asks args is_request got in
      subst (Handles m w) (ok-injective done) (record {
        says = Says-one p _ a.0 w.sent _ (record {
          signed = refl;
          asks = λ _ e _. cc e;
          quotes = λ e. cc e;
          requests = λ _ e _. cc e;
          claims = λ c term k. vote-Claims m w.node args a c term is_request got voted itself k;
        });
        calm = handle_request_vote-Calm w.node args a voted;
        writes = keeps (handle_request_vote-SameLog w.node args a voted).log;
        change = inl (handle_request_vote-Quiet w.node args a voted);
      })

  on_append_reply-Handling :
      (m : Message p.Value) (w : Process p) → Handling m w (on_append_reply p m w)
  unfolding on_append_reply
  on_append_reply-Handling m w r h =
      let (reply, _, rest) = >>=-eq-ok (unwrap (p.append_reply.from_value m.payload)) _ h in
      let (a, handled, done) = >>=-eq-ok (handle_append_entries_reply w.node m.from reply) _ rest in
      subst (Handles m w) (ok-injective done) (record {
        says = Says-refl p _ a.0 w.sent;
        calm = handle_append_entries_reply-Calm w.node m.from reply a handled;
        writes = keeps (handle_append_entries_reply-log w.node m.from reply a handled);
        change = inl (handle_append_entries_reply-Quiet w.node m.from reply a handled);
      })

  on_vote_reply-Handling :
      (m : Message p.Value) (w : Process p)
      → m.message_type ≡ "VoteReply"
      → Handling m w (on_vote_reply p m w)
  unfolding on_vote_reply
  on_vote_reply-Handling m w is_reply r h =
      let (reply, read, rest) = >>=-eq-ok (unwrap (p.vote_reply.from_value m.payload)) _ h in
      let (a, handled, done) = >>=-eq-ok (handle_request_vote_reply w.node m.from reply) _ rest in
      subst (Handles m w) (ok-injective done) (record {
        says = Says-refl p _ a.0 w.sent;
        calm = handle_request_vote_reply-Calm w.node m.from reply a handled;
        writes =
            keeps
              (ReplyEffect-SameLog m.from reply
                (handle_request_vote_reply-ReplyEffect w.node m.from reply a handled)).log;
        change = elim (handle_request_vote_reply-ReplyEffect w.node m.from reply a handled) [
          | inl (q, _) ↦ inl q
          | inr (at, yes_vote, counts) ↦ inr (
            granted reply is_reply (unwrap-eq-ok (p.vote_reply.from_value m.payload) read) yes_vote
                at refl,
            counts,
          )
        ];
      })

  on_client_request-Handling :
      (m : Message p.Value) (w : Process p) → Handling m w (on_client_request p m w)
  unfolding on_client_request answer send
  on_client_request-Handling m w r h =
      let (args, _, rest) = >>=-eq-ok (unwrap (p.client_request.from_value m.payload)) _ h in
      let (a, handled, done) = >>=-eq-ok (handle_client_request w.node args) _ rest in
      subst (Handles m w) (ok-injective done) (record {
        says = Says-one p _ a.0 w.sent _ (other-Truthful p _ _ _ refl refl refl (λ e. cc e));
        calm = handle_client_request-Calm w.node args a handled;
        writes = handle_client_request-Writes p (some m) w.node args a handled;
        change = inl (handle_client_request-Quiet w.node args a handled);
      })

  pub dispatch-Handles :
      (m : Message p.Value) (w : Process p) (r : Handled p)
      → AsksForItself p m
      → dispatch p m w ≡ ok r
      → Handles m w r
  unfolding dispatch
  dispatch-Handles m w r asks =
      if_cases (Handling m w) (str_eq m.message_type "AppendEntries") _ _
        (λ e. on_append_entries-Handling m w ((eq_iff _ _).0 e))
        (if_cases (Handling m w) (str_eq m.message_type "RequestVote") _ _
          (λ e. on_request_vote-Handling m w ((eq_iff _ _).0 e) asks)
          (if_cases (Handling m w) (str_eq m.message_type "AppendReply") _ _
            (λ _. on_append_reply-Handling m w)
            (if_cases (Handling m w) (str_eq m.message_type "VoteReply") _ _
              (λ e. on_vote_reply-Handling m w ((eq_iff _ _).0 e))
              (if_cases (Handling m w) (str_eq m.message_type "ClientRequest") _ _
                (λ _. on_client_request-Handling m w)
                (λ r' h. subst (Handles m w) (ok-injective h) (record {
                  says = Says-refl p _ w.node w.sent;
                  calm = Calm-nil;
                  writes = keeps refl;
                  change = inl (Quiet-refl w.node);
                }))))))
        r
