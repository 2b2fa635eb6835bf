-- ===== src/Engine/Panics.antt =====
-- Which messages make `handle_connection` (mini-raft/raft-rust/src/main.rs) panic.
use distributed_sys_lab.Prelude.{
  ◌+◌, ◌<◌, ◌≡◌, ◌∙◌, ◌↔◌, refl, sym, ap, inl, inr, Bool-cases, panic≢ok, Bool, true, false, Option,
  none, some, str_eq, if◌then◌else◌, Outcome, ok, panic, ◌>>=◌, unwrap, u64_limit,
}
use distributed_sys_lab.Protocol.{Message, AppendEntriesReply}
use distributed_sys_lab.Node.RequestVote.{handle_request_vote}
use distributed_sys_lab.Node.RequestVote.Laws.{handle_request_vote_lem}
use distributed_sys_lab.Node.Client.{handle_client_request}
use distributed_sys_lab.Node.VoteReply.{handle_request_vote_reply}
use distributed_sys_lab.Node.AppendReply.{handle_append_entries_reply}
use distributed_sys_lab.Node.Answers.{
  Answers, bind-Answers, HasRoom, handle_request_vote_reply-Answers,
  handle_append_entries_reply-Answers, handle_client_request-Answers,
}
use distributed_sys_lab.Engine.{Platform, Process, execute_effects}
use distributed_sys_lab.Engine.Dispatch.{
  Handled, on_append_entries, on_request_vote, on_append_reply, on_vote_reply, on_client_request,
  dispatch, handle_message,
}

-- A `Some`.
abbrev present : {A : Type 0} → Option A → Bool
present none = false
present (some _) = true

-- Code that panics without its argument, and returns with it.
record Follows (readable : Bool) {A : Type 0} (o : Outcome A) : Type 0 where
  pub unreadable : readable ≡ false → o ≡ panic
  pub answers : readable ≡ true → Answers o

unwrap-Follows :
    {A B : Type 0} (o : Option A) (next : A → Outcome B)
    → ((a : A) → o ≡ some a → Answers (next a))
    → Follows (present o) (unwrap o >>= next)
unwrap-Follows none next h = record { unreadable = λ _. refl; answers = λ e. cc e }
unwrap-Follows (some a) next h = record { unreadable = λ e. cc e; answers = λ _. h a refl }

if-Follows :
    {A : Type 0} (b r s : Bool) (x y : Outcome A)
    → Follows r x
    → Follows s y
    → Follows (if b then r else s) (if b then x else y)
if-Follows true r s x y f g = f
if-Follows false r s x y f g = g

module _ (p : Platform) where
  -- The payload is what the type of the message says; of an unknown type, it may be anything.
  abbrev pub is_readable : Message p.Value → Bool
  is_readable msg =
      if str_eq msg.message_type "AppendEntries"
      then present (p.append_entries.from_value msg.payload)
      else if str_eq msg.message_type "RequestVote"
      then present (p.request_vote.from_value msg.payload)
      else if str_eq msg.message_type "AppendReply"
      then present (p.append_reply.from_value msg.payload)
      else if str_eq msg.message_type "VoteReply"
      then present (p.vote_reply.from_value msg.payload)
      else if str_eq msg.message_type "ClientRequest"
      then present (p.client_request.from_value msg.payload)
      else true

  -- A match index in the payload can be counted up.
  abbrev IsSmall : Message p.Value → Type 0
  IsSmall msg =
      (reply : AppendEntriesReply)
      → p.append_reply.from_value msg.payload ≡ some reply
      → reply.match_index + 1 < u64_limit

  dispatch-Follows :
      (msg : Message p.Value) (w : Process p)
      → HasRoom w.node.log
      → IsSmall msg
      → Follows (is_readable msg) (dispatch p msg w)
  unfolding dispatch on_append_entries on_request_vote on_append_reply on_vote_reply
      on_client_request
  dispatch-Follows msg w room small =
      if-Follows (str_eq msg.message_type "AppendEntries") _ _ _ _
        (unwrap-Follows (p.append_entries.from_value msg.payload) _ (λ args _. (_, refl)))
        (if-Follows (str_eq msg.message_type "RequestVote") _ _ _ _
          (unwrap-Follows (p.request_vote.from_value msg.payload) _ (λ args _.
            let (r, e, _) = handle_request_vote_lem w.node args room.last room.is_last in
            bind-Answers (handle_request_vote w.node args) _ (r, e) (λ _. (_, refl))))
          (if-Follows (str_eq msg.message_type "AppendReply") _ _ _ _
            (unwrap-Follows (p.append_reply.from_value msg.payload) _ (λ reply e.
              bind-Answers (handle_append_entries_reply w.node msg.from reply) _
                (handle_append_entries_reply-Answers w.node msg.from reply room (small reply e))
                (λ _. (_, refl))))
            (if-Follows (str_eq msg.message_type "VoteReply") _ _ _ _
              (unwrap-Follows (p.vote_reply.from_value msg.payload) _ (λ reply _.
                bind-Answers (handle_request_vote_reply w.node msg.from reply) _
                  (handle_request_vote_reply-Answers w.node msg.from reply room) (λ _. (_, refl))))
              (if-Follows (str_eq msg.message_type "ClientRequest") _ _ _ _
                (unwrap-Follows (p.client_request.from_value msg.payload) _ (λ args _.
                  bind-Answers (handle_client_request w.node args) _
                    (handle_client_request-Answers w.node args room) (λ _. (_, refl))))
                (record { unreadable = λ e. cc e; answers = λ _. (_, refl) })))))

  -- A node whose log has a last entry, with an index that can be counted up, gets a message; a match index
  -- in it, if there is one, can be counted up. The thread of the connection panics exactly where the payload
  -- is not what the type of the message says; every other message is handled.
  pub handle_message-panic_iff :
      (msg : Message p.Value) (w : Process p)
      → HasRoom w.node.log
      → ((reply : AppendEntriesReply)
          → p.append_reply.from_value msg.payload ≡ some reply
          → reply.match_index + 1 < u64_limit)
      → (handle_message p msg w ≡ panic) ↔ (is_readable msg ≡ false)
  unfolding handle_message
  handle_message-panic_iff msg w room small =
      let f = dispatch-Follows msg w room small in
      (
        λ h. elim (Bool-cases (is_readable msg)) [
          | inl readable ↦
              let (w', done) =
                bind-Answers (dispatch p msg w) _ (f.answers readable) (λ r. (_, refl)) in
              absurd (panic≢ok (sym h ∙ done))
          | inr garbled ↦ garbled
        ],
        λ e.
            ap (λ (o : Outcome (Handled p)). o >>= λ r. ok (execute_effects p r.1 r.0))
              (f.unreadable e),
      )
