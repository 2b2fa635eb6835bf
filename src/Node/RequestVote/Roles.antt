-- ===== src/Node/RequestVote/Roles.antt =====
-- Voting changes no role but by a newer term (mini-raft/raft-rust/src/node.rs).
use mathlib.Core.Path.{subst}
use distributed_sys_lab.Prelude.{◌≡◌, ◌∙◌, inl, inr, sym, ap, List, arith, ok}
use distributed_sys_lab.Protocol.{RequestVoteArgs, LogEntry, SideEffect}
use distributed_sys_lab.Node.{RaftNode}
use distributed_sys_lab.Node.StepDown.{stepped}
use distributed_sys_lab.Node.Election.{role, Quiet, Quiet-refl, stepped-Quiet}
use distributed_sys_lab.Node.RequestVote.{decide_vote, handle_request_vote}
use distributed_sys_lab.Node.RequestVote.Laws.{
  VoteAnswer, Answer, stale, decided, answer_lem, handle_request_vote-Follows,
}

decide_vote-role :
    (m : RaftNode) (args : RequestVoteArgs) (last : LogEntry) (fx : List SideEffect)
    → let n' = (decide_vote m args last fx).0 in
      (n'.current_term ≡ m.current_term) × (role n'.state ≡ role m.state)
unfolding decide_vote
decide_vote-role m args last fx = (ground arith, ground arith)

pub handle_request_vote-Quiet :
    (n : RaftNode) (args : RequestVoteArgs) (r : VoteAnswer)
    → handle_request_vote n args ≡ ok r
    → Quiet n r.0
handle_request_vote-Quiet n args r h = go (answer_lem n args r h)
  where
    go : Answer n args r → Quiet n r.0
    go (stale _ same _) = subst (Quiet n) (sym same) (Quiet-refl n)
    go (decided last fx _ _ e) =
        let m = stepped n args.term in
        let (term, kept) = decide_vote-role m args last fx in
        let at = ap (λ (x : VoteAnswer). x.0) e in
        record {
          follows = handle_request_vote-Follows n args r h;
          stays = elim (stepped-Quiet n args.term).stays [
            | inl f ↦ inl (ap (λ (a : RaftNode). role a.state) at ∙ kept ∙ f)
            | inr (t, s) ↦ inr (
              ap (λ (a : RaftNode). a.current_term) at ∙ term ∙ t,
              ap (λ (a : RaftNode). role a.state) at ∙ kept ∙ s,
            )
          ];
        }
