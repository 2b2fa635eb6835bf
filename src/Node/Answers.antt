-- ===== src/Node/Answers.antt =====
-- Panics of the handlers of mini-raft/raft-rust/src/node.rs.
use distributed_sys_lab.Prelude.{
  ℕ, ◌+◌, ◌-◌, ◌<◌, ◌≡◌, refl, ap, inl, inr, Bool-cases, ◌&&◌, String, some, List, [], ◌∷◌, ◌<+◌,
  arith, get_elem?-some, ltb, ◌==◌, ◌/◌, length, length-append, get_last?, Dict, insert, add, sort,
  Outcome, ok, ◌>>=◌, unwrap, add_u64, add_u64_of_lt, u64_limit, bind_ok,
}
use distributed_sys_lab.Prelude.Sort.Median.{length-sort}
use distributed_sys_lab.Protocol.{
  NodeState, follower, candidate, leader, LogEntry, AppendEntriesReply, RequestVoteReply,
  ClientRequestArgs, SideEffect,
}
use distributed_sys_lab.Node.{RaftNode, build_log_event, maybe_step_down, last_index_or_zero}
use distributed_sys_lab.Node.Client.{propose_at, propose_command, handle_client_request}
use distributed_sys_lab.Node.VoteReply
use distributed_sys_lab.Node.VoteReply.{
  init_indices, become_leader, count_vote, handle_request_vote_reply,
}
use distributed_sys_lab.Node.AppendReply
use distributed_sys_lab.Node.AppendReply.{
  majority, majority_index, commit_potential, check_commit, record_success, retry, receipt,
  handle_append_entries_reply,
}

-- The code returns a value.
abbrev pub Answers {ℓ} : {A : Type ℓ} → Outcome A → Type ℓ
Answers {A = A} o = (a : A) × (o ≡ ok a)

pub bind-Answers {ℓ κ} :
    {A : Type ℓ} {B : Type κ} (first : Outcome A) (next : A → Outcome B)
    → Answers first
    → ((a : A) → Answers (next a))
    → Answers (first >>= next)
bind-Answers first next (a, done) rest = let (b, end) = rest a in (b, bind_ok first next done end)

-- The log has a last entry, and the next index is a `u64`.
pub record HasRoom (log : List LogEntry) : Type 0 where
  pub last : LogEntry
  pub is_last : get_last? log ≡ some last
  pub fits : last.index + 1 < u64_limit

init_indices-Answers :
    (peers : List String) (last : ℕ) (next match : Dict)
    → last + 1 < u64_limit
    → Answers (init_indices peers last next match)
unfolding init_indices
init_indices-Answers [] last next match fits = (_, refl)
init_indices-Answers (peer ∷ peers) last next match fits =
    bind-Answers (add_u64 last 1) _ (_, add_u64_of_lt last 1 fits)
      (λ k. init_indices-Answers peers last (insert peer k next) (insert peer 0 match) fits)

become_leader-Answers :
    (n : RaftNode) (fx : List SideEffect) → HasRoom n.log → Answers (become_leader n fx)
unfolding become_leader
become_leader-Answers n fx room =
    let (d, filled) = init_indices-Answers n.peers room.last.index [] [] room.fits in
    (
      _,
      bind_ok (unwrap (get_last? n.log)) _ (ap unwrap room.is_last)
          (bind_ok (init_indices n.peers room.last.index [] []) _ filled refl),
    )

count_vote-Answers :
    (n : RaftNode) (votes : List String) (from : String) (fx : List SideEffect)
    → HasRoom n.log
    → Answers (count_vote n votes from fx)
unfolding count_vote
count_vote-Answers n votes from fx room =
    elim (Bool-cases (ltb ((length n.peers + 1) / 2) (length (add from votes)))) [
      | inl won ↦
          rw won (become_leader-Answers (record n { state = candidate (add from votes) }) _ room)
      | inr short ↦ rw short (_, refl)
    ]

vote_reply_at-Answers :
    (s : NodeState) (n : RaftNode) (from : String) (reply : RequestVoteReply) (fx : List SideEffect)
    → HasRoom n.log
    → Answers (VoteReply.reply_at s n from reply fx)
unfolding VoteReply.reply_at
vote_reply_at-Answers (candidate votes) n from reply fx room =
    elim (Bool-cases ((reply.term == n.current_term) && reply.vote_granted)) [
      | inl counted ↦ rw counted (count_vote-Answers n votes from fx room)
      | inr other ↦ rw other (_, refl)
    ]
vote_reply_at-Answers follower n from reply fx room = (_, refl)
vote_reply_at-Answers (leader _ _) n from reply fx room = (_, refl)

maybe_step_down-HasRoom :
    (n : RaftNode) (term : ℕ) → HasRoom n.log → HasRoom (maybe_step_down n term []).0.log
unfolding maybe_step_down
maybe_step_down-HasRoom n term room = elim (Bool-cases (ltb n.current_term term)) [
  | inl newer ↦ rw newer room
  | inr same ↦ rw same room
]

pub handle_request_vote_reply-Answers :
    (n : RaftNode) (from : String) (reply : RequestVoteReply)
    → HasRoom n.log
    → Answers (handle_request_vote_reply n from reply)
unfolding handle_request_vote_reply
handle_request_vote_reply-Answers n from reply room =
    let (n', fx, stepped_down) = maybe_step_down n reply.term [] in
    elim (Bool-cases stepped_down) [
      | inl newer ↦ rw newer (_, refl)
      | inr same ↦ rw same (
          vote_reply_at-Answers n'.state n' from reply fx
            (maybe_step_down-HasRoom n reply.term room))
    ]

majority_index-Answers :
    (n : RaftNode) (ms : List ℕ) → HasRoom n.log → Answers (majority_index n ms)
unfolding majority_index majority
majority_index-Answers n ms room =
    let arr = ms <+ room.last.index in
    let (m, at) =
      get_elem?-some (sort arr) (length (sort arr) - ((length n.peers + 1) / 2 + 1))
        (omega (arith, length-sort arr, length-append ms (room.last.index ∷ []))) in
    (m, bind_ok (unwrap (get_last? n.log)) _ (ap unwrap room.is_last) (ap unwrap at))

check_commit-Answers :
    (n : RaftNode) (ms : List ℕ) (fx : List SideEffect)
    → HasRoom n.log
    → Answers (check_commit n ms fx)
unfolding check_commit
check_commit-Answers n [] fx room = (_, refl)
check_commit-Answers n (m ∷ ms) fx room =
    bind-Answers (majority_index n (m ∷ ms)) _ (majority_index-Answers n (m ∷ ms) room)
      (λ potential. (_, refl))

append_reply_at-Answers :
    (s : NodeState) (n : RaftNode) (from : String) (reply : AppendEntriesReply)
    (fx : List SideEffect)
    → HasRoom n.log
    → reply.match_index + 1 < u64_limit
    → Answers (AppendReply.reply_at s n from reply fx)
unfolding AppendReply.reply_at record_success
append_reply_at-Answers (leader next match) n from reply fx room small =
    elim (Bool-cases reply.success) [
      | inl good ↦ rw good (
          bind-Answers (add_u64 reply.match_index 1) _ (_, add_u64_of_lt reply.match_index 1 small)
            (λ k. check_commit-Answers _ _ _ room))
      | inr bad ↦ rw bad (_, refl)
    ]
append_reply_at-Answers follower n from reply fx room small = (_, refl)
append_reply_at-Answers (candidate _) n from reply fx room small = (_, refl)

pub handle_append_entries_reply-Answers :
    (n : RaftNode) (from : String) (reply : AppendEntriesReply)
    → HasRoom n.log
    → reply.match_index + 1 < u64_limit
    → Answers (handle_append_entries_reply n from reply)
unfolding handle_append_entries_reply
handle_append_entries_reply-Answers n from reply room small =
    let (n', fx, stepped_down) = maybe_step_down n reply.term [] in
    elim (Bool-cases stepped_down) [
      | inl newer ↦ rw newer (_, refl)
      | inr same ↦ elim (Bool-cases (reply.term == n'.current_term)) [
        | inl now ↦
            rw (same, now)
              (append_reply_at-Answers n'.state n' from reply
                (fx <+ build_log_event n' (receipt from reply))
                (maybe_step_down-HasRoom n reply.term room) small)
        | inr old ↦ rw (same, old) (_, refl)
      ]
    ]

propose_at-Answers :
    (s : NodeState) (n : RaftNode) (command : String)
    → HasRoom n.log
    → Answers (propose_at s n command)
unfolding propose_at last_index_or_zero
propose_at-Answers (leader _ _) n command room =
    bind-Answers (add_u64 (last_index_or_zero n.log) 1) _
      (
        _,
        add_u64_of_lt (last_index_or_zero n.log) 1
            (rw (last_index_or_zero, room.is_last) room.fits),
      )
      (λ index. (_, refl))
propose_at-Answers follower n command room = (_, refl)
propose_at-Answers (candidate _) n command room = (_, refl)

pub handle_client_request-Answers :
    (n : RaftNode) (args : ClientRequestArgs)
    → HasRoom n.log
    → Answers (handle_client_request n args)
unfolding handle_client_request propose_command
handle_client_request-Answers n args room =
    bind-Answers (propose_at n.state n args.command) _
      (propose_at-Answers n.state n args.command room) (λ p. (_, refl))
