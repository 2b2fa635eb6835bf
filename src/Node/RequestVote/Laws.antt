-- ===== src/Node/RequestVote/Laws.antt =====
-- When `handle_request_vote` (mini-raft/raft-rust/src/node.rs) grants a vote, and what it leaves.
use mathlib.Core.Path.{subst}
use distributed_sys_lab.Prelude.{
  ℕ, ◌≤◌, ◌<◌, ◌≡◌, ◌↔◌, ◌⊎◌, inl, inr, ◌∙◌, sym, ap, true, false, none, some, List, [], ◌∷◌, arith,
  ltb, eq_iff, Bool-cases, Option-cases, ltb→le, get_last?, ok, unwrap, >>=-eq-ok, ok-injective,
  unwrap-eq-ok, ltb→lt,
}
use distributed_sys_lab.Protocol.{LogEntry, RequestVoteArgs, RequestVoteReply, SideEffect}
use distributed_sys_lab.Node.{RaftNode, build_log_event, maybe_step_down}
use distributed_sys_lab.Node.Messages
use distributed_sys_lab.Node.StepDown.{stepped, maybe_step_down-stepped}
use distributed_sys_lab.Node.Voter.{Follows, Follows-refl, Follows-trans, stepped-Follows}
use distributed_sys_lab.Node.RequestVote.{
  is_up_to_date, can_vote_for, decide_vote, handle_request_vote,
}

-- The candidate's log is at least as up to date as one that ends with an entry (paper 5.4.1).
abbrev pub IsUpToDate : RequestVoteArgs → LogEntry → Type 0
IsUpToDate args last =
    (last.term < args.last_log_term)
    ⊎ ((args.last_log_term ≡ last.term) × (last.index ≤ args.last_log_index))

-- The voter has no vote in the candidate's term, or one for this candidate.
abbrev pub MayVote : RaftNode → RequestVoteArgs → Type 0
MayVote n args =
    (n.current_term < args.term) ⊎ ((n.voted_for ≡ none) ⊎ (n.voted_for ≡ some args.candidate_id))

abbrev pub VoteAnswer : Type 0
VoteAnswer = RaftNode × RequestVoteReply × List SideEffect

module _ (n : RaftNode) (args : RequestVoteArgs) where
  -- The two ways to an answer.
  pub data Answer (r : VoteAnswer) : Type 0 where
    stale :
        args.term < n.current_term
        → r.0 ≡ n
        → r.1 ≡ record { term = n.current_term; vote_granted = false }
        → Answer r
    decided :
        (last : LogEntry) (fx : List SideEffect)
        → n.current_term ≤ args.term
        → get_last? (stepped n args.term).log ≡ some last
        → r ≡ decide_vote (stepped n args.term) args last fx
        → Answer r

  pub answer_lem : (r : VoteAnswer) → handle_request_vote n args ≡ ok r → Answer r
  unfolding handle_request_vote
  answer_lem r h = elim (Bool-cases (ltb args.term n.current_term)) [
    | inl old ↦
        let e = ok-injective (rw old at h) in
        stale (ltb→lt _ _ old) (sym (ap (λ x. x.0) e)) (sym (ap (λ x. x.1) e))
    | inr new ↦
        let e = rw new at h in
        let (n', fx, _) = maybe_step_down n args.term [] in
        let (node, _) = maybe_step_down-stepped n args.term [] in
        let (last, got, done) = >>=-eq-ok (unwrap (get_last? n'.log)) _ e in
        decided last fx (ltb→le _ _ new)
          (sym (ap (λ (m : RaftNode). get_last? m.log) node) ∙ unwrap-eq-ok (get_last? n'.log) got)
          (sym (ok-injective done) ∙ ap (λ m. decide_vote m args last fx) node)
  ]

decide_vote-Follows :
    (m : RaftNode) (args : RequestVoteArgs) (last : LogEntry) (fx : List SideEffect)
    → Follows m (decide_vote m args last fx).0
unfolding decide_vote
decide_vote-Follows m args last fx = record {
  id = ground arith;
  peers = ground arith;
  term = ground arith;
  vote = λ e c h. ground (arith, eq_iff c args.candidate_id);
}

-- A vote is never changed within a term, and no other field of the voter's identity is touched.
pub handle_request_vote-Follows :
    (n : RaftNode) (args : RequestVoteArgs) (r : VoteAnswer)
    → handle_request_vote n args ≡ ok r
    → Follows n r.0
handle_request_vote-Follows n args r h = go (answer_lem n args r h)
  where
    go : Answer n args r → Follows n r.0
    go (stale _ same _) = subst (Follows n) (sym same) (Follows-refl n)
    go (decided last fx _ _ e) = Follows-trans (stepped-Follows n args.term) (
        subst (λ (x : VoteAnswer). Follows (stepped n args.term) x.0) (sym e)
          (decide_vote-Follows (stepped n args.term) args last fx))

-- The three conditions of a grant.
pub record Grants (n : RaftNode) (args : RequestVoteArgs) (last : LogEntry) : Type 0 where
  pub current : n.current_term ≤ args.term
  pub may_vote : MayVote n args
  pub up_to_date : IsUpToDate args last

stepped-log : (n : RaftNode) (term : ℕ) → (stepped n term).log ≡ n.log
unfolding stepped
stepped-log n term = ground arith

can_vote_iff :
    (n : RaftNode) (args : RequestVoteArgs)
    → n.current_term ≤ args.term
    → (can_vote_for (stepped n args.term).voted_for args.candidate_id ≡ true) ↔ MayVote n args
unfolding can_vote_for stepped
can_vote_iff n args h = elim (Option-cases n.voted_for) [
  | inl e ↦ (λ c. inr (inl e), λ m. ground arith)
  | inr (c, e) ↦ (
    (λ t. ground (arith, eq_iff c args.candidate_id)),
    λ m. ground (arith, eq_iff c args.candidate_id),
  )
]

IsUpToDate-iff :
    (args : RequestVoteArgs) (last : LogEntry)
    → (is_up_to_date args last ≡ true) ↔ IsUpToDate args last
unfolding is_up_to_date
IsUpToDate-iff args last = (λ h. ground arith, λ h. ground arith)

decide_vote_iff :
    (m : RaftNode) (args : RequestVoteArgs) (last : LogEntry) (fx : List SideEffect)
    → ((decide_vote m args last fx).1.vote_granted ≡ true)
      ↔ ((can_vote_for m.voted_for args.candidate_id ≡ true) × (is_up_to_date args last ≡ true))
unfolding decide_vote
decide_vote_iff m args last fx = (λ h. (ground arith, ground arith), λ h. ground arith)

-- What a granted vote leaves.
pub record Granted (n : RaftNode) (args : RequestVoteArgs) (r : VoteAnswer) : Type 0 where
  pub last : LogEntry
  pub is_last : get_last? n.log ≡ some last
  pub grants : Grants n args last
  pub vote : r.0.voted_for ≡ some args.candidate_id
  pub term : r.0.current_term ≡ args.term
  pub reply_term : r.1.term ≡ args.term

decide_vote-granted :
    (m : RaftNode) (args : RequestVoteArgs) (last : LogEntry) (fx : List SideEffect)
    → (decide_vote m args last fx).1.vote_granted ≡ true
    → let r = decide_vote m args last fx in
      (r.0.voted_for ≡ some args.candidate_id)
      × (r.0.current_term ≡ m.current_term)
      × (r.1.term ≡ m.current_term)
unfolding decide_vote
decide_vote-granted m args last fx h = (ground arith, ground arith, ground arith)

stepped-term :
    (n : RaftNode) (term : ℕ) → n.current_term ≤ term → (stepped n term).current_term ≡ term
unfolding stepped
stepped-term n term h = ground arith

pub handle_request_vote-Granted :
    (n : RaftNode) (args : RequestVoteArgs) (r : VoteAnswer)
    → handle_request_vote n args ≡ ok r
    → r.1.vote_granted ≡ true
    → Granted n args r
handle_request_vote-Granted n args r h g = go (answer_lem n args r h)
  where
    go : Answer n args r → Granted n args r
    go (stale _ _ refused) = cc
    go (decided last fx current got e) =
        let m = stepped n args.term in
        let granted = ap (λ (x : VoteAnswer). x.1.vote_granted) (sym e) ∙ g in
        let (can, up) = (decide_vote_iff m args last fx).0 granted in
        let (vote, term, reply_term) = decide_vote-granted m args last fx granted in
        let at_term = stepped-term n args.term current in
        record {
          last = last;
          is_last = ap get_last? (sym (stepped-log n args.term)) ∙ got;
          grants = record {
            current = current;
            may_vote = (can_vote_iff n args current).0 can;
            up_to_date = (IsUpToDate-iff args last).0 up;
          };
          vote = ap (λ (x : VoteAnswer). x.0.voted_for) e ∙ vote;
          term = ap (λ (x : VoteAnswer). x.0.current_term) e ∙ term ∙ at_term;
          reply_term = ap (λ (x : VoteAnswer). x.1.term) e ∙ reply_term ∙ at_term;
        }

-- On a log that is not empty the handler answers, and it grants the vote exactly when the candidate's
-- term is not old, the voter has given no other vote in that term, and the candidate's log is at least
-- as up to date as the voter's.
pub handle_request_vote_lem :
    (n : RaftNode) (args : RequestVoteArgs) (last : LogEntry)
    → get_last? n.log ≡ some last
    → (r : VoteAnswer) × (handle_request_vote n args ≡ ok r)
      × ((r.1.vote_granted ≡ true) ↔ Grants n args last)
unfolding handle_request_vote
handle_request_vote_lem n args last got = elim (Bool-cases (ltb args.term n.current_term)) [
  | inl old ↦ (
    (
      n,
      record { term = n.current_term; vote_granted = false },
      build_log_event n (Messages.rejected_old_term "RequestVote" args.candidate_id args.term) ∷ [],
    ),
    rw old,
    ((λ h. cc), λ g. absurd (omega (arith, ltb→lt _ _ old, g.current))),
  )
  | inr new ↦
      let (_, fx, _) = maybe_step_down n args.term [] in
      let m = stepped n args.term in
      let (node, _) = maybe_step_down-stepped n args.term [] in
      let current = ltb→le _ _ new in
      let decision = decide_vote_iff m args last fx in
      let can = can_vote_iff n args current in
      let up = IsUpToDate-iff args last in
      (
        decide_vote m args last fx,
        rw (new, node, stepped-log n args.term, got),
        (
          (λ h.
              let (c, u) = decision.0 h in
              record { current = current; may_vote = can.0 c; up_to_date = up.0 u }),
          λ g. decision.1 (can.1 g.may_vote, up.1 g.up_to_date),
        ),
      )
]
