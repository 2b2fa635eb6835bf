-- ===== src/Node/Retry.antt =====
-- What a leader of mini-raft/raft-rust/src/node.rs does with a refusal.
use mathlib.Core.Path.{subst}
use distributed_sys_lab.Prelude.{
  ℕ, ◌+◌, ◌-◌, ◌<◌, ◌≤◌, ◌≡◌, ◌↔◌, ◌≢◌, ◌∙◌, refl, sym, ap, some, String, false, List, [], ◌∷◌,
  arith, ok, length, Dict, insert, lookup, le→ltb, eq_iff, lookup-insert, ==_iff,
}
use distributed_sys_lab.Protocol.{
  NodeState, leader, AppendEntriesArgs, AppendEntriesReply, SideEffect, send_append_entries,
}
use distributed_sys_lab.Node.{
  RaftNode, build_log_event, maybe_step_down, has_matching_prev_entry, term_or_zero,
  last_index_or_zero, reject_append_entries,
}
use distributed_sys_lab.Node.Messages
use distributed_sys_lab.Node.StepDown.{stepped}
use distributed_sys_lab.Node.Log.{IsLog, last_index_or_zero-IsLog}
use distributed_sys_lab.Node.Timeouts.{send_effects}
use distributed_sys_lab.Node.AppendEntries.Result.{
  following, append_result, handle_append_entries-result,
}
use distributed_sys_lab.Node.AppendEntries.Laws.{after, reply, following-match, following-log}
use distributed_sys_lab.Node.AppendReply.{
  retry_index, retry, reply_at, receipt, handle_append_entries_reply,
}
use distributed_sys_lab.Node.Replication.{sent, build_append_entries_args-sent}

refused_reply :
    (f : RaftNode) (args : AppendEntriesArgs)
    → f.current_term ≤ args.term
    → has_matching_prev_entry f args.prev_log_index args.prev_log_term ≡ false
    → reply f args
      ≡ record { term = args.term; success = false; match_index = last_index_or_zero f.log }
unfolding append_result following stepped reject_append_entries
refused_reply f args current differs =
    let result = handle_append_entries-result f args in
    let replied : reply f args ≡ (append_result f args).1 = λ i. (result i).1 in
    ground (arith, replied, following-match f args args.prev_log_index args.prev_log_term)

maybe_step_down_same :
    (n : RaftNode) (term : ℕ) (fx : List SideEffect)
    → term ≡ n.current_term
    → maybe_step_down n term fx ≡ (n, fx, false)
unfolding maybe_step_down
maybe_step_down_same n term fx e = rw (le→ltb n.current_term term (omega arith))

reply_at-retry :
    (st : NodeState) (n : RaftNode) (from : String) (rep : AppendEntriesReply) (next match : Dict)
    (fx : List SideEffect)
    → st ≡ leader next match
    → rep.success ≡ false
    → reply_at st n from rep fx ≡ ok (retry n next match from rep fx)
unfolding reply_at
reply_at-retry st n from rep next match fx s bad =
    subst (λ x. reply_at x n from rep fx ≡ ok (retry n next match from rep fx)) (sym s) (rw bad)

-- A failure of this term at a leader: the retry.
pub handle_append_entries_reply-retry :
    (n : RaftNode) (from : String) (rep : AppendEntriesReply) (next match : Dict)
    → n.state ≡ leader next match
    → rep.term ≡ n.current_term
    → rep.success ≡ false
    → handle_append_entries_reply n from rep
      ≡ ok (retry n next match from rep (build_log_event n (receipt from rep) ∷ []))
unfolding handle_append_entries_reply
handle_append_entries_reply-retry n from rep next match s t bad =
    rw (maybe_step_down_same n rep.term [] t, (==_iff rep.term n.current_term).1 t)
      (reply_at-retry n.state n from rep next match (build_log_event n (receipt from rep) ∷ []) s
        bad)

-- The hint that leads back to the same next index.
retry_index_stuck : (k m : ℕ) → m + 1 ≡ k → retry_index m k ≡ k
unfolding retry_index
retry_index_stuck k m h = ground arith

refused_log :
    (f : RaftNode) (args : AppendEntriesArgs)
    → f.current_term ≤ args.term
    → has_matching_prev_entry f args.prev_log_index args.prev_log_term ≡ false
    → (after f args).log ≡ f.log
unfolding append_result
refused_log f args current differs =
    let result = handle_append_entries-result f args in
    let node : after f args ≡ (append_result f args).0 = λ i. (result i).0 in
    ground (
      arith,
      node,
      following-match f args args.prev_log_index args.prev_log_term,
      following-log f args,
    )

-- Above 1 a retry lowers the next index, unless the follower's hint is just below it.
pub retry_index-lt_iff : (m k : ℕ) → 1 < k → (retry_index m k < k) ↔ (m + 1 ≢ k)
unfolding retry_index
retry_index-lt_iff m k pos = ground arith

-- What the leader does with a hint that is one below the next index.
retry_stuck :
    (n : RaftNode) (from : String) (next match : Dict) (k m : ℕ) (log : SideEffect)
    → lookup from next ≡ some k
    → 0 < k
    → m + 1 ≡ k
    → let n' = record n { state = leader (insert from k next) match } in
      retry n next match from
        (record { term = n.current_term; success = false; match_index = m })
        (log ∷ [])
      ≡ (
        n',
        log
            ∷ build_log_event n' (Messages.retrying from k)
            ∷ send_append_entries from (sent n' k)
            ∷ [],
      )
unfolding retry send_effects
retry_stuck n from next match k m log known pos h =
    let n' = record n { state = leader (insert from k next) match } in
    rw (known, retry_index_stuck k m h, build_append_entries_args-sent n' k pos) refl

-- A leader whose next index for a follower is above 1 and the follower's length, where the follower's last
-- entry differs from the leader's entry of that position, makes no progress: the follower, whose log is
-- indexed and whose term is not newer, refuses and keeps its log, and the leader keeps the next index and
-- sends the same entries again.
pub retry_lem :
    (n f : RaftNode) (from : String) (next match : Dict) (k : ℕ)
    → n.state ≡ leader next match
    → lookup from next ≡ some k
    → 1 < k
    → IsLog f.log
    → length f.log ≡ k
    → f.current_term ≤ n.current_term
    → has_matching_prev_entry f (k - 1) (term_or_zero n.log (k - 1)) ≡ false
    → let n' = record n { state = leader (insert from k next) match } in
      ((after f (sent n k)).log ≡ f.log)
      × (handle_append_entries_reply n from (reply f (sent n k))
          ≡ ok (
            n',
            build_log_event n (Messages.received_failure from)
                ∷ build_log_event n' (Messages.retrying from k)
                ∷ send_append_entries from (sent n' k)
                ∷ [],
          ))
      × (lookup from (insert from k next) ≡ some k)
unfolding receipt Messages.received_failure
retry_lem n f from next match k s known pos w at_end current differs =
    let n' = record n { state = leader (insert from k next) match } in
    let refusal : AppendEntriesReply = record {
      term = n.current_term;
      success = false;
      match_index = last_index_or_zero f.log;
    } in
    (
      refused_log f (sent n k) current differs,
      subst
          (λ rep.
            handle_append_entries_reply n from rep
            ≡ ok (
              n',
              build_log_event n (Messages.received_failure from)
                  ∷ build_log_event n' (Messages.retrying from k)
                  ∷ send_append_entries from (sent n' k)
                  ∷ [],
            ))
          (sym (refused_reply f (sent n k) current differs))
          (handle_append_entries_reply-retry n from refusal next match s refl refl
            ∙ ap ok (
                retry_stuck n from next match k (last_index_or_zero f.log)
                  (build_log_event n (Messages.received_failure from)) known (omega arith)
                  (last_index_or_zero-IsLog f.log w ∙ at_end))),
      lookup-insert from from k next ∙ (rw ((eq_iff from from).1 refl) refl),
    )
