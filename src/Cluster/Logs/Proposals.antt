-- ===== src/Cluster/Logs/Proposals.antt =====
-- What the proposal of a leader (`propose_command` of mini-raft/raft-rust/src/node.rs) makes of the logs of the
-- cluster.
use mathlib.Core.Path.{subst}
use mathlib.Core.List.{Memᴰ}
use distributed_sys_lab.Prelude.{
  [], get_elem?-append_left, ◌∙◌, each_cons, ◌≤◌, ℕ, suc, ◌+◌, ◌<◌, ◌≡◌, ◌≢◌, ◌∙◌, inl, inr, sym,
  ap, true, some, Option, String, List, ◌∷◌, arith, get_elem?, contains, length, ◌<+◌, get_elem?-lt,
}
use distributed_sys_lab.Protocol.{Message, LogEntry}
use distributed_sys_lab.Node.{RaftNode, last_index_or_zero}
use distributed_sys_lab.Node.Log.{IsLog, push-IsLog, last_index_or_zero-IsLog}
use distributed_sys_lab.Node.Matching.{Matches, Matches-refl, Matches-sym, push-Matches}
use distributed_sys_lab.Node.Election.{Role, role}
use distributed_sys_lab.Node.Client.Laws.{with_entry}
use distributed_sys_lab.Engine.{Platform}
use distributed_sys_lab.Cluster.Moves.{Change}
use distributed_sys_lab.Cluster.System.{Cluster, Others}
use distributed_sys_lab.Cluster.Support.{Elected, Elected-Grows, Grows}
use distributed_sys_lab.Cluster.Elections.{ReadsVotes, IsSound, Elected-unique, leader-Elected}
use distributed_sys_lab.Cluster.Logs.{IsLogOfNode, Holds, Won, Kept}
use distributed_sys_lab.Cluster.Logs.Turns.{Extends}
use distributed_sys_lab.Cluster.Logs.Terms.{Won-later, Holds-push, push-Holds}

module _ (p : Platform) (reads : ReadsVotes p) (ids : List String) (large : 1 < length ids)
    (c c' : Cluster p) (i : String) (member : contains ids i ≡ true)
    (s : IsSound p reads ids large c) (logs : List (List LogEntry)) (kept : Kept p ids c logs)
    (leads : role (c i).node.state ≡ Role.leader) (command : String) where
  abbrev new_entry : LogEntry
  new_entry = record {
    term = (c i).node.current_term;
    index = last_index_or_zero (c i).node.log + 1;
    command = command;
  }

  abbrev new_log : List LogEntry
  new_log = (c i).node.log <+ new_entry

  old_log-IsLog : IsLog (c i).node.log
  old_log-IsLog = (kept.shaped (c i).node.log (kept.held i member)).is_log

  -- No log has an entry of the leader's term past the end of the leader's log.
  none_past :
      (l : List LogEntry) (y : LogEntry)
      → Memᴰ l logs
      → get_elem? l (length (c i).node.log) ≡ some y
      → y.term ≢ (c i).node.current_term
  none_past l y among at same =
      let last = last_index_or_zero (c i).node.log in
      let size : suc last ≡ length (c i).node.log =
        omega (arith, last_index_or_zero-IsLog (c i).node.log old_log-IsLog) in
      let h =
        kept.leading i member leads l last among
          (record { entry = y; at = ap (get_elem? l) size ∙ at; of_term = same }) in
      absurd (omega (arith, get_elem?-lt (c i).node.log (suc last) h.at))

  new_log-IsLogOfNode : IsLogOfNode new_log
  new_log-IsLogOfNode = record {
    is_log =
        push-IsLog (c i).node.log new_entry old_log-IsLog
          (last_index_or_zero-IsLog (c i).node.log old_log-IsLog);
    first =
        get_elem?-append_left (c i).node.log (new_entry ∷ []) 0 old_log-IsLog.nonempty
        ∙ (kept.shaped (c i).node.log (kept.held i member)).first;
  }

  new_log-Matches : (ys : List LogEntry) → Memᴰ ys logs → Matches new_log ys
  new_log-Matches ys among =
      push-Matches (c i).node.log ys new_entry
        (kept.matching (c i).node.log ys (kept.held i member) among)
        (λ y at. none_past ys y among at)

  all-Matches :
      (xs : List LogEntry)
      → Memᴰ xs (new_log ∷ logs)
      → (ys : List LogEntry) → Memᴰ ys (new_log ∷ logs)
      → Matches xs ys
  all-Matches =
      each_cons (λ xs. (ys : List LogEntry) → Memᴰ ys (new_log ∷ logs) → Matches xs ys) new_log logs
        (each_cons (λ ys. Matches new_log ys) new_log logs (Matches-refl new_log) new_log-Matches)
        (λ xs in_logs.
          each_cons (λ ys. Matches xs ys) new_log logs
            (Matches-sym new_log xs (new_log-Matches xs in_logs))
            (λ ys among. kept.matching xs ys in_logs among))

  new_log-bounded : (k term : ℕ) → Holds new_log k term → term ≤ (c i).node.current_term
  new_log-bounded k term h = elim (push-Holds (c i).node.log new_entry k term h) [
    | inl old ↦ kept.bounded i member k term old
    | inr (_, same) ↦ omega arith
  ]

  -- The leader has the entries of its term that any log has.
  leader-Holds :
      (l : List LogEntry)
      → Memᴰ l (new_log ∷ logs)
      → (k : ℕ) → Holds l k (c i).node.current_term
      → Holds new_log k (c i).node.current_term
  leader-Holds =
      each_cons
        (λ l. (k : ℕ) → Holds l k (c i).node.current_term → Holds new_log k (c i).node.current_term)
        new_log logs (λ k h. h)
        (λ l among k h.
          Holds-push (c i).node.log new_entry k (c i).node.current_term
            (kept.leading i member leads l k among h))

  -- Another leader has no entries of the term of this one.
  other-Holds :
      (j : String)
      → j ≢ i
      → contains ids j ≡ true
      → role (c j).node.state ≡ Role.leader
      → (l : List LogEntry) → Memᴰ l (new_log ∷ logs)
      → (k : ℕ) → Holds l k (c j).node.current_term
      → Holds (c j).node.log k (c j).node.current_term
  other-Holds j differ in_ids j_leads =
      each_cons
        (λ l.
          (k : ℕ)
          → Holds l k (c j).node.current_term
          → Holds (c j).node.log k (c j).node.current_term)
        new_log logs
        (λ k h. elim (push-Holds (c i).node.log new_entry k (c j).node.current_term h) [
          | inl old ↦ kept.leading j in_ids j_leads (c i).node.log k (kept.held i member) old
          | inr (_, same) ↦ absurd (
              differ (
                Elected-unique p reads ids large c j i (c j).node.current_term s
                  (leader-Elected p reads ids large c j s in_ids j_leads)
                  (subst (Elected p ids c i) same
                    (leader-Elected p reads ids large c i s member leads))))
        ])
        (λ l among k. kept.leading j in_ids j_leads l k among)

  module _ (line : Option (Message p.Value)) (others : Others p ids c c' i)
      (grows : Grows p ids c c') (change : Change p line (c i).node (c' i).node (c' i).sent)
      (node : (c' i).node
        ≡ with_entry (c i).node command (last_index_or_zero (c i).node.log + 1)) where
    new_log-Won : (k term : ℕ) → Holds new_log k term → Won p ids c' term
    new_log-Won k term h = elim (push-Holds (c i).node.log new_entry k term h) [
      | inl old ↦
          Won-later p ids c c' i line others grows change term
            (kept.won (c i).node.log k term (kept.held i member) old)
      | inr (_, same) ↦
          let now : (c' i).node.current_term ≡ (c i).node.current_term =
            ap (λ (n : RaftNode). n.current_term) node in
          let still : role (c' i).node.state ≡ Role.leader =
            ap (λ (n : RaftNode). role n.state) node ∙ leads in
          record {
            winner = i;
            member = member;
            elected = Elected-Grows p ids c c' i term grows (
                subst (Elected p ids c i) same
                  (leader-Elected p reads ids large c i s member leads));
            settled = inr (sym same ∙ sym now, λ votes e. cc (still, e));
          }
    ]

    pub proposed-Extends : Extends p ids c c' i logs (new_log ∷ logs)
    proposed-Extends = record {
      more = λ l among. Memᴰ.tail among;
      shaped = each_cons IsLogOfNode new_log logs new_log-IsLogOfNode kept.shaped;
      matching = λ xs ys in_xs in_ys. all-Matches xs in_xs ys in_ys;
      now = Memᴰ.head (ap (λ (n : RaftNode). n.log) node);
      bounded =
          subst (λ (n : RaftNode). (k term : ℕ) → Holds n.log k term → term ≤ n.current_term)
            (sym node) new_log-bounded;
      won = λ l k term among h.
          each_cons (λ l. (k term : ℕ) → Holds l k term → Won p ids c' term) new_log logs
            new_log-Won
            (λ l among k term h.
              Won-later p ids c c' i line others grows change term (kept.won l k term among h))
            l among k term h;
      actor_leading = λ _ l k among h.
          subst (λ (n : RaftNode). Holds l k n.current_term → Holds n.log k n.current_term)
            (sym node) (leader-Holds l among k) h;
      others_leading =
          λ j differ in_ids j_leads l k among. other-Holds j differ in_ids j_leads l among k;
    }
