-- ===== src/Cluster/Logs/Changes.antt =====
-- What one turn (mini-raft/raft-rust/src/main.rs) makes of the logs of the cluster.
use mathlib.Core.Path.{subst}
use mathlib.Core.List.{Memᴰ}
use distributed_sys_lab.Prelude.{
  ◌≤◌, ℕ, ◌<◌, ◌≡◌, ◌∙◌, inl, inr, sym, true, Option, String, List, arith, contains, length,
}
use distributed_sys_lab.Protocol.{Message, LogEntry}
use distributed_sys_lab.Node.Election.{Role, role}
use distributed_sys_lab.Engine.{Platform}
use distributed_sys_lab.Cluster.Moves.{Change, quiet, stands, counts}
use distributed_sys_lab.Cluster.System.{Cluster, Others}
use distributed_sys_lab.Cluster.Support.{Elected-Grows, Grows}
use distributed_sys_lab.Cluster.Elections.{ReadsVotes, IsSound, Elected-unique, leader-Elected}
use distributed_sys_lab.Cluster.Logs.{Holds, Settled, Kept}
use distributed_sys_lab.Cluster.Logs.Turns.{Extends}
use distributed_sys_lab.Cluster.Logs.Terms.{Won-later}

module _ (p : Platform) (reads : ReadsVotes p) (ids : List String) (large : 1 < length ids)
    (c c' : Cluster p) (i : String) (line : Option (Message p.Value))
    (member : contains ids i ≡ true) (others : Others p ids c c' i) (grows : Grows p ids c c')
    (s : IsSound p reads ids large c) (s' : IsSound p reads ids large c')
    (change : Change p line (c i).node (c' i).node (c' i).sent) (logs : List (List LogEntry))
    (kept : Kept p ids c logs) where
  -- A candidate that has just won has a term of which there are no entries.
  winner_fresh :
      (cnt_votes : List String) (l : List LogEntry) (k : ℕ)
      → role (c i).node.state ≡ Role.candidate cnt_votes
      → role (c' i).node.state ≡ Role.leader
      → (c' i).node.current_term ≡ (c i).node.current_term
      → Memᴰ l logs
      → Holds l k (c' i).node.current_term
      → ⊥
  winner_fresh votes l k was leads same among h =
      let term = (c' i).node.current_term in
      let w = kept.won l k term among h in
      let me : w.winner ≡ i =
        Elected-unique p reads ids large c' w.winner i term s'
          (Elected-Grows p ids c c' w.winner term grows w.elected)
          (leader-Elected p reads ids large c' i s' member leads) in
      elim (subst (λ j. Settled (c j).node term) me w.settled) [
        | inl past ↦ omega arith
        | inr (_, no_candidate) ↦ no_candidate votes was
      ]

  -- A member that leads after its turn, and has not changed its log.
  still_leading :
      (c' i).node.log ≡ (c i).node.log
      → Change p line (c i).node (c' i).node (c' i).sent
      → role (c' i).node.state ≡ Role.leader
      → (l : List LogEntry) (k : ℕ) → Memᴰ l logs
      → Holds l k (c' i).node.current_term
      → Holds (c' i).node.log k (c' i).node.current_term
  still_leading same (stands st _) leads l k among h = cc (st.stands, leads)
  still_leading same (counts m _ _ cnt) leads l k among h =
      absurd (winner_fresh cnt.votes l k cnt.was leads cnt.same.term among h)
  still_leading same (quiet q) leads l k among h = elim q.stays [
    | inl follows ↦ cc (follows, leads)
    | inr (term, was) ↦
        subst (λ xs. Holds xs k (c' i).node.current_term) (sym same)
          (subst (Holds (c i).node.log k) (sym term)
            (kept.leading i member (sym was ∙ leads) l k among (subst (Holds l k) term h)))
  ]

  -- A turn that makes no new log.
  pub unchanged-Extends :
      Memᴰ (c' i).node.log logs
      → (role (c' i).node.state ≡ Role.leader → (c' i).node.log ≡ (c i).node.log)
      → ((k term : ℕ) → Holds (c' i).node.log k term → term ≤ (c' i).node.current_term)
      → Extends p ids c c' i logs logs
  unchanged-Extends now same bounded = record {
    more = λ l among. among;
    shaped = kept.shaped;
    matching = kept.matching;
    now = now;
    bounded = bounded;
    won = λ l k term among h.
        Won-later p ids c c' i line others grows change term (kept.won l k term among h);
    actor_leading = λ leads. still_leading (same leads) change leads;
    others_leading = λ j _ in_ids leads l k. kept.leading j in_ids leads l k;
  }
