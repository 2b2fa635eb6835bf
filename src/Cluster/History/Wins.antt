-- ===== src/Cluster/History/Wins.antt =====
-- What the memory of elections becomes when a member wins (`count_vote` of mini-raft/raft-rust/src/node.rs).
use mathlib.Core.Path.{subst}
use mathlib.Core.List.{Memᴰ}
use distributed_sys_lab.Prelude.{
  each_cons, ◌<◌, ◌≡◌, ◌≢◌, ◌∙◌, inl, inr, refl, sym, some, String, List, ◌∷◌, arith, length,
}
use distributed_sys_lab.Protocol.{LogEntry, AppendEntriesArgs}
use distributed_sys_lab.Node.{RaftNode}
use distributed_sys_lab.Node.Election.{Role, role, Counts}
use distributed_sys_lab.Engine.{Platform}
use distributed_sys_lab.Cluster.System.{Cluster}
use distributed_sys_lab.Cluster.Support.{Elected, Backed, Elected-Grows}
use distributed_sys_lab.Cluster.Elections.{
  ReadsVotes, IsSound, Elected-unique, leader-Elected, Turn, Turn-IsSound,
}
use distributed_sys_lab.Cluster.Logs.{Settled, Kept}
use distributed_sys_lab.Cluster.Logs.Runs.{Next}
use distributed_sys_lab.Cluster.History.{
  Reign, Past, Continues, Standing, Leading, Reigned, Remembers,
}
use distributed_sys_lab.Cluster.History.Bases.{Continues-refl}
use distributed_sys_lab.Cluster.History.Turns.{Recalls}
use distributed_sys_lab.Cluster.History.Outcomes.{Made-kept, Reigned-kept}

module _ (p : Platform) (reads : ReadsVotes p)
    (reads_entries : (x : AppendEntriesArgs)
      → p.append_entries.from_value (p.append_entries.to_value x) ≡ some x)
    (ids : List String) (large : 1 < length ids) (c c' : Cluster p) (logs : List (List LogEntry))
    (past : Past) (s : IsSound p reads ids large c) (kept : Kept p ids c logs)
    (mem : Remembers p ids c logs past) (t : Turn p reads ids large c c')
    (next : Next p reads reads_entries ids large c c' t.actor logs) where
  abbrev n : RaftNode
  n = (c t.actor).node

  abbrev n' : RaftNode
  n' = (c' t.actor).node

  abbrev Recalled : Past → Type 0
  Recalled = Recalls p reads reads_entries ids large c c' logs past s kept mem t next

  -- The member wins.
  module _ (m : String) (cnt : Counts m n n') (leads : role n'.state ≡ Role.leader) where
    won_election : Elected p ids c' t.actor n'.current_term
    won_election = leader-Elected p reads ids large c' t.actor next.later.sound t.member leads

    standing_before : Standing past.bids t.actor n
    standing_before = mem.standing t.actor cnt.votes t.member cnt.was

    abbrev new_reign : Reign
    new_reign = record { bid = standing_before.bid; electors = won_election.votes }

    reign_term : new_reign.bid.term ≡ n'.current_term
    reign_term = standing_before.names.of_term ∙ sym cnt.same.term

    reign_winner : new_reign.bid.candidate ≡ t.actor
    reign_winner = standing_before.names.candidate

    -- Nobody has won the term before.
    no_reign_yet : (r : Reign) → Memᴰ r past.reigns → r.bid.term ≢ n'.current_term
    no_reign_yet r among same =
        let x = mem.reigned r among in
        let term = r.bid.term in
        let grows = (Turn-IsSound p reads ids large c c' t s).1 in
        let before : Elected p ids c r.bid.candidate term = record {
          votes = r.electors;
          backed = x.backed;
          majority = x.majority;
        } in
        let me : r.bid.candidate ≡ t.actor =
          Elected-unique p reads ids large c' r.bid.candidate t.actor term next.later.sound
            (Elected-Grows p ids c c' r.bid.candidate term grows before)
            (subst (Elected p ids c' t.actor) (sym same) won_election) in
        elim (subst (λ j. Settled (c j).node term) me x.settled) [
          | inl over ↦ absurd (omega (arith, same, cnt.same.term))
          | inr (_, no_candidate) ↦ absurd (no_candidate cnt.votes cnt.was)
        ]

    new_reign-Reigned : Reigned p ids c' past.bids new_reign
    new_reign-Reigned = record {
      among = standing_before.among;
      backed =
          subst (λ j. Backed p ids c' j new_reign.bid.term won_election.votes) (sym reign_winner)
            (subst (λ k. Backed p ids c' t.actor k won_election.votes) (sym reign_term)
              won_election.backed);
      majority = won_election.majority;
      settled =
          subst (λ j. Settled (c' j).node new_reign.bid.term) (sym reign_winner)
            (inr (reign_term, λ votes e. cc (leads, e)));
    }

    one_new_reign :
        (r : Reign)
        → Memᴰ r (new_reign ∷ past.reigns)
        → (r' : Reign) → Memᴰ r' (new_reign ∷ past.reigns)
        → r.bid.term ≡ r'.bid.term
        → r ≡ r'
    one_new_reign =
        each_cons
          (λ r.
            (r' : Reign) → Memᴰ r' (new_reign ∷ past.reigns) → r.bid.term ≡ r'.bid.term → r ≡ r')
          new_reign past.reigns
          (each_cons (λ r'. new_reign.bid.term ≡ r'.bid.term → new_reign ≡ r') new_reign past.reigns
            (λ _. refl) (λ r' among same. absurd (no_reign_yet r' among (sym same ∙ reign_term))))
          (λ r among.
            each_cons (λ r'. r.bid.term ≡ r'.bid.term → r ≡ r') new_reign past.reigns
              (λ same. absurd (no_reign_yet r among (same ∙ reign_term)))
              (λ r' among'. mem.one_reign r r' among among'))

    won_Leading : Leading (new_reign ∷ past.reigns) t.actor n'
    won_Leading =
        let same : standing_before.bid.log ≡ n'.log = standing_before.log ∙ sym cnt.kept.log in
        record {
          reign = new_reign;
          among = Memᴰ.head refl;
          names = record { candidate = reign_winner; of_term = reign_term };
          continues =
              subst (λ l. Continues standing_before.bid l (length l)) same
                (Continues-refl standing_before.bid);
        }

    pub won : (past' : Past) × Recalled past'
    won = (
      record { bids = past.bids; reigns = new_reign ∷ past.reigns },
      record {
        more_bids = λ b among. among;
        more_reigns = λ r among. Memᴰ.tail among;
        made = (Made-kept p reads reads_entries ids large c c' logs past s kept mem t next);
        one_bid = mem.one_bid;
        reigned = each_cons _ new_reign past.reigns new_reign-Reigned (λ r.
            (Reigned-kept p reads reads_entries ids large c c' logs past s kept mem t next)
              past.bids r (λ b among. among));
        one_reign = λ r r' among among'. one_new_reign r among r' among';
        actor_standing = λ votes stands. cc (stands, leads);
        actor_leading = λ _. won_Leading;
      },
    )
