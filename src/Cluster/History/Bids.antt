-- ===== src/Cluster/History/Bids.antt =====
-- What the memory of elections becomes when a member stands (`start_election` of
-- mini-raft/raft-rust/src/node.rs).
use mathlib.Core.Path.{subst}
use mathlib.Core.List.{Memᴰ}
use distributed_sys_lab.Prelude.{
  each_cons, ◌<◌, ◌≡◌, ◌≢◌, refl, sym, ap, some, String, List, ◌∷◌, arith, length,
}
use distributed_sys_lab.Protocol.{LogEntry, AppendEntriesArgs}
use distributed_sys_lab.Node.{RaftNode}
use distributed_sys_lab.Node.Election.{Stands}
use distributed_sys_lab.Engine.{Platform}
use distributed_sys_lab.Cluster.System.{Cluster}
use distributed_sys_lab.Cluster.Elections.{ReadsVotes, IsSound, Turn}
use distributed_sys_lab.Cluster.Logs.{Holds, Kept}
use distributed_sys_lab.Cluster.Logs.Runs.{Next}
use distributed_sys_lab.Cluster.History.{Bid, Past, Names, Made, Remembers}
use distributed_sys_lab.Cluster.History.Turns.{Recalls, logs_after}
use distributed_sys_lab.Cluster.History.Outcomes.{Made-kept, Reigned-kept}

module _ (p : Platform) (reads : ReadsVotes p)
    (reads_entries : (x : AppendEntriesArgs)
      → p.append_entries.from_value (p.append_entries.to_value x) ≡ some x)
    (ids : List String) (large : 1 < length ids) (c c' : Cluster p) (logs : List (List LogEntry))
    (past : Past) (s : IsSound p reads ids large c) (kept : Kept p ids c logs)
    (mem : Remembers p ids c logs past) (t : Turn p reads ids large c c')
    (next : Next p reads reads_entries ids large c c' t.actor logs) where
  abbrev n : RaftNode
  n = (c t.actor).node

  abbrev n' : RaftNode
  n' = (c' t.actor).node

  abbrev Recalled : Past → Type 0
  Recalled = Recalls p reads reads_entries ids large c c' logs past s kept mem t next

  -- The member stands.
  module _ (st : Stands n n') where
    abbrev new_bid : Bid
    new_bid = record { candidate = t.actor; term = n'.current_term; log = n'.log }

    -- The member has made no bid for the new term before.
    no_bid_yet : (b : Bid) → Memᴰ b past.bids → b.candidate ≡ t.actor → b.term ≢ n'.current_term
    no_bid_yet b among own same =
        let before = (mem.made b among).past in
        let at = ap (λ j. (c j).node.current_term) own in
        absurd (omega (arith, before, at, same, st.term))

    one_new_bid :
        (b : Bid)
        → Memᴰ b (new_bid ∷ past.bids)
        → (b' : Bid) → Memᴰ b' (new_bid ∷ past.bids)
        → Names b b'.candidate b'.term
        → b ≡ b'
    one_new_bid =
        each_cons
          (λ b. (b' : Bid) → Memᴰ b' (new_bid ∷ past.bids) → Names b b'.candidate b'.term → b ≡ b')
          new_bid past.bids
          (each_cons (λ b'. Names new_bid b'.candidate b'.term → new_bid ≡ b') new_bid past.bids
            (λ _. refl)
            (λ b' among names.
              absurd (no_bid_yet b' among (sym names.candidate) (sym names.of_term))))
          (λ b among.
            each_cons (λ b'. Names b b'.candidate b'.term → b ≡ b') new_bid past.bids
              (λ names. absurd (no_bid_yet b among names.candidate names.of_term))
              (λ b' among'. mem.one_bid b b' among among'))

    new_bid-Made :
        Made p ids c'
          (logs_after p reads reads_entries ids large c c' logs past s kept mem t next)
          new_bid
    new_bid-Made = record {
      member = t.member;
      past = omega arith;
      among = next.later.kept.held t.actor t.member;
      older = λ k term h.
          let old =
            kept.bounded t.actor t.member k term (subst (λ l. Holds l k term) st.kept.log h) in
          omega (arith, old, st.term);
    }

    pub stood : (past' : Past) × Recalled past'
    stood = (
      record { bids = new_bid ∷ past.bids; reigns = past.reigns },
      record {
        more_bids = λ b among. Memᴰ.tail among;
        more_reigns = λ r among. among;
        made =
            each_cons _ new_bid past.bids new_bid-Made
              (Made-kept p reads reads_entries ids large c c' logs past s kept mem t next);
        one_bid = λ b b' among among'. one_new_bid b among b' among';
        reigned = λ r.
            (Reigned-kept p reads reads_entries ids large c c' logs past s kept mem t next)
              (new_bid ∷ past.bids) r (λ b among. Memᴰ.tail among);
        one_reign = mem.one_reign;
        actor_standing = λ votes _. record {
          bid = new_bid;
          among = Memᴰ.head refl;
          names = record { candidate = refl; of_term = refl };
          log = refl;
        };
        actor_leading = λ leads. cc (st.stands, leads);
      },
    )
