-- ===== src/Cluster/History/Outcomes.antt =====
-- What the memory of elections becomes when nobody stands or wins (mini-raft/raft-rust/src/main.rs over
-- node.rs).
use mathlib.Core.List.{Memᴰ}
use distributed_sys_lab.Prelude.{add, ◌<◌, ◌≡◌, ◌∙◌, sym, some, String, List, length}
use distributed_sys_lab.Protocol.{LogEntry, AppendEntriesArgs}
use distributed_sys_lab.Node.{RaftNode}
use distributed_sys_lab.Node.Election.{Role, role, Counts}
use distributed_sys_lab.Engine.{Platform}
use distributed_sys_lab.Cluster.System.{Cluster}
use distributed_sys_lab.Cluster.Elections.{ReadsVotes, IsSound, Turn}
use distributed_sys_lab.Cluster.Logs.{Kept}
use distributed_sys_lab.Cluster.Logs.Runs.{Next}
use distributed_sys_lab.Cluster.History.{
  Bid, Reign, Past, Standing, Leading, Made, Reigned, Remembers,
}
use distributed_sys_lab.Cluster.History.Turns.{Made-later, Reigned-later, Recalls, logs_after}

module _ (p : Platform) (reads : ReadsVotes p)
    (reads_entries : (x : AppendEntriesArgs)
      → p.append_entries.from_value (p.append_entries.to_value x) ≡ some x)
    (ids : List String) (large : 1 < length ids) (c c' : Cluster p) (logs : List (List LogEntry))
    (past : Past) (s : IsSound p reads ids large c) (kept : Kept p ids c logs)
    (mem : Remembers p ids c logs past) (t : Turn p reads ids large c c')
    (next : Next p reads reads_entries ids large c c' t.actor logs) where
  abbrev n : RaftNode
  n = (c t.actor).node

  abbrev n' : RaftNode
  n' = (c' t.actor).node

  abbrev Recalled : Past → Type 0
  Recalled = Recalls p reads reads_entries ids large c c' logs past s kept mem t next

  pub Made-kept :
      (b : Bid)
      → Memᴰ b past.bids
      → Made p ids c'
          (logs_after p reads reads_entries ids large c c' logs past s kept mem t next)
          b
  Made-kept b among =
      Made-later p reads reads_entries ids large c c' logs past s kept mem t next b
        (mem.made b among)

  pub Reigned-kept :
      (bids : List Bid) (r : Reign)
      → ((b : Bid) → Memᴰ b past.bids → Memᴰ b bids)
      → Memᴰ r past.reigns
      → Reigned p ids c' bids r
  Reigned-kept bids r more among =
      Reigned-later p reads reads_entries ids large c c' logs past s kept mem t next bids r more
        (mem.reigned r among)

  -- Nobody has stood or won.
  pub same_past :
      ((votes : List String) → role n'.state ≡ Role.candidate votes → Standing past.bids t.actor n')
      → (role n'.state ≡ Role.leader → Leading past.reigns t.actor n')
      → Recalled past
  same_past standing leading = record {
    more_bids = λ b among. among;
    more_reigns = λ r among. among;
    made = Made-kept;
    one_bid = mem.one_bid;
    reigned = λ r. Reigned-kept past.bids r (λ b among. among);
    one_reign = mem.one_reign;
    actor_standing = standing;
    actor_leading = leading;
  }

  -- The member counts a vote and goes on waiting.
  pub waited :
      (m : String) (cnt : Counts m n n')
      → role n'.state ≡ Role.candidate (add m cnt.votes)
      → Recalled past
  waited m cnt waits =
      same_past
        (λ votes _.
          let b = mem.standing t.actor cnt.votes t.member cnt.was in
          record {
            bid = b.bid;
            among = b.among;
            names = record {
              candidate = b.names.candidate;
              of_term = b.names.of_term ∙ sym cnt.same.term;
            };
            log = b.log ∙ sym cnt.kept.log;
          })
        (λ leads. cc (waits, leads))
