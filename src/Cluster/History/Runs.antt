-- ===== src/Cluster/History/Runs.antt =====
-- The memory of elections over a run of the cluster (mini-raft/raft-rust/src/main.rs over node.rs).
use mathlib.Core.Path.{subst}
use distributed_sys_lab.Prelude.{
  ℕ, suc, ◌+◌, ◌<◌, ◌≡◌, ◌∙◌, inl, inr, sym, some, Option, String, List, [], ◌∷◌, arith, length,
  ◌<+◌, length-append,
}
use distributed_sys_lab.Protocol.{Message, LogEntry, AppendEntriesArgs}
use distributed_sys_lab.Node.{RaftNode, last_index_or_zero}
use distributed_sys_lab.Node.Client.Laws.{with_entry}
use distributed_sys_lab.Node.Election.{Role, role, Quiet}
use distributed_sys_lab.Engine.{Platform}
use distributed_sys_lab.Cluster.Moves.{quiet, stands, counts}
use distributed_sys_lab.Cluster.Writes.{Writes, keeps, proposes, stores}
use distributed_sys_lab.Cluster.System.{Cluster, Started, Steps, done, step}
use distributed_sys_lab.Cluster.Elections.{ReadsVotes, IsSound, Turn, Step-Turn, Started-IsSound}
use distributed_sys_lab.Cluster.Logs.{Kept}
use distributed_sys_lab.Cluster.Logs.Runs.{Later, Turn-Next}
use distributed_sys_lab.Cluster.Logs.Starts.{
  first_log, nothing_held, Started-Kept, Started-silent, Started-follower,
}
use distributed_sys_lab.Cluster.History.{Bid, Reign, Past, Continues, Standing, Leading, Remembers}
use distributed_sys_lab.Cluster.History.Bases.{Continues-push}
use distributed_sys_lab.Cluster.History.Turns.{Recalls, Recalls-Remembers}
use distributed_sys_lab.Cluster.History.Outcomes.{same_past, waited}
use distributed_sys_lab.Cluster.History.Bids.{stood}
use distributed_sys_lab.Cluster.History.Wins.{won}

-- A candidate or a leader that keeps its log and its term keeps its bid or its reign.
Standing-kept :
    (bids : List Bid) (i : String) (n n' : RaftNode)
    → n'.log ≡ n.log
    → n'.current_term ≡ n.current_term
    → Standing bids i n
    → Standing bids i n'
Standing-kept bids i n n' log term b = record {
  bid = b.bid;
  among = b.among;
  names = record { candidate = b.names.candidate; of_term = b.names.of_term ∙ sym term };
  log = b.log ∙ sym log;
}

Leading-kept :
    (reigns : List Reign) (i : String) (n n' : RaftNode)
    → n'.log ≡ n.log
    → n'.current_term ≡ n.current_term
    → Leading reigns i n
    → Leading reigns i n'
Leading-kept reigns i n n' log term r = record {
  reign = r.reign;
  among = r.among;
  names = record { candidate = r.names.candidate; of_term = r.names.of_term ∙ sym term };
  continues = subst (λ l. Continues r.reign.bid l (length l)) (sym log) r.continues;
}

-- A leader that proposes goes on in its reign.
Leading-proposed :
    (reigns : List Reign) (i : String) (n : RaftNode) (command : String) (index : ℕ)
    → Leading reigns i n
    → Leading reigns i (with_entry n command index)
Leading-proposed reigns i n command index r =
    let entry : LogEntry = record { term = n.current_term; index = index; command = command } in
    let size : suc (length n.log) ≡ length (n.log <+ entry) =
      omega (arith, length-append n.log (entry ∷ [])) in
    record {
      reign = r.reign;
      among = r.among;
      names = r.names;
      continues =
          subst (Continues r.reign.bid (n.log <+ entry)) size
            (Continues-push r.reign.bid n.log entry (sym r.names.of_term) r.continues);
    }

module _ (p : Platform) (line : Option (Message p.Value)) (past : Past) (i : String)
    (n n' : RaftNode) (q : Quiet n n') (writes : Writes p line n n') where
  quiet-Standing :
      ((votes : List String) → role n.state ≡ Role.candidate votes → Standing past.bids i n)
      → (votes : List String) → role n'.state ≡ Role.candidate votes
      → Standing past.bids i n'
  quiet-Standing before votes standing = elim q.stays [
    | inl follows ↦ cc (follows, standing)
    | inr (term, same) ↦ elim writes [
      | keeps log ↦ Standing-kept past.bids i n n' log term (before votes (sym same ∙ standing))
      | proposes _ leads _ ↦ cc (same, leads, standing)
      | stores _ _ _ _ _ follows _ _ ↦ cc (follows, standing)
    ]
  ]

  quiet-Leading :
      (role n.state ≡ Role.leader → Leading past.reigns i n)
      → role n'.state ≡ Role.leader
      → Leading past.reigns i n'
  quiet-Leading before leads = elim q.stays [
    | inl follows ↦ cc (follows, leads)
    | inr (term, same) ↦ elim writes [
      | keeps log ↦ Leading-kept past.reigns i n n' log term (before (sym same ∙ leads))
      | proposes command led node ↦
          subst (Leading past.reigns i) (sym node)
            (Leading-proposed past.reigns i n command (last_index_or_zero n.log + 1) (before led))
      | stores _ _ _ _ _ follows _ _ ↦ cc (follows, leads)
    ]
  ]

module _ (p : Platform) (reads : ReadsVotes p)
    (reads_entries : (x : AppendEntriesArgs)
      → p.append_entries.from_value (p.append_entries.to_value x) ≡ some x)
    (ids : List String) (large : 1 < length ids) where
  -- What is remembered after some steps.
  pub record Onward (c' : Cluster p) (logs : List (List LogEntry)) : Type 0 where
    pub later : Later p reads reads_entries ids large c' logs
    pub past : Past
    pub remembers : Remembers p ids c' later.logs_now past

  Turn-Onward :
      (c c' : Cluster p) (logs : List (List LogEntry)) (past : Past)
      → IsSound p reads ids large c
      → Kept p ids c logs
      → Remembers p ids c logs past
      → Turn p reads ids large c c'
      → Onward c' logs
  Turn-Onward c c' logs past s kept mem t =
      let i = t.actor in
      let next = Turn-Next p reads reads_entries ids large c c' logs s kept t in
      let recalled : (past' : Past)
          → Recalls p reads reads_entries ids large c c' logs past s kept mem t next past'
          → Onward c' logs =
        λ past' x. record {
          later = next.later;
          past = past';
          remembers =
              Recalls-Remembers p reads reads_entries ids large c c' logs past s kept mem t next
                past' x;
        } in
      elim t.moves.change [
        | quiet q ↦ recalled past (
            same_past p reads reads_entries ids large c c' logs past s kept mem t next
              (quiet-Standing p t.line past i (c i).node (c' i).node q t.moves.writes
                (λ votes. mem.standing i votes t.member))
              (quiet-Leading p t.line past i (c i).node (c' i).node q t.moves.writes
                (mem.leading i t.member)))
        | stands st _ ↦
            let (past', x) =
              stood p reads reads_entries ids large c c' logs past s kept mem t next st in
            recalled past' x
        | counts m _ _ cnt ↦ elim cnt.becomes [
          | inl (waits, _) ↦ recalled past (
              waited p reads reads_entries ids large c c' logs past s kept mem t next m.from cnt
                waits)
          | inr (leads, _) ↦
              let (past', x) =
                won p reads reads_entries ids large c c' logs past s kept mem t next m.from cnt
                  leads in
              recalled past' x
        ]
      ]

  -- Nobody has stood yet.
  Started-Remembers :
      (c : Cluster p) (peers : String → List String) (g : String → p.Rng)
      → Started p ids c peers g
      → Remembers p ids c (first_log ∷ []) (record { bids = []; reigns = [] })
  Started-Remembers c peers g s = record {
    made = λ b among. elim among [ ];
    one_bid = λ b b' among. elim among [ ];
    reigned = λ r among. elim among [ ];
    one_reign = λ r r' among. elim among [ ];
    standing = λ i votes member stands. cc (Started-follower p ids c peers g i s member, stands);
    leading = λ i member leads. cc (Started-follower p ids c peers g i s member, leads);
    requests =
        λ i member m among args _ _. absurd (Started-silent p ids c peers g i m s member among);
    rules = λ i member m among _. absurd (Started-silent p ids c peers g i m s member among);
    stems = λ l k term among h. absurd (nothing_held l k term among h);
  }

  Steps-Onward :
      (c c' : Cluster p) (logs : List (List LogEntry)) (past : Past)
      → IsSound p reads ids large c
      → Kept p ids c logs
      → Remembers p ids c logs past
      → Steps p ids c c'
      → Onward c' logs
  Steps-Onward c c' logs past s kept mem (done _) = record {
    later = record { logs_now = logs; more = λ l among. among; sound = s; kept = kept };
    past = past;
    remembers = mem;
  }
  Steps-Onward c c' logs past s kept mem (step {b = b} first rest) =
      let x = Turn-Onward c b logs past s kept mem (Step-Turn p reads ids large c b s first) in
      let y =
        Steps-Onward b c' x.later.logs_now x.past x.later.sound x.later.kept x.remembers rest in
      record {
        later = record {
          logs_now = y.later.logs_now;
          more = λ l among. y.later.more l (x.later.more l among);
          sound = y.later.sound;
          kept = y.later.kept;
        };
        past = y.past;
        remembers = y.remembers;
      }

  -- What is remembered of a cluster since its start.
  pub run-Onward :
      (a c : Cluster p) (peers : String → List String) (g : String → p.Rng)
      → Started p ids a peers g
      → Steps p ids a c
      → Onward c (first_log ∷ [])
  run-Onward a c peers g started steps =
      Steps-Onward a c (first_log ∷ []) (record { bids = []; reigns = [] })
        (Started-IsSound p reads ids large a peers g started) (Started-Kept p ids a peers g started)
        (Started-Remembers a peers g started) steps
