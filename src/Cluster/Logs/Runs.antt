-- ===== src/Cluster/Logs/Runs.antt =====
-- The logs of the members over a run of the cluster (mini-raft/raft-rust/src/main.rs).
use mathlib.Core.Path.{subst}
use mathlib.Core.List.{Memᴰ}
use mathlib.Core.Bool.{false≢true}
use mathlib.Core.Option.{some-injective}
use distributed_sys_lab.Prelude.{
  each_cons, ℕ, ◌+◌, ◌≤◌, ◌⊎◌, inl, inr, arith, ◌<◌, ◌≡◌, ◌∙◌, refl, sym, ap, true, false, str_eq,
  eq_iff, some, String, List, contains, length,
}
use distributed_sys_lab.Protocol.{Message, LogEntry, AppendEntriesArgs}
use distributed_sys_lab.Engine.{Platform}
use distributed_sys_lab.Cluster.Writes.{keeps, proposes, stores, Stores}
use distributed_sys_lab.Node.Slices.{IsSlice}
use distributed_sys_lab.Cluster.System.{Cluster, Posted, routed, client, Steps, done, step}
use distributed_sys_lab.Cluster.Elections.{ReadsVotes, IsSound, Turn, Step-Turn, Turn-IsSound}
use distributed_sys_lab.Cluster.Logs.{Carries, Holds, Kept, Stores-result}
use distributed_sys_lab.Node.{RaftNode, last_index_or_zero}
use distributed_sys_lab.Node.Client.Laws.{with_entry}
use distributed_sys_lab.Node.Election.{Role, role}
use distributed_sys_lab.Cluster.Honesty.{Change-Follows}
use distributed_sys_lab.Cluster.Logs.Turns.{Extends, Extends-Kept}
use distributed_sys_lab.Cluster.Logs.Changes.{unchanged-Extends}
use distributed_sys_lab.Cluster.Logs.Proposals.{proposed-Extends}

module _ (p : Platform) (reads : ReadsVotes p)
    (reads_entries : (x : AppendEntriesArgs)
      → p.append_entries.from_value (p.append_entries.to_value x) ≡ some x)
    (ids : List String) (large : 1 < length ids) where
  -- The logs after some steps.
  pub record Later (c' : Cluster p) (logs : List (List LogEntry)) : Type 0 where
    pub logs_now : List (List LogEntry)
    pub more : (l : List LogEntry) → Memᴰ l logs → Memᴰ l logs_now
    pub sound : IsSound p reads ids large c'
    pub kept : Kept p ids c' logs_now

  Posted-Carries :
      (c : Cluster p) (i : String) (m : Message p.Value) (logs : List (List LogEntry))
      → Kept p ids c logs
      → m.message_type ≡ "AppendEntries"
      → Posted p ids c i (some m)
      → Carries p logs m
  Posted-Carries c i m logs kept type (routed j _ member among to) =
      kept.carried j member m among type
  Posted-Carries c i m logs kept type (client _ request) =
      absurd
        (false≢true (sym differ ∙ (eq_iff "AppendEntries" "ClientRequest").1 (sym type ∙ request)))
    where
      differ : str_eq "AppendEntries" "ClientRequest" ≡ false
      differ = refl

  -- A follower's new log is one that a member has had, and has no entry of a later term than its own.
  record Received (c c' : Cluster p) (i : String) (logs : List (List LogEntry)) : Type 0 where
    among : Memᴰ (c' i).node.log logs
    bounded : (k term : ℕ) → Holds (c' i).node.log k term → term ≤ (c' i).node.current_term

  Stores-Received :
      (c c' : Cluster p) (i : String) (m : Message p.Value) (args : AppendEntriesArgs)
      (logs : List (List LogEntry))
      → Kept p ids c logs
      → contains ids i ≡ true
      → Carries p logs m
      → p.append_entries.from_value m.payload ≡ some args
      → (c' i).node.current_term ≡ args.term
      → (c i).node.current_term ≤ (c' i).node.current_term
      → Stores (c i).node.log args (c' i).node.log
      → Received c c' i logs
  Stores-Received c c' i m args logs kept member x read term up st =
      let back : x.args ≡ args =
        some-injective x.args args
          (sym (reads_entries x.args) ∙ ap p.append_entries.from_value (sym x.written) ∙ read) in
      let same_term = ap (λ (a : AppendEntriesArgs). a.term) back in
      let result =
        Stores-result (c i).node.log (c' i).node.log x.log args
          (kept.matching (c i).node.log x.log (kept.held i member) x.among)
          (kept.shaped x.log x.among).is_log (subst (IsSlice x.log) back x.slice) st in
      elim result [
        | inl e ↦ record {
          among = subst (λ l. Memᴰ l logs) (sym e) (kept.held i member);
          bounded =
              λ k t h. omega (arith, kept.bounded i member k t (subst (λ l. Holds l k t) e h));
        }
        | inr (e, _) ↦ record {
          among = subst (λ l. Memᴰ l logs) (sym e) x.among;
          bounded = λ k t h. omega (arith, x.bounded k t (subst (λ l. Holds l k t) e h));
        }
      ]

  -- The actor has proposed, and this is its log.
  pub record Proposed (c c' : Cluster p) (i : String) (l : List LogEntry) : Type 0 where
    pub command : String
    pub leads : role (c i).node.state ≡ Role.leader
    pub node : (c' i).node ≡ with_entry (c i).node command (last_index_or_zero (c i).node.log + 1)
    pub now : l ≡ (c' i).node.log

  -- A turn makes no log but that of a proposal.
  pub record Next (c c' : Cluster p) (i : String) (logs : List (List LogEntry)) : Type 0 where
    pub later : Later c' logs
    pub new : (l : List LogEntry) → Memᴰ l later.logs_now → Memᴰ l logs ⊎ Proposed c c' i l

  module _ (c c' : Cluster p) (logs : List (List LogEntry)) (s : IsSound p reads ids large c)
      (kept : Kept p ids c logs) (t : Turn p reads ids large c c') where
    extended :
        (logs' : List (List LogEntry))
        → Extends p ids c c' t.actor logs logs'
        → ((l : List LogEntry) → Memᴰ l logs' → Memᴰ l logs ⊎ Proposed c c' t.actor l)
        → Next c c' t.actor logs
    extended logs' x new = record {
      later = record {
        logs_now = logs';
        more = x.more;
        sound = (Turn-IsSound p reads ids large c c' t s).0;
        kept = Extends-Kept p ids c c' t.actor logs logs' t.others kept _ t.moves.says x;
      };
      new = new;
    }

    -- A turn that leaves the member with one of the logs.
    no_new_log :
        Received c c' t.actor logs
        → (role (c' t.actor).node.state ≡ Role.leader
            → (c' t.actor).node.log ≡ (c t.actor).node.log)
        → Next c c' t.actor logs
    no_new_log x same =
        let (s', grows) = Turn-IsSound p reads ids large c c' t s in
        extended logs
          (unchanged-Extends p reads ids large c c' t.actor t.line t.member t.others grows s s'
            t.moves.change logs kept x.among same x.bounded)
          (λ l among. inl among)

    pub Turn-Next : Next c c' t.actor logs
    Turn-Next =
        let i = t.actor in
        let up = (Change-Follows p t.moves.change).term in
        elim t.moves.writes [
          | keeps e ↦
              no_new_log
                (record {
                  among = subst (λ l. Memᴰ l logs) (sym e) (kept.held i t.member);
                  bounded = λ k term h.
                      omega
                        (arith, kept.bounded i t.member k term (subst (λ l. Holds l k term) e h));
                })
                (λ _. e)
          | proposes command leads node ↦
              extended _
                (proposed-Extends p reads ids large c c' i t.member s logs kept leads command t.line
                  t.others (Turn-IsSound p reads ids large c c' t s).1 t.moves.change node)
                (each_cons (λ l. Memᴰ l logs ⊎ Proposed c c' i l) _ logs
                  (inr (record {
                    command = command;
                    leads = leads;
                    node = node;
                    now = sym (ap (λ (n : RaftNode). n.log) node);
                  }))
                  (λ l among. inl among))
          | stores m args line type read follows term st ↦
              no_new_log
                (Stores-Received c c' i m args logs kept t.member
                  (Posted-Carries c i m logs kept type (t.posted m line)) read term up st)
                (λ leads. cc (follows, leads))
        ]

  pub Steps-Later :
      (c c' : Cluster p) (logs : List (List LogEntry))
      → IsSound p reads ids large c
      → Kept p ids c logs
      → Steps p ids c c'
      → Later c' logs
  Steps-Later c c' logs s kept (done _) = record {
    logs_now = logs;
    more = λ l among. among;
    sound = s;
    kept = kept;
  }
  Steps-Later c c' logs s kept (step {b = b} first rest) =
      let x = (Turn-Next c b logs s kept (Step-Turn p reads ids large c b s first)).later in
      let y = Steps-Later b c' x.logs_now x.sound x.kept rest in
      record {
        logs_now = y.logs_now;
        more = λ l among. y.more l (x.more l among);
        sound = y.sound;
        kept = y.kept;
      }
