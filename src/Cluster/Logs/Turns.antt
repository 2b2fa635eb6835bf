-- ===== src/Cluster/Logs/Turns.antt =====
-- A turn of one member (mini-raft/raft-rust/src/main.rs) and the logs of the cluster.
use mathlib.Core.Path.{subst}
use mathlib.Core.List.{Memᴰ}
use mathlib.Core.List.Memᴰ
use distributed_sys_lab.Prelude.{
  ◌≤◌, arith, All-Memᴰ, ℕ, ◌≡◌, ◌≢◌, inl, inr, true, String, List, contains,
}
use distributed_sys_lab.Protocol.{Message, LogEntry}
use distributed_sys_lab.Node.Matching.{Matches}
use distributed_sys_lab.Node.Election.{Role, role}
use distributed_sys_lab.Engine.{Platform}
use distributed_sys_lab.Cluster.Claims.{Causes, Truthful}
use distributed_sys_lab.Cluster.Says.{Says}
use distributed_sys_lab.Cluster.System.{Cluster, Others, each_process}
use distributed_sys_lab.Cluster.Logs.{IsLogOfNode, Holds, Carries, Won, Kept}

module _ (p : Platform) (ids : List String) where
  Carries-more :
      (logs logs' : List (List LogEntry)) (m : Message p.Value)
      → ((l : List LogEntry) → Memᴰ l logs → Memᴰ l logs')
      → Carries p logs m
      → Carries p logs' m
  Carries-more logs logs' m more x = record {
    args = x.args;
    written = x.written;
    log = x.log;
    among = more x.log x.among;
    slice = x.slice;
    bounded = x.bounded;
  }

  -- The logs once a member has had its turn, and what holds of them.
  pub record Extends (c c' : Cluster p) (i : String) (logs logs' : List (List LogEntry))
      : Type 0 where
    pub more : (l : List LogEntry) → Memᴰ l logs → Memᴰ l logs'
    pub shaped : (l : List LogEntry) → Memᴰ l logs' → IsLogOfNode l
    pub matching : (xs ys : List LogEntry) → Memᴰ xs logs' → Memᴰ ys logs' → Matches xs ys
    pub now : Memᴰ (c' i).node.log logs'
    pub bounded : (k term : ℕ) → Holds (c' i).node.log k term → term ≤ (c' i).node.current_term
    pub won : (l : List LogEntry) (k term : ℕ) → Memᴰ l logs' → Holds l k term → Won p ids c' term
    pub actor_leading :
        role (c' i).node.state ≡ Role.leader
        → (l : List LogEntry) (k : ℕ) → Memᴰ l logs'
        → Holds l k (c' i).node.current_term
        → Holds (c' i).node.log k (c' i).node.current_term
    pub others_leading :
        (j : String)
        → j ≢ i
        → contains ids j ≡ true
        → role (c j).node.state ≡ Role.leader
        → (l : List LogEntry) (k : ℕ) → Memᴰ l logs'
        → Holds l k (c j).node.current_term
        → Holds (c j).node.log k (c j).node.current_term

  module _ (c c' : Cluster p) (i : String) (logs logs' : List (List LogEntry))
      (others : Others p ids c c' i) (kept : Kept p ids c logs) (k : Causes)
      (says : Says p k (c' i).node (c i).sent (c' i).sent) (x : Extends c c' i logs logs') where
    actor_carried :
        contains ids i ≡ true
        → (m : Message p.Value) → Memᴰ m (c' i).sent
        → m.message_type ≡ "AppendEntries"
        → Carries p logs' m
    actor_carried member m among type =
        elim (Memᴰ.append_cases (c i).sent (subst (Memᴰ m) says.sent among)) [
          | inl old ↦ Carries-more logs logs' m x.more (kept.carried i member m old type)
          | inr new ↦
              let q =
                (All-Memᴰ (Truthful p k (c' i).node) says.more says.truthful new).quotes type in
              record {
                args = q.args;
                written = q.written;
                log = (c' i).node.log;
                among = x.now;
                slice = q.offers.slice;
                bounded = λ k term h. omega (arith, x.bounded k term h, q.offers.term);
              }
        ]

    pub Extends-Kept : Kept p ids c' logs'
    Extends-Kept = record {
      shaped = x.shaped;
      matching = x.matching;
      held =
          each_process p ids (λ j w. contains ids j ≡ true → Memᴰ w.node.log logs') c c' i others
            (λ _. x.now) (λ j _ member. x.more (c j).node.log (kept.held j member));
      bounded =
          each_process p ids
            (λ j w.
              contains ids j ≡ true
              → (k term : ℕ) → Holds w.node.log k term
              → term ≤ w.node.current_term)
            c c' i others (λ _. x.bounded) (λ j _. kept.bounded j);
      carried =
          each_process p ids
            (λ j w.
              contains ids j ≡ true
              → (m : Message p.Value) → Memᴰ m w.sent
              → m.message_type ≡ "AppendEntries"
              → Carries p logs' m)
            c c' i others actor_carried
            (λ j _ member m among type.
              Carries-more logs logs' m x.more (kept.carried j member m among type));
      won = x.won;
      leading =
          each_process p ids
            (λ j w.
              contains ids j ≡ true
              → role w.node.state ≡ Role.leader
              → (l : List LogEntry) (k : ℕ) → Memᴰ l logs'
              → Holds l k w.node.current_term
              → Holds w.node.log k w.node.current_term)
            c c' i others (λ _. x.actor_leading) x.others_leading;
    }
