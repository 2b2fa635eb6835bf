-- ===== src/Cluster/Network/Arrivals.antt =====
-- Lines that can reach a member of the cluster (mini-raft/raft-rust/src/main.rs) as time goes on.
use mathlib.Core.Path.{subst}
use mathlib.Core.Bool.{false≢true}
use mathlib.Core.List.{Memᴰ}
use mathlib.Core.List.Memᴰ
use distributed_sys_lab.Prelude.{
  All-append, ◌≡◌, true, contains, ◌∙◌, sym, inl, inr, String, Option, List, str_eq, eq_iff,
  Bool-cases,
}
use distributed_sys_lab.Protocol.{Message}
use distributed_sys_lab.Engine.{Platform, Process, start}
use distributed_sys_lab.Engine.Sends.{Continues, tick-Continues, handle_line-Continues}
use distributed_sys_lab.Engine.Payloads.{IsWritten, AllWritten}
use distributed_sys_lab.Cluster.System
use distributed_sys_lab.Cluster.System.{
  Cluster, Posted, routed, Others, each_process, Step, receives, Steps, done, step, Started,
}

module _ (p : Platform) (ids : List String) where
  acted :
      (c c' : Cluster p) (i j : String) (m : Message p.Value)
      → Others p ids c c' i
      → Continues p (c i) (c' i)
      → Memᴰ m (c j).sent
      → Memᴰ m (c' j).sent
  acted c c' i j m others grown among = elim (Bool-cases (str_eq j i)) [
    | inl same ↦
        let e = (eq_iff j i).0 same in
        subst (λ k. Memᴰ m (c' k).sent) (sym e)
          (subst (λ xs. Memᴰ m xs) (sym grown.sent)
            (Memᴰ.append_left _ (subst (λ k. Memᴰ m (c k).sent) e among)))
    | inr differ ↦
        subst (λ (w : Process p). Memᴰ m w.sent)
          (sym (others j (λ e. false≢true (sym differ ∙ (eq_iff j i).1 e)))) among
  ]

  -- What can reach a member still can after a step of any member.
  pub Posted-Step :
      (c c' : Cluster p) (i : String) (line : Option (Message p.Value))
      → Step p ids c c'
      → Posted p ids c i line
      → Posted p ids c' i line
  Posted-Step c c' i line s System.garbage = System.garbage
  Posted-Step c c' i line s (System.client m e) = System.client m e
  Posted-Step c c' i line (System.ticks k _ t others) (routed j m member among to) =
      routed j m member (acted c c' k j m others (tick-Continues p (c k) (c' k) t) among) to
  Posted-Step c c' i line (receives k l _ _ h others) (routed j m member among to) =
      routed j m member (acted c c' k j m others (handle_line-Continues p l (c k) (c' k) h) among)
        to

  -- What the members have sent has payloads that the program wrote.
  abbrev pub Writes : Cluster p → Type 0
  Writes c = (j : String) → contains ids j ≡ true → AllWritten p (c j).sent

  Continues-written :
      (w w' : Process p) → Continues p w w' → AllWritten p w.sent → AllWritten p w'.sent
  Continues-written w w' k before =
      subst (AllWritten p) (sym k.sent) (All-append (IsWritten p) w.sent k.more before k.written)

  changed :
      (c c' : Cluster p) (i : String)
      → contains ids i ≡ true
      → Others p ids c c' i
      → Continues p (c i) (c' i)
      → Writes c
      → Writes c'
  changed c c' i member others k written =
      each_process p ids (λ j w. contains ids j ≡ true → AllWritten p w.sent) c c' i others
        (λ _. Continues-written (c i) (c' i) k (written i member)) (λ j _. written j)

  pub Writes-Step : (c c' : Cluster p) → Step p ids c c' → Writes c → Writes c'
  Writes-Step c c' (System.ticks k member t others) =
      changed c c' k member others (tick-Continues p (c k) (c' k) t)
  Writes-Step c c' (receives k l member _ h others) =
      changed c c' k member others (handle_line-Continues p l (c k) (c' k) h)

  -- Members that have just started have sent nothing.
  pub Started-Writes :
      (c : Cluster p) (peers : String → List String) (g : String → p.Rng)
      → Started p ids c peers g
      → Writes c
  unfolding start
  Started-Writes c peers g started j member =
      subst (λ (w : Process p). AllWritten p w.sent) (sym (started.fresh j member)) tt
