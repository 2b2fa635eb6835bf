-- ===== src/Cluster/System.antt =====
-- The cluster as a state machine: mini-raft/raft-rust/src/main.rs on each member, and between them the relay
-- (mini-raft/pkg/relay), which forwards a line to the address of the member that it is for, never, once or
-- twice, and at any later time.
use mathlib.Core.Path.{subst}
use mathlib.Core.List.{Memᴰ}
use mathlib.Core.Bool.{false≢true}
use distributed_sys_lab.Prelude.{
  ◌+◌, ◌≡◌, ◌≢◌, ◌∙◌, sym, inl, inr, Bool-cases, str_eq, eq_iff, true, none, some, String, Option,
  List, ok, length, contains,
}
use distributed_sys_lab.Protocol.{Message}
use distributed_sys_lab.Engine.{Platform, Process, start}
use distributed_sys_lab.Engine.Dispatch.{handle_line}
use distributed_sys_lab.Engine.Ticks.{tick}

-- A process for each member; what stands at other names plays no role.
abbrev pub Cluster : Platform → Type 0
Cluster p = String → Process p

module _ (p : Platform) (ids : List String) where
  -- The lines that can reach a member: one that is no message, a message that a member has sent to it, or a
  -- request of a client.
  pub data Posted (c : Cluster p) (i : String) : Option (Message p.Value) → Type 0 where
    garbage : Posted c i none
    routed :
        (j : String) (m : Message p.Value)
        → contains ids j ≡ true
        → Memᴰ m (c j).sent
        → m.to ≡ i
        → Posted c i (some m)
    client : (m : Message p.Value) → m.message_type ≡ "ClientRequest" → Posted c i (some m)

  -- All but one stay as they are.
  abbrev pub Others : Cluster p → Cluster p → String → Type 0
  Others c c' i = (j : String) → j ≢ i → c' j ≡ c j

  -- What holds of every process once one has changed.
  pub each_process :
      (P : String → Process p → Type 0) (c c' : Cluster p) (i : String)
      → Others c c' i
      → P i (c' i)
      → ((j : String) → j ≢ i → P j (c j))
      → (j : String) → P j (c' j)
  each_process P c c' i others changed same j = elim (Bool-cases (str_eq j i)) [
    | inl e ↦ subst (λ k. P k (c' k)) (sym ((eq_iff j i).0 e)) changed
    | inr other ↦
        let differ : j ≢ i = λ e. false≢true (sym other ∙ (eq_iff j i).1 e) in
        subst (P j) (sym (others j differ)) (same j differ)
  ]

  -- A member ticks, or handles a line.
  pub data Step (c c' : Cluster p) : Type 0 where
    ticks :
        (i : String) → contains ids i ≡ true → tick p (c i) ≡ ok (c' i) → Others c c' i → Step c c'
    receives :
        (i : String) (line : Option (Message p.Value))
        → contains ids i ≡ true
        → Posted c i line
        → handle_line p line (c i) ≡ ok (c' i)
        → Others c c' i
        → Step c c'

  pub data Steps : Cluster p → Cluster p → Type 0 where
    done : (c : Cluster p) → Steps c c
    step : {a b c : Cluster p} → Step a b → Steps b c → Steps a c

  -- Every member has just started, with the others as its peers.
  pub record Started (c : Cluster p) (peers : String → List String) (g : String → p.Rng)
      : Type 0 where
    pub others : (i : String) → contains ids i ≡ true → length (peers i) + 1 ≡ length ids
    pub fresh : (i : String) → contains ids i ≡ true → c i ≡ start p i (peers i) (g i)
