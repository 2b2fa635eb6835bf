-- ===== src/Cluster/Logs/Starts.antt =====
-- The logs of a cluster that has just started (`RaftNode::new` of mini-raft/raft-rust/src/node.rs).
use mathlib.Core.Path.{subst}
use mathlib.Core.List.{Memᴰ}
use mathlib.Core.List.Memᴰ
use distributed_sys_lab.Prelude.{
  ℕ, suc, ◌≡◌, ◌∙◌, refl, sym, ap, true, String, List, [], ◌∷◌, arith, get_elem?, contains,
}
use distributed_sys_lab.Protocol.{Message, LogEntry}
use distributed_sys_lab.Node.{RaftNode, sentinel, last_index_or_zero}
use distributed_sys_lab.Node.Matching.{Matches, Matches-refl}
use distributed_sys_lab.Node.Election.{Role, role}
use distributed_sys_lab.Engine.{Platform, Process, start, new}
use distributed_sys_lab.Node
use distributed_sys_lab.Cluster.System.{Cluster, Started}
use distributed_sys_lab.Cluster.Logs.{IsLogOfNode, Holds, Kept}

-- The log of every member at the start.
abbrev pub first_log : List LogEntry
first_log = sentinel ∷ []

first_log-IsLogOfNode : IsLogOfNode first_log
first_log-IsLogOfNode = record {
  is_log = record { nonempty = omega arith; contiguous = (refl, tt) };
  first = refl;
}

only_first : (l : List LogEntry) → Memᴰ l (first_log ∷ []) → l ≡ first_log
only_first l (Memᴰ.head e) = e
only_first l (Memᴰ.tail among) = elim among [ ]

pub nothing_held : (l : List LogEntry) (k term : ℕ) → Memᴰ l (first_log ∷ []) → Holds l k term → ⊥
nothing_held l k term among h =
    let e = only_first l among in cc (sym (ap (λ xs. get_elem? xs (suc k)) e) ∙ h.at)

module _ (p : Platform) where
  start-log :
      (i : String) (peers : List String) (g : p.Rng) → (start p i peers g).node.log ≡ first_log
  unfolding start new Node.new
  start-log i peers g = refl

  start-follower :
      (i : String) (peers : List String) (g : p.Rng)
      → role (start p i peers g).node.state ≡ Role.follower
  unfolding start new Node.new
  start-follower i peers g = refl

  start-sent : (i : String) (peers : List String) (g : p.Rng) → (start p i peers g).sent ≡ []
  unfolding start new Node.new
  start-sent i peers g = refl

  pub Started-log :
      (ids : List String) (c : Cluster p) (peers : String → List String) (g : String → p.Rng)
      (i : String)
      → Started p ids c peers g
      → contains ids i ≡ true
      → (c i).node.log ≡ first_log
  Started-log ids c peers g i s member =
      ap (λ (w : Process p). w.node.log) (s.fresh i member) ∙ start-log i (peers i) (g i)

  pub Started-follower :
      (ids : List String) (c : Cluster p) (peers : String → List String) (g : String → p.Rng)
      (i : String)
      → Started p ids c peers g
      → contains ids i ≡ true
      → role (c i).node.state ≡ Role.follower
  Started-follower ids c peers g i s member =
      ap (λ (w : Process p). role w.node.state) (s.fresh i member)
      ∙ start-follower i (peers i) (g i)

  pub Started-silent :
      (ids : List String) (c : Cluster p) (peers : String → List String) (g : String → p.Rng)
      (i : String) (m : Message p.Value)
      → Started p ids c peers g
      → contains ids i ≡ true
      → Memᴰ m (c i).sent
      → ⊥
  Started-silent ids c peers g i m s member among = Memᴰ.not-nil (
      subst (Memᴰ m)
        (ap (λ (w : Process p). w.sent) (s.fresh i member) ∙ start-sent i (peers i) (g i)) among)

  pub Started-Kept :
      (ids : List String) (c : Cluster p) (peers : String → List String) (g : String → p.Rng)
      → Started p ids c peers g
      → Kept p ids c (first_log ∷ [])
  Started-Kept ids c peers g s = record {
    shaped = λ l among. subst IsLogOfNode (sym (only_first l among)) first_log-IsLogOfNode;
    matching = λ xs ys in_xs in_ys.
        subst (λ l. Matches xs l) (only_first xs in_xs ∙ sym (only_first ys in_ys))
          (Matches-refl xs);
    held = λ i member. Memᴰ.head (Started-log ids c peers g i s member);
    bounded = λ i member k term h.
        absurd (nothing_held _ k term (Memᴰ.head (Started-log ids c peers g i s member)) h);
    carried = λ i member m among _. absurd (Started-silent ids c peers g i m s member among);
    won = λ l k term among h. absurd (nothing_held l k term among h);
    leading = λ i member leads l k among h. absurd (nothing_held l k _ among h);
  }
