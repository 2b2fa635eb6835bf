-- ===== src/Cluster/Logs.antt =====
-- The logs of a cluster (mini-raft/raft-rust/src/main.rs over node.rs): those that members have had, and what
-- the messages carry of them.
pub mod Terms
pub mod Turns
pub mod Changes
pub mod Proposals
pub mod Runs
pub mod Starts
pub mod Agreement
use mathlib.Core.Path.{subst}
use mathlib.Core.List.{Memᴰ}
use mathlib.Core.Option.{some-injective}
use distributed_sys_lab.Prelude.{
  ℕ, suc, ◌<◌, ◌≤◌, ◌≡◌, ◌≢◌, ◌∙◌, ◌⊎◌, inl, inr, refl, sym, ap, true, some, String, List, arith,
  get_elem?, contains,
}
use distributed_sys_lab.Protocol.{Message, LogEntry, AppendEntriesArgs}
use distributed_sys_lab.Node.{RaftNode, sentinel}
use distributed_sys_lab.Node.Log.{IsLog}
use distributed_sys_lab.Node.Matching.{Differs, Matches, stored_all-Matches}
use distributed_sys_lab.Node.Slices.{IsSlice, empty, copied}
use distributed_sys_lab.Node.Election.{Role, role}
use distributed_sys_lab.Node.AppendEntries.Store.{stored_all}
use distributed_sys_lab.Engine.{Platform}
use distributed_sys_lab.Cluster.System.{Cluster}
use distributed_sys_lab.Cluster.Support.{Elected}
use distributed_sys_lab.Cluster.Writes.{Stores}

-- An entry of a term after the first position.
pub record Holds (log : List LogEntry) (k term : ℕ) : Type 0 where
  pub entry : LogEntry
  pub at : get_elem? log (suc k) ≡ some entry
  pub of_term : entry.term ≡ term

-- The entries stand at their indices, the sentinel first.
pub record IsLogOfNode (log : List LogEntry) : Type 0 where
  pub is_log : IsLog log
  pub first : get_elem? log 0 ≡ some sentinel

-- The node is past its candidacy in a term.
abbrev pub Settled : RaftNode → ℕ → Type 0
Settled n term =
    (term < n.current_term)
    ⊎ ((term ≡ n.current_term) × ((votes : List String) → role n.state ≢ Role.candidate votes))

module _ (p : Platform) where
  -- The message carries entries of one of the logs.
  pub record Carries (logs : List (List LogEntry)) (m : Message p.Value) : Type 0 where
    pub args : AppendEntriesArgs
    pub written : m.payload ≡ p.append_entries.to_value args
    pub log : List LogEntry
    pub among : Memᴰ log logs
    pub slice : IsSlice log args
    pub bounded : (k term : ℕ) → Holds log k term → term ≤ args.term

  -- A member won the election of a term.
  pub record Won (ids : List String) (c : Cluster p) (term : ℕ) : Type 0 where
    pub winner : String
    pub member : contains ids winner ≡ true
    pub elected : Elected p ids c winner term
    pub settled : Settled (c winner).node term

  -- The logs that members have had match one another, messages carry parts of them, an entry's term was won
  -- by a member, and a leader has all entries of its term.
  pub record Kept (ids : List String) (c : Cluster p) (logs : List (List LogEntry)) : Type 0 where
    pub shaped : (l : List LogEntry) → Memᴰ l logs → IsLogOfNode l
    pub matching : (xs ys : List LogEntry) → Memᴰ xs logs → Memᴰ ys logs → Matches xs ys
    pub held : (i : String) → contains ids i ≡ true → Memᴰ (c i).node.log logs
    pub bounded :
        (i : String)
        → contains ids i ≡ true
        → (k term : ℕ) → Holds (c i).node.log k term
        → term ≤ (c i).node.current_term
    pub carried :
        (i : String)
        → contains ids i ≡ true
        → (m : Message p.Value) → Memᴰ m (c i).sent
        → m.message_type ≡ "AppendEntries"
        → Carries logs m
    pub won : (l : List LogEntry) (k term : ℕ) → Memᴰ l logs → Holds l k term → Won ids c term
    pub leading :
        (i : String)
        → contains ids i ≡ true
        → role (c i).node.state ≡ Role.leader
        → (l : List LogEntry) (k : ℕ) → Memᴰ l logs
        → Holds l k (c i).node.current_term
        → Holds (c i).node.log k (c i).node.current_term

-- Storing entries of one log in another that matches it makes no third log.
pub Stores-result :
    (old new s : List LogEntry) (args : AppendEntriesArgs)
    → Matches old s
    → IsLog s
    → IsSlice s args
    → Stores old args new
    → (new ≡ old) ⊎ ((new ≡ s) × Differs old s)
unfolding stored_all
Stores-result old new s args m log (empty none_sent) st =
    inl (st.result ∙ ap (stored_all old) none_sent)
Stores-result old new s args m log (copied prev at term entries) st =
    let same = m.upto args.prev_log_index st.prev prev st.at at (st.term ∙ sym term) in
    let result = st.result ∙ ap (stored_all old) entries in
    elim (stored_all-Matches s log.contiguous _ (suc args.prev_log_index) old m same refl) [
      | inl e ↦ inl (result ∙ e)
      | inr (e, differs) ↦ inr (result ∙ e, differs)
    ]
