-- ===== src/Cluster/History.antt =====
-- The elections that a cluster (mini-raft/raft-rust/src/main.rs over node.rs) has seen: who stood with which
-- log, and who won with which votes.
pub mod Bases
pub mod Messages
pub mod Turns
pub mod Outcomes
pub mod Bids
pub mod Wins
pub mod Runs
pub mod Order
pub mod Restriction
use mathlib.Core.List.{Memᴰ}
use distributed_sys_lab.Prelude.{
  ℕ, suc, ◌+◌, ◌<◌, ◌≤◌, ◌≡◌, true, some, String, List, length, get_elem?, get_last?, take,
  contains,
}
use distributed_sys_lab.Protocol.{LogEntry, Message, RequestVoteArgs}
use distributed_sys_lab.Node.Election.{Role, role}
use distributed_sys_lab.Node.{RaftNode}
use distributed_sys_lab.Engine.{Platform}
use distributed_sys_lab.Cluster.System.{Cluster}
use distributed_sys_lab.Cluster.Support.{Backed}
use distributed_sys_lab.Cluster.Logs.{Holds, Settled, Carries}

-- A member stood for election in a term, with this log.
pub record Bid : Type 0 where
  pub candidate : String
  pub term : ℕ
  pub log : List LogEntry

-- A bid won, with the votes of these members.
pub record Reign : Type 0 where
  pub bid : Bid
  pub electors : List String

pub record Past : Type 0 where
  pub bids : List Bid
  pub reigns : List Reign

-- Up to a position the log is that of the bid, and then has entries of the bid's term only.
pub record Continues (b : Bid) (l : List LogEntry) (upto : ℕ) : Type 0 where
  pub within : length b.log ≤ upto
  pub base : take (length b.log) l ≡ b.log
  pub own :
      (i : ℕ) (y : LogEntry)
      → length b.log ≤ i
      → i < upto
      → get_elem? l i ≡ some y
      → y.term ≡ b.term

-- The bid is of the member in the term.
pub record Names (b : Bid) (i : String) (term : ℕ) : Type 0 where
  pub candidate : b.candidate ≡ i
  pub of_term : b.term ≡ term

-- The entries of a log up to one of a term come from the reign of the term.
pub record Stems (reigns : List Reign) (l : List LogEntry) (k term : ℕ) : Type 0 where
  pub reign : Reign
  pub among : Memᴰ reign reigns
  pub of_term : reign.bid.term ≡ term
  pub continues : Continues reign.bid l (suc (suc k))

-- A candidate's bid.
pub record Standing (bids : List Bid) (i : String) (n : RaftNode) : Type 0 where
  pub bid : Bid
  pub among : Memᴰ bid bids
  pub names : Names bid i n.current_term
  pub log : bid.log ≡ n.log

-- A leader's reign.
pub record Leading (reigns : List Reign) (i : String) (n : RaftNode) : Type 0 where
  pub reign : Reign
  pub among : Memᴰ reign reigns
  pub names : Names reign.bid i n.current_term
  pub continues : Continues reign.bid n.log (length n.log)

-- A request for votes that a bid has made, with the end of the bid's log.
pub record Asked (bids : List Bid) (args : RequestVoteArgs) : Type 0 where
  pub bid : Bid
  pub among : Memᴰ bid bids
  pub names : Names bid args.candidate_id args.term
  pub last : LogEntry
  pub is_last : get_last? bid.log ≡ some last
  pub last_index : args.last_log_index ≡ last.index
  pub last_term : args.last_log_term ≡ last.term

module _ (p : Platform) where
  -- Entries that the reign of their message's term has sent.
  pub record Ruled (logs : List (List LogEntry)) (reigns : List Reign) (m : Message p.Value)
      : Type 0 where
    pub carries : Carries p logs m
    pub reign : Reign
    pub among : Memᴰ reign reigns
    pub of_term : reign.bid.term ≡ carries.args.term
    pub continues : Continues reign.bid carries.log (length carries.log)

module _ (p : Platform) (ids : List String) (c : Cluster p) where
  -- A bid that was made, with entries of earlier terms.
  pub record Made (logs : List (List LogEntry)) (b : Bid) : Type 0 where
    pub member : contains ids b.candidate ≡ true
    pub past : b.term ≤ (c b.candidate).node.current_term
    pub among : Memᴰ b.log logs
    pub older : (k term : ℕ) → Holds b.log k term → term < b.term

  -- A bid that won.
  pub record Reigned (bids : List Bid) (r : Reign) : Type 0 where
    pub among : Memᴰ r.bid bids
    pub backed : Backed p ids c r.bid.candidate r.bid.term r.electors
    pub majority : length ids < length r.electors + length r.electors
    pub settled : Settled (c r.bid.candidate).node r.bid.term

  -- What is remembered of the elections.
  pub record Remembers (logs : List (List LogEntry)) (past : Past) : Type 0 where
    pub made : (b : Bid) → Memᴰ b past.bids → Made logs b
    pub one_bid :
        (b b' : Bid) → Memᴰ b past.bids → Memᴰ b' past.bids → Names b b'.candidate b'.term → b ≡ b'
    pub reigned : (r : Reign) → Memᴰ r past.reigns → Reigned past.bids r
    pub one_reign :
        (r r' : Reign)
        → Memᴰ r past.reigns
        → Memᴰ r' past.reigns
        → r.bid.term ≡ r'.bid.term
        → r ≡ r'
    pub standing :
        (i : String) (votes : List String)
        → contains ids i ≡ true
        → role (c i).node.state ≡ Role.candidate votes
        → Standing past.bids i (c i).node
    pub leading :
        (i : String)
        → contains ids i ≡ true
        → role (c i).node.state ≡ Role.leader
        → Leading past.reigns i (c i).node
    pub requests :
        (i : String)
        → contains ids i ≡ true
        → (m : Message p.Value) → Memᴰ m (c i).sent
        → (args : RequestVoteArgs) → m.message_type ≡ "RequestVote"
        → p.request_vote.from_value m.payload ≡ some args
        → Asked past.bids args
    pub rules :
        (i : String)
        → contains ids i ≡ true
        → (m : Message p.Value) → Memᴰ m (c i).sent
        → m.message_type ≡ "AppendEntries"
        → Ruled p logs past.reigns m
    pub stems :
        (l : List LogEntry) (k term : ℕ) → Memᴰ l logs → Holds l k term → Stems past.reigns l k term
