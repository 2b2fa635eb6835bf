-- ===== src/Cluster/Logs/Agreement.antt =====
-- How far the logs of the members agree (mini-raft/raft-rust/src/main.rs over node.rs).
use distributed_sys_lab.Prelude.{
  ℕ, suc, ◌<◌, ◌≡◌, ◌∙◌, sym, true, some, take, String, List, [], ◌∷◌, get_elem?, contains, length,
}
use distributed_sys_lab.Protocol.{LogEntry, AppendEntriesArgs}
use distributed_sys_lab.Node.Election.{Role, role}
use distributed_sys_lab.Engine.{Platform}
use distributed_sys_lab.Cluster.System.{Cluster, Steps, Started}
use distributed_sys_lab.Cluster.Elections.{ReadsVotes, Started-IsSound}
use distributed_sys_lab.Cluster.Logs.{Kept}
use distributed_sys_lab.Cluster.Logs.Starts.{first_log, Started-Kept}
use distributed_sys_lab.Cluster.Logs.Runs.{Later, Steps-Later}

module _ (p : Platform) (reads : ReadsVotes p)
    (reads_entries : (x : AppendEntriesArgs)
      → p.append_entries.from_value (p.append_entries.to_value x) ≡ some x)
    (ids : List String) (large : 1 < length ids) where
  -- The logs at two times of a run.
  record Times (c c' : Cluster p) : Type 0 where
    before : List (List LogEntry)
    kept_before : Kept p ids c before
    later : Later p reads reads_entries ids large c' before

  run-Times :
      (a c c' : Cluster p) (peers : String → List String) (g : String → p.Rng)
      → Started p ids a peers g
      → Steps p ids a c
      → Steps p ids c c'
      → Times c c'
  run-Times a c c' peers g started first second =
      let x =
        Steps-Later p reads reads_entries ids large a c (first_log ∷ [])
          (Started-IsSound p reads ids large a peers g started)
          (Started-Kept p ids a peers g started) first in
      record {
        before = x.logs_now;
        kept_before = x.kept;
        later = Steps-Later p reads reads_entries ids large c c' x.logs_now x.sound x.kept second;
      }

  -- A cluster of at least two members starts, and runs behind a relay that loses, repeats, delays and
  -- reorders messages, among any requests of clients. Where the log of a member at one time and the log of
  -- a member, the same or another, at that time or later have entries of the same term at the same index,
  -- the two logs are the same up to and including that index. The codec reads back the messages about votes
  -- and the entries that it wrote.
  pub Steps-log :
      (a c c' : Cluster p) (peers : String → List String) (g : String → p.Rng) (i j : String)
      (k : ℕ) (x y : LogEntry)
      → Started p ids a peers g
      → Steps p ids a c
      → Steps p ids c c'
      → contains ids i ≡ true
      → contains ids j ≡ true
      → get_elem? (c i).node.log k ≡ some x
      → get_elem? (c' j).node.log k ≡ some y
      → x.term ≡ y.term
      → take (suc k) (c i).node.log ≡ take (suc k) (c' j).node.log
  Steps-log a c c' peers g i j k x y started first second i_member j_member at_x at_y same =
      let t = run-Times a c c' peers g started first second in
      let m =
        t.later.kept.matching (c i).node.log (c' j).node.log
          (t.later.more (c i).node.log (t.kept_before.held i i_member))
          (t.later.kept.held j j_member) in
      m.upto k x y at_x at_y same

  -- A cluster of at least two members starts, and runs behind a relay that loses, repeats, delays and
  -- reorders messages, among any requests of clients. Where the log of a member at one time has, after the
  -- sentinel, an entry of the term of a member that leads at that time or later, the leader's log is the
  -- same up to and including that entry. The codec reads back the messages about votes and the entries
  -- that it wrote.
  pub Steps-entry :
      (a c c' : Cluster p) (peers : String → List String) (g : String → p.Rng) (i j : String)
      (k : ℕ) (x : LogEntry)
      → Started p ids a peers g
      → Steps p ids a c
      → Steps p ids c c'
      → contains ids i ≡ true
      → contains ids j ≡ true
      → role (c' j).node.state ≡ Role.leader
      → get_elem? (c i).node.log (suc k) ≡ some x
      → x.term ≡ (c' j).node.current_term
      → take (suc (suc k)) (c i).node.log ≡ take (suc (suc k)) (c' j).node.log
  Steps-entry a c c' peers g i j k x started first second i_member j_member leads at same =
      let t = run-Times a c c' peers g started first second in
      let among = t.later.more (c i).node.log (t.kept_before.held i i_member) in
      let h =
        t.later.kept.leading j j_member leads (c i).node.log k among
          (record { entry = x; at = at; of_term = same }) in
      let m =
        t.later.kept.matching (c i).node.log (c' j).node.log among (t.later.kept.held j j_member) in
      m.upto (suc k) x h.entry at h.at (same ∙ sym h.of_term)
