-- ===== src/Tests/Life.antt =====
-- Runs of several steps at concrete nodes.
use distributed_sys_lab.Prelude.{◌≡◌, refl, true, false, String, List, [], ◌∷◌, ok, arith}
use distributed_sys_lab.Protocol.{AppendEntriesArgs, RequestVoteArgs, SideEffect}
use distributed_sys_lab.Node.{RaftNode, new}
use distributed_sys_lab.Node.Invariant.{IsValid}
use distributed_sys_lab.Node.Voter.{Follows}
use distributed_sys_lab.Node.AppendEntries.Laws.{after}
use distributed_sys_lab.Node.RequestVote.{handle_request_vote}
use distributed_sys_lab.Node.RequestVote.Laws.{VoteAnswer}
use distributed_sys_lab.Node.Timeouts.{handle_election_timeout}
use distributed_sys_lab.Node.Steps.{
  append_entries, election_timeout, Steps, granted, Steps-Follows, Ballot-unique,
}
use distributed_sys_lab.Node.Runs.{Run, Promised, Keeps, Run-Keeps, Run-new}
use distributed_sys_lab.Tests.Program.{program}
use distributed_sys_lab.Tests.Data.{from_ok, node_b, from_a}

-- C asks B for its vote in term 2, with a log as long as B's.
abbrev from_c : RequestVoteArgs
from_c = record { term = 2; candidate_id = "C"; last_log_index = 2; last_log_term = 1 }

abbrev ask : RaftNode → VoteAnswer
ask n = from_ok (n, record { term = 0; vote_granted = false }, []) (handle_request_vote n from_c)

-- B has voted for C; then it hears a leader of an old term; then C asks again.
abbrev voted : RaftNode
voted = (ask node_b).0

abbrev old_message : AppendEntriesArgs
old_message = record from_a { term = 1 }

abbrev waiting : RaftNode
waiting = after voted old_message

voted_ok : handle_request_vote node_b from_c ≡ ok (ask node_b)
unfolding program
voted_ok = refl

voted_granted : (ask node_b).1.vote_granted ≡ true
unfolding program
voted_granted = refl

waiting_ok : handle_request_vote waiting from_c ≡ ok (ask waiting)
unfolding program
waiting_ok = refl

waiting_granted : (ask waiting).1.vote_granted ≡ true
unfolding program
waiting_granted = refl

abbrev between : Steps voted waiting
between = Steps.step (append_entries old_message refl) (Steps.done waiting)

Steps-Follows_example : Follows voted waiting
Steps-Follows_example = Steps-Follows voted waiting between

Ballot-unique_example : ◌≡◌ {A = String} "C" "C"
Ballot-unique_example =
    Ballot-unique node_b voted waiting (ask waiting).0 "C" "C" 2
      (granted from_c (ask node_b) voted_ok refl voted_granted refl refl) between
      (granted from_c (ask waiting) waiting_ok refl waiting_granted refl refl)

node_b-IsValid : IsValid node_b
node_b-IsValid = omega arith

-- B stores what A sends.
stored : Run node_b (after node_b from_a)
unfolding Promised
stored = Run.step (append_entries from_a refl) (omega arith, tt) (Run.done (after node_b from_a))

Run-Keeps_example : Keeps node_b (after node_b from_a)
Run-Keeps_example = Run-Keeps node_b (after node_b from_a) stored node_b-IsValid

-- A new node stands for election.
abbrev fresh : RaftNode
fresh = new "B" ("A" ∷ "C" ∷ [])

abbrev standing : RaftNode × List SideEffect
standing = from_ok (fresh, []) (handle_election_timeout fresh)

standing_ok : handle_election_timeout fresh ≡ ok standing
unfolding program new
standing_ok = refl

stood : Run fresh standing.0
unfolding Promised
stood = Run.step (election_timeout standing standing_ok refl) tt (Run.done standing.0)

Run-new_example : IsValid standing.0
Run-new_example = Run-new "B" ("A" ∷ "C" ∷ []) standing.0 stood
