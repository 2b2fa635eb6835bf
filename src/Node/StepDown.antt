-- ===== src/Node/StepDown.antt =====
-- `maybe_step_down` of mini-raft/raft-rust/src/node.rs as a function of the node alone.
use distributed_sys_lab.Prelude.{ℕ, ◌<◌, ◌≡◌, true, false, none, List, arith, ltb, if◌then◌else◌}
use distributed_sys_lab.Protocol.{follower, SideEffect}
use distributed_sys_lab.Node.{RaftNode, maybe_step_down}

-- The node after a message of a term.
unfoldable pub stepped : RaftNode → ℕ → RaftNode
stepped n term =
    if ltb n.current_term term
    then record n { current_term = term; voted_for = none; leader_id = none; state = follower }
    else n

-- A node that adopts a newer term: a follower without a vote and a leader.
abbrev pub adopted : RaftNode → ℕ → RaftNode
adopted n term = record n {
  current_term = term;
  voted_for = none;
  leader_id = none;
  state = follower;
}

pub stepped-adopted :
    (n : RaftNode) (term : ℕ) → ltb n.current_term term ≡ true → stepped n term ≡ adopted n term
unfolding stepped
stepped-adopted n term h = rw h

pub adopted-stepped :
    (n : RaftNode) (term : ℕ) → n.current_term < term → adopted n term ≡ stepped n term
unfolding stepped
adopted-stepped n term h = ground arith

pub maybe_step_down-stepped :
    (n : RaftNode) (term : ℕ) (fx : List SideEffect)
    → ((maybe_step_down n term fx).0 ≡ stepped n term)
      × ((maybe_step_down n term fx).2 ≡ ltb n.current_term term)
unfolding maybe_step_down stepped
maybe_step_down-stepped n term fx = ground arith

pub stepped_same : (n : RaftNode) (term : ℕ) → ltb n.current_term term ≡ false → stepped n term ≡ n
unfolding stepped
stepped_same n term h = rw h
