-- ===== src/Tests/Append.antt =====
-- `handle_append_entries` at concrete messages.
use distributed_sys_lab.Prelude.{
  ℕ, ◌+◌, ◌≤◌, max, ◌≡◌, ◌↔◌, refl, true, false, [], ◌∷◌, ◌++◌, get_elem?, take, drop, arith,
}
use distributed_sys_lab.Node.{RaftNode, sentinel}
use distributed_sys_lab.Node.Invariant.{IsValid}
use distributed_sys_lab.Node.Apply.{apply_committed}
use distributed_sys_lab.Node.Apply.Laws.{
  applied, numbered, apply_committed-node, apply_committed-applied,
}
use distributed_sys_lab.Node.AppendEntries.{handle_append_entries}
use distributed_sys_lab.Node.AppendEntries.Store.{Stored}
use distributed_sys_lab.Node.AppendEntries.Laws.{
  HasEntry, after, reply, handle_append_entries-Stored,
}
use distributed_sys_lab.Node.AppendEntries.Keeps.{
  handle_append_entries-IsValid, handle_append_entries-success_iff, handle_append_entries-term,
  handle_append_entries_idem, Refused,
}
use distributed_sys_lab.Tests.Program.{program}
use distributed_sys_lab.Tests.Data.{entry, node_b, from_a}

from_a_accepted : (reply node_b from_a).success ≡ true
unfolding program
from_a_accepted = refl

node_b-IsValid : IsValid node_b
node_b-IsValid = omega arith

-- The conflicting entry is overwritten, as in `test_follower_appends_and_overwrites_logs`.
from_a_stored :
    ((after node_b from_a).log
      ≡ sentinel ∷ entry 1 1 "cmd1" ∷ entry 2 2 "new_cmd2" ∷ entry 2 3 "new_cmd3" ∷ [])
    × ((after node_b from_a).committed_index ≡ 3)
    × (applied (handle_append_entries node_b from_a).2 ≡ (2, "new_cmd2") ∷ (3, "new_cmd3") ∷ [])
unfolding program applied
from_a_stored = (refl, refl, refl)

handle_append_entries-Stored_example :
    Stored node_b.log (after node_b from_a).log 2 from_a.entries
    × HasEntry node_b.log 1 1
    × ((reply node_b from_a).match_index ≡ 1 + 2)
handle_append_entries-Stored_example =
    handle_append_entries-Stored node_b from_a (omega arith) (omega arith) from_a_accepted

handle_append_entries-IsValid_example :
    IsValid (after node_b from_a)
    × (1 ≤ (after node_b from_a).committed_index)
    × ((i : ℕ) → i ≤ 1 → get_elem? (after node_b from_a).log i ≡ get_elem? node_b.log i)
handle_append_entries-IsValid_example =
    handle_append_entries-IsValid node_b from_a node_b-IsValid (omega arith) tt

handle_append_entries-success_iff_example :
    (((reply node_b from_a).success ≡ true) ↔ ((1 ≤ 2) × HasEntry node_b.log 1 1))
    × ((reply node_b from_a).success ≡ false → Refused node_b from_a)
handle_append_entries-success_iff_example = handle_append_entries-success_iff node_b from_a

handle_append_entries-term_example : (after node_b from_a).current_term ≡ max 1 2
handle_append_entries-term_example = handle_append_entries-term node_b from_a

handle_append_entries_idem_example :
    (after (after node_b from_a) from_a).log ≡ (after node_b from_a).log
handle_append_entries_idem_example =
    handle_append_entries_idem node_b from_a (omega arith) (omega arith)

-- B with its second entry committed and not yet applied.
abbrev behind : RaftNode
behind = record node_b { committed_index = 2 }

apply_committed-node_example :
    (apply_committed behind []).0 ≡ record behind { last_applied = max 1 2 }
apply_committed-node_example = apply_committed-node behind []

apply_committed-applied_example :
    applied (apply_committed behind []).1 ≡ applied [] ++ numbered 2 (take 1 (drop 2 behind.log))
apply_committed-applied_example = apply_committed-applied behind []
