-- ===== src/Tests/Replication.antt =====
-- The run that elects A goes on: A proposes a command, and B stores it.
use mathlib.Core.List.{Memᴰ}
use distributed_sys_lab.Prelude.{◌≤◌, ◌≡◌, refl, some, take, [], ◌∷◌, ok, get_elem?, arith}
use distributed_sys_lab.Node.{sentinel}
use distributed_sys_lab.Protocol.{Message}
use distributed_sys_lab.Engine.{Process}
use distributed_sys_lab.Engine.Dispatch.{handle_line}
use distributed_sys_lab.Cluster.System.{Cluster, routed, client, Step, receives, Steps, done, step}
use distributed_sys_lab.Cluster.Logs.Agreement.{Steps-log, Steps-entry}
use distributed_sys_lab.Cluster.History.Order.{Steps-term}
use distributed_sys_lab.Node.Election.{Role, role}
use distributed_sys_lab.Tests.Program.{engine}
use distributed_sys_lab.Tests.Wire.{Payload}
use distributed_sys_lab.Tests.Data.{from_ok}
use distributed_sys_lab.Tests.Campaign.{
  platform, platform_reads, ids, peers, at_start, elected, put, put-Others, member_a, member_b,
  fresh,
}
use distributed_sys_lab.Tests.Elections.{stands_step, votes_step, leads_step}

abbrev command_line : Message platform.Value
command_line = record {
  from = "client";
  to = "A";
  message_type = "ClientRequest";
  payload = Payload.client_request (record { command = "x" });
}

abbrev a_proposes : Process platform
a_proposes = from_ok (elected "A") (handle_line platform (some command_line) (elected "A"))

abbrev entries_to_b : Message platform.Value
entries_to_b = record {
  from = "A";
  to = "B";
  message_type = "AppendEntries";
  payload = Payload.append_entries (record {
    term = 1;
    leader_id = "A";
    prev_log_index = 0;
    prev_log_term = 0;
    entries = record { term = 1; index = 1; command = "x" } ∷ [];
    leader_commit = 0;
  });
}

abbrev proposed : Cluster platform
proposed = put elected "A" a_proposes

abbrev b_stores : Process platform
b_stores = from_ok (proposed "B") (handle_line platform (some entries_to_b) (proposed "B"))

abbrev stored : Cluster platform
stored = put proposed "B" b_stores

a_proposed : handle_line platform (some command_line) (elected "A") ≡ ok a_proposes
unfolding engine
a_proposed = refl

entries_among : Memᴰ entries_to_b (proposed "A").sent
unfolding engine
entries_among = Memᴰ.tail (Memᴰ.tail (Memᴰ.tail (Memᴰ.tail (Memᴰ.tail (Memᴰ.head refl)))))

b_stored : handle_line platform (some entries_to_b) (proposed "B") ≡ ok b_stores
unfolding engine
b_stored = refl

a_has : get_elem? (proposed "A").node.log 1 ≡ some (record { term = 1; index = 1; command = "x" })
unfolding engine
a_has = refl

a_leads : role (stored "A").node.state ≡ Role.leader
unfolding engine
a_leads = refl

b_has : get_elem? (stored "B").node.log 1 ≡ some (record { term = 1; index = 1; command = "x" })
unfolding engine
b_has = refl

a_term : 1 ≡ (stored "A").node.current_term
unfolding engine
a_term = refl

proposes_step : Step platform ids elected proposed
proposes_step =
    receives "A" (some command_line) member_a (client command_line refl) a_proposed
      (put-Others elected "A" a_proposes)

stores_step : Step platform ids proposed stored
stores_step =
    receives "B" (some entries_to_b) member_b (routed "A" entries_to_b member_a entries_among refl)
      b_stored (put-Others proposed "B" b_stores)

to_proposed : Steps platform ids at_start proposed
to_proposed =
    step stands_step (step votes_step (step leads_step (step proposes_step (done proposed))))

Steps-log_example : take 2 (proposed "A").node.log ≡ take 2 (stored "B").node.log
Steps-log_example =
    Steps-log platform platform_reads (λ x. refl) ids (omega arith) at_start proposed stored peers
      (λ i. 0) "A" "B" 1 _ _ fresh to_proposed (step stores_step (done stored)) member_a member_b
      a_has b_has refl

to_stored : Steps platform ids at_start stored
to_stored =
    step stands_step
      (step votes_step (step leads_step (step proposes_step (step stores_step (done stored)))))

Steps-entry_example : take 2 (stored "B").node.log ≡ take 2 (stored "A").node.log
Steps-entry_example =
    Steps-entry platform platform_reads (λ x. refl) ids (omega arith) at_start stored stored peers
      (λ i. 0) "B" "A" 0 _ fresh to_stored (done stored) member_b member_a a_leads b_has a_term

b_first : get_elem? (stored "B").node.log 0 ≡ some sentinel
unfolding engine
b_first = refl

Steps-term_example : (0 ≤ 1) × (1 ≤ (stored "B").node.current_term)
Steps-term_example =
    Steps-term platform platform_reads (λ x. refl) ids (omega arith) at_start stored peers (λ i. 0)
      "B" 0 1 _ _ fresh to_stored member_b (omega arith) b_first b_has
