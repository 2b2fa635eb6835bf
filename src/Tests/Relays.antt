-- ===== src/Tests/Relays.antt =====
-- Relays at concrete filters.
use mathlib.Core.List.{Memᴰ}
use distributed_sys_lab.Prelude.{
  ℕ, suc, ltb, ◌≡◌, refl, some, String, Option, List, [], ◌∷◌, ok, All, ℤ, pos, Table, lookup,
  str_eq, if◌then◌else◌, int_eq,
}
use distributed_sys_lab.Protocol.{Message}
use distributed_sys_lab.Relay.{
  forward, duplicate, Relay, Resolved, check_filters, resolved, target, forwards, on_line,
  handle_line, handle_connection, resolve_target, register_node,
}
use distributed_sys_lab.Relay.Rules.{
  Random, Rule, new_partition_rule, new_jitter_rule, new_duplicate_rule, same_group, jitter, should,
  rules,
}
use distributed_sys_lab.Relay.Decision.{
  answers, decision, resolve_target_lem, resolve_target-register_node,
}
use distributed_sys_lab.Relay.Isolation.{IsWithin, IsSplit, handle_connection-IsSplit}
use distributed_sys_lab.Tests.Data.{from_ok}
use distributed_sys_lab.Relay.Routes.{Copies, handle_line-Copies}

-- A generator that counts, and numbers in place of floats.
abbrev pub counter : Random
counter = record {
  Rng = ℕ;
  Float = ℕ;
  new_pcg = λ a b. a;
  float64 = λ g. (g, suc g);
  int64_n = λ n g. (0, suc g);
  less = ltb;
}

abbrev groups : Table ℤ
groups = ("A", pos 0) ∷ ("B", pos 0) ∷ ("C", pos 1) ∷ []

-- A jitter, a partition of C, and a duplication of all but the first messages.
abbrev splitting : Relay (Rule counter)
splitting = record {
  routing_table = ("A", "127.0.0.1:9001") ∷ ("B", "127.0.0.1:9002") ∷ ("C", "127.0.0.1:9003") ∷ [];
  filters =
      new_jitter_rule counter (pos 5)
      ∷ new_partition_rule counter groups
      ∷ new_duplicate_rule counter 9
      ∷ [];
}

abbrev message : String → Message ℕ
message to = record { from = "A"; to = to; message_type = "AppendEntries"; payload = 0 }

all_answer :
    answers (rules counter) (message "B") splitting.filters
    ≡ ok (forward ∷ forward ∷ duplicate ∷ [])
unfolding answers should jitter same_group lookup int_eq
all_answer = refl

resolve_target_lem_example :
    (t : Resolved (Rule counter)) × (resolve_target (rules counter) (message "B") splitting ≡ ok t)
    × ((t.addr, t.action)
        ≡ decision (forward ∷ forward ∷ duplicate ∷ []) (lookup "B" splitting.routing_table))
    × (t.relay.routing_table ≡ splitting.routing_table)
resolve_target_lem_example =
    resolve_target_lem (rules counter) (message "B") splitting (forward ∷ forward ∷ duplicate ∷ [])
      all_answer

-- A line is a message.
abbrev read : Message ℕ → Option (Message ℕ)
read m = some m

splitting-IsSplit : IsSplit read counter groups splitting
splitting-IsSplit = record { ready = (tt, (tt, (tt, tt))); partition = Memᴰ.tail (Memᴰ.head refl) }

handle_connection-IsSplit_example :
    (b : Relay (Rule counter) × List (String × Message ℕ)) × (handle_connection
        (rules counter)
        read
        (message "B" ∷ message "C" ∷ [])
        splitting
      ≡ ok b)
    × IsSplit read counter groups b.0
    × All (IsWithin read groups) b.1
handle_connection-IsSplit_example =
    handle_connection-IsSplit read counter groups (message "B" ∷ message "C" ∷ []) splitting
      splitting-IsSplit

abbrev forwarded : Relay (Rule counter) × List (String × Message ℕ)
forwarded = from_ok (splitting, []) (handle_line (rules counter) read (message "B") splitting)

forwarded_ok : handle_line (rules counter) read (message "B") splitting ≡ ok forwarded
unfolding handle_line on_line resolve_target check_filters resolved target forwards should jitter
    same_group lookup int_eq
forwarded_ok = refl

forwarded_twice :
    forwarded.1 ≡ ("127.0.0.1:9002", message "B") ∷ ("127.0.0.1:9002", message "B") ∷ []
unfolding handle_line on_line resolve_target check_filters resolved target forwards should jitter
    same_group lookup int_eq
forwarded_twice = refl

handle_line-Copies_example :
    Copies read splitting.routing_table (message "B") forwarded.1
    × (forwarded.0.routing_table ≡ splitting.routing_table)
handle_line-Copies_example =
    handle_line-Copies read (rules counter) (message "B") splitting forwarded forwarded_ok

-- B moves to another port.
resolve_target-register_node_example :
    (t : Resolved (Rule counter)) × (resolve_target
        (rules counter)
        (message "B")
        (register_node "B" "127.0.0.1:9009" splitting)
      ≡ ok t)
    × ((t.addr, t.action)
        ≡ decision
            (forward ∷ forward ∷ duplicate ∷ [])
            (if str_eq "B" "B" then some "127.0.0.1:9009" else lookup "B" splitting.routing_table))
resolve_target-register_node_example =
    resolve_target-register_node (rules counter) (message "B") "B" "127.0.0.1:9009" splitting
      (forward ∷ forward ∷ duplicate ∷ []) all_answer
