-- ===== src/Relay/Isolation.antt =====
-- A connection to a relay with a partition (mini-raft/pkg/relay/relay.go).
use mathlib.Core.List.{Memᴰ}
use distributed_sys_lab.Prelude.{
  ◌≡◌, refl, inl, inr, bind_ok, String, Option, none, some, List, [], ◌∷◌, ◌++◌, ok, All,
  All-append, ℤ, Table, lookup,
}
use distributed_sys_lab.Protocol.{Message}
use distributed_sys_lab.Relay.{
  Action, drop, forward, duplicate, Relay, Checked, resolved, check_filters, target, resolve_target,
  forwards, on_line, handle_line, handle_connection,
}
use distributed_sys_lab.Relay.Rules.{Random, Rule, partition_rule, rules}
use distributed_sys_lab.Relay.Partition.{same_group-cases, IsReady, Guarded, check_filters-Guarded}

module _ {V Line : Type 0} (unmarshal : Line → Option (Message V)) where
  -- A line whose sender and receiver are in one group.
  pub record IsWithin (groups : Table ℤ) (copy : String × Line) : Type 0 where
    pub msg : Message V
    pub decoded : unmarshal copy.1 ≡ some msg
    pub group : ℤ
    pub from : lookup msg.from groups ≡ some group
    pub to : lookup msg.to groups ≡ some group

  module _ (rand : Random) (groups : Table ℤ) where
    -- A relay that does not panic, with the partition among its filters.
    pub record IsSplit (r : Relay (Rule rand)) : Type 0 where
      pub ready : All (IsReady rand) r.filters
      pub partition : Memᴰ (partition_rule groups) r.filters

    forwards-IsWithin :
        (action : Action) (addr : String) (line : Line)
        → IsWithin groups (addr, line)
        → All (IsWithin groups) (forwards action addr line)
    unfolding forwards
    forwards-IsWithin drop addr line h = tt
    forwards-IsWithin forward addr line h = (h, tt)
    forwards-IsWithin duplicate addr line h = (h, (h, tt))

    nothing_forwarded :
        (action : Action) (addr : String) (line : Line)
        → action ≡ drop
        → All (IsWithin groups) (forwards action addr line)
    unfolding forwards
    nothing_forwarded drop addr line e = tt
    nothing_forwarded forward addr line e = cc e
    nothing_forwarded duplicate addr line e = cc e

    resolved-drop :
        (msg : Message V) (r : Relay (Rule rand)) (c : Checked (Rule rand))
        → c.action ≡ drop
        → (resolved (rules rand) msg r c).action ≡ drop
    unfolding resolved target
    resolved-drop msg r c e = rw e refl

    resolved-IsWithin :
        (msg : Message V) (r : Relay (Rule rand)) (c : Checked (Rule rand)) (line : Line)
        → unmarshal line ≡ some msg
        → Guarded rand groups msg r.filters c
        → IsSplit r
        → let t = resolved (rules rand) msg r c in
          All (IsWithin groups) (forwards t.action t.addr line)
    resolved-IsWithin msg r c line decoded g split =
        elim (same_group-cases rand (lookup msg.from groups) (lookup msg.to groups)) [
          | inl crosses ↦
              nothing_forwarded _ _ line (resolved-drop msg r c (g.drops split.partition crosses))
          | inr (group, from, to) ↦
              forwards-IsWithin _ _ line
                (record { msg = msg; decoded = decoded; group = group; from = from; to = to })
        ]

    resolved-IsSplit :
        (msg : Message V) (r : Relay (Rule rand)) (c : Checked (Rule rand))
        → Guarded rand groups msg r.filters c
        → IsSplit r
        → IsSplit (resolved (rules rand) msg r c).relay
    unfolding resolved
    resolved-IsSplit msg r c g split = record {
      ready = g.ready;
      partition = g.stays split.partition;
    }

    on_line-IsSplit :
        (line : Line) (m : Option (Message V)) (r : Relay (Rule rand))
        → unmarshal line ≡ m
        → IsSplit r
        → (b : Relay (Rule rand) × List (String × Line)) × (on_line (rules rand) unmarshal m line r
            ≡ ok b)
          × IsSplit b.0
          × All (IsWithin groups) b.1
    unfolding on_line resolve_target
    on_line-IsSplit line none r e split = (_, refl, split, tt)
    on_line-IsSplit line (some msg) r e split =
        let (c, done, g) = check_filters-Guarded rand groups msg forward r.filters split.ready in
        let t = resolved (rules rand) msg r c in
        (
          (t.relay, forwards t.action t.addr line),
          bind_ok (resolve_target (rules rand) msg r) _
              (bind_ok (check_filters (rules rand) msg forward r.filters) _ done refl) refl,
          resolved-IsSplit msg r c g split,
          resolved-IsWithin msg r c line e g split,
        )

    -- A relay has the partition `groups` among its filters, in which no jitter is zero or negative. It
    -- handles any lines of a connection without a panic and keeps the partition, and every line that it
    -- forwards is a message whose sender and receiver are in one group.
    pub handle_connection-IsSplit :
        (lines : List Line) (r : Relay (Rule rand))
        → IsSplit r
        → (b : Relay (Rule rand) × List (String × Line)) × (handle_connection
              (rules rand)
              unmarshal
              lines
              r
            ≡ ok b)
          × IsSplit b.0
          × All (IsWithin groups) b.1
    unfolding handle_connection handle_line
    handle_connection-IsSplit [] r split = (_, refl, split, tt)
    handle_connection-IsSplit (line ∷ lines) r split =
        let (first, did, split', within) = on_line-IsSplit line (unmarshal line) r refl split in
        let (rest, done, split'', within') = handle_connection-IsSplit lines first.0 split' in
        (
          (rest.0, first.1 ++ rest.1),
          bind_ok (on_line (rules rand) unmarshal (unmarshal line) line r) _ did
              (bind_ok (handle_connection (rules rand) unmarshal lines first.0) _ done refl),
          split'',
          All-append (IsWithin groups) first.1 rest.1 within within',
        )
