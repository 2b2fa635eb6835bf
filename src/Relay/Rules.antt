-- ===== src/Relay/Rules.antt =====
-- The filters of mini-raft/pkg/relay/relay.go.
use distributed_sys_lab.Prelude.{
  ℕ, zero, suc, Bool, Option, none, some, [], ◌∷◌, if◌then◌else◌, Outcome, ok, panic, ℤ, pos,
  negsuc, int_eq, Table, lookup,
}
use distributed_sys_lab.Protocol.{Message}
use distributed_sys_lab.Relay.{Action, drop, forward, duplicate, Answer, Filter}

-- What the rules take from `math/rand/v2` and from floating point: `int64_n n` is `Int64N` of a positive `n`.
pub record Random : Type 1 where
  pub Rng : Type 0
  pub Float : Type 0
  pub new_pcg : ℕ → ℕ → Rng
  pub float64 : Rng → Float × Rng
  pub int64_n : ℕ → Rng → ℕ × Rng
  pub less : Float → Float → Bool

module _ (rand : Random) where
  pub data Rule : Type 0 where
    delay_rule : ℤ → Rule
    drop_rule : rand.Float → rand.Rng → Rule
    partition_rule : Table ℤ → Rule
    jitter_rule : ℤ → rand.Rng → Rule
    duplicate_rule : rand.Float → rand.Rng → Rule

  abbrev pub new_delay_rule : ℤ → Rule
  new_delay_rule delay = delay_rule delay

  abbrev pub new_drop_rule : rand.Float → Rule
  new_drop_rule probability = drop_rule probability (rand.new_pcg 1 1)

  abbrev pub new_partition_rule : Table ℤ → Rule
  new_partition_rule groups = partition_rule groups

  abbrev pub new_jitter_rule : ℤ → Rule
  new_jitter_rule max_jitter = jitter_rule max_jitter (rand.new_pcg 2 2)

  abbrev pub new_duplicate_rule : rand.Float → Rule
  new_duplicate_rule probability = duplicate_rule probability (rand.new_pcg 3 3)

  -- `PartitionRule.Should` of the groups of the sender and the receiver.
  unfoldable pub same_group : Option ℤ → Option ℤ → Action
  same_group (some from_group) (some to_group) =
      if int_eq from_group to_group then forward else drop
  same_group (some _) none = drop
  same_group none _ = drop

  -- `JitterRule.Should`: `Int64N` panics unless its argument is positive.
  unfoldable pub jitter : ℤ → rand.Rng → Outcome (Answer Rule)
  jitter (pos (suc n)) rng =
      let (slept, rng') = rand.int64_n (suc n) rng in
      ok (record {
        filter = jitter_rule (pos (suc n)) rng';
        slept = pos slept ∷ [];
        action = forward;
      })
  jitter (pos zero) rng = panic
  jitter (negsuc n) rng = panic

  module _ {V : Type 0} where
    -- `Should` of each rule.
    unfoldable pub should : Message V → Rule → Outcome (Answer Rule)
    unfolding same_group jitter lookup
    should msg (delay_rule delay) =
        ok (record { filter = delay_rule delay; slept = delay ∷ []; action = forward })
    should msg (drop_rule probability rng) =
        let (x, rng') = rand.float64 rng in
        ok (record {
          filter = drop_rule probability rng';
          slept = [];
          action = if rand.less x probability then drop else forward;
        })
    should msg (partition_rule groups) = ok (record {
      filter = partition_rule groups;
      slept = [];
      action = same_group (lookup msg.from groups) (lookup msg.to groups);
    })
    should msg (jitter_rule max_jitter rng) = jitter max_jitter rng
    should msg (duplicate_rule probability rng) =
        let (x, rng') = rand.float64 rng in
        ok (record {
          filter = duplicate_rule probability rng';
          slept = [];
          action = if rand.less x probability then duplicate else forward;
        })

    abbrev pub rules : Filter V Rule
    rules = record { should = should }
