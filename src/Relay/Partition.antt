-- ===== src/Relay/Partition.antt =====
-- One message at `PartitionRule` and the other filters of a relay (mini-raft/pkg/relay/relay.go).
use mathlib.Core.List.{Memᴰ}
use distributed_sys_lab.Prelude.{
  zero, suc, ◌≡◌, ◌≢◌, ◌∙◌, refl, sym, ap, ◌⊎◌, inl, inr, Bool-cases, Option, none, some, List, [],
  ◌∷◌, Outcome, ok, ◌>>=◌, All, ℤ, pos, negsuc, int_eq, int_eq_sound, Table, lookup,
}
use distributed_sys_lab.Protocol.{Message}
use distributed_sys_lab.Relay.{
  Action, drop, forward, duplicate, Answer, Checked, then_checked, on_action, check_filters,
}
use distributed_sys_lab.Relay.Rules.{
  Random, Rule, delay_rule, drop_rule, partition_rule, jitter_rule, duplicate_rule, same_group,
  jitter, should, rules,
}

pub same_group-cases :
    (rand : Random) (x y : Option ℤ)
    → (same_group rand x y ≡ drop) ⊎ ((group : ℤ) × (x ≡ some group) × (y ≡ some group))
unfolding same_group
same_group-cases rand none y = inl refl
same_group-cases rand (some a) none = inl refl
same_group-cases rand (some a) (some b) = elim (Bool-cases (int_eq a b)) [
  | inl same ↦ inr (a, refl, ap some (sym (int_eq_sound a b same)))
  | inr differ ↦ inl (rw differ refl)
]

module _ (rand : Random) where
  -- `Int64N` does not panic.
  abbrev pub IsReady : Rule rand → Type 0
  IsReady (jitter_rule (pos zero) _) = ⊥
  IsReady (jitter_rule (negsuc _) _) = ⊥
  IsReady _ = Unit

  module _ {V : Type 0} (groups : Table ℤ) (msg : Message V) where
    abbrev pub crossing : Action
    crossing = same_group rand (lookup msg.from groups) (lookup msg.to groups)

    -- What one filter does: the partition answers as its groups say, and stays as it is.
    record Asked (filter : Rule rand) (a : Answer (Rule rand)) : Type 0 where
      pub ready : IsReady a.filter
      pub stays : partition_rule groups ≡ filter → partition_rule groups ≡ a.filter
      pub action : partition_rule groups ≡ filter → a.action ≡ crossing

    should-Asked :
        (filter : Rule rand)
        → IsReady filter
        → (a : Answer (Rule rand)) × (should rand msg filter ≡ ok a) × Asked filter a
    unfolding should jitter
    should-Asked (delay_rule delay) ready =
        (_, refl, record { ready = tt; stays = λ e. e; action = λ e. cc e })
    should-Asked (drop_rule probability rng) ready =
        (_, refl, record { ready = tt; stays = λ e. cc e; action = λ e. cc e })
    should-Asked (partition_rule others) ready = (
      _,
      refl,
      record {
        ready = tt;
        stays = λ e. e;
        action = λ e. ap (λ g. same_group rand (lookup msg.from g) (lookup msg.to g)) (same e);
      },
    )
      where
        same : ◌≡◌ {A = Rule rand} (partition_rule groups) (partition_rule others) → others ≡ groups
        same e = cc
    should-Asked (jitter_rule (pos (suc n)) rng) ready =
        (_, refl, record { ready = tt; stays = λ e. cc e; action = λ e. cc e })
    should-Asked (jitter_rule (pos zero) rng) ready = absurd ready
    should-Asked (jitter_rule (negsuc n) rng) ready = absurd ready
    should-Asked (duplicate_rule probability rng) ready =
        (_, refl, record { ready = tt; stays = λ e. cc e; action = λ e. cc e })

    -- What the loop does where the partition is among the filters.
    pub record Guarded (filters : List (Rule rand)) (c : Checked (Rule rand)) : Type 0 where
      pub ready : All IsReady c.filters
      pub stays : Memᴰ (partition_rule groups) filters → Memᴰ (partition_rule groups) c.filters
      pub drops : Memᴰ (partition_rule groups) filters → crossing ≡ drop → c.action ≡ drop

    Memᴰ-stays :
        (filter : Rule rand) (filters : List (Rule rand)) (a : Answer (Rule rand))
        (after : List (Rule rand))
        → Asked filter a
        → (Memᴰ (partition_rule groups) filters → Memᴰ (partition_rule groups) after)
        → Memᴰ (partition_rule groups) (filter ∷ filters)
        → Memᴰ (partition_rule groups) (a.filter ∷ after)
    Memᴰ-stays filter filters a after asked stays (Memᴰ.head e) = Memᴰ.head (asked.stays e)
    Memᴰ-stays filter filters a after asked stays (Memᴰ.tail m) = Memᴰ.tail (stays m)

    then_checked-Guarded :
        (filter : Rule rand) (filters : List (Rule rand)) (a : Answer (Rule rand))
        (c : Checked (Rule rand))
        → Asked filter a
        → a.action ≢ drop
        → Guarded filters c
        → Guarded (filter ∷ filters) (then_checked a c)
    then_checked-Guarded filter filters a c asked passes g = record {
      ready = (asked.ready, g.ready);
      stays = λ m. Memᴰ-stays filter filters a c.filters asked g.stays m;
      drops = λ m crosses. elim m [
        | Memᴰ.head e ↦ absurd (passes (asked.action e ∙ crosses))
        | Memᴰ.tail m' ↦ g.drops m' crosses
      ];
    }

    on_action-Guarded :
        (action : Action) (filter : Rule rand) (filters : List (Rule rand)) (a : Answer (Rule rand))
        (final_action : Action) (next : Action → Outcome (Checked (Rule rand)))
        → a.action ≡ action
        → Asked filter a
        → All IsReady filters
        → ((final : Action) → (c : Checked (Rule rand)) × (next final ≡ ok c) × Guarded filters c)
        → (c : Checked (Rule rand)) × (on_action action a filters final_action next ≡ ok c)
          × Guarded (filter ∷ filters) c
    on_action-Guarded drop filter filters a final_action next at asked ready go = (
      _,
      refl,
      record {
        ready = (asked.ready, ready);
        stays = λ m. Memᴰ-stays filter filters a filters asked (λ k. k) m;
        drops = λ _ _. refl;
      },
    )
    on_action-Guarded forward filter filters a final_action next at asked ready go =
        let (c, done, g) = go final_action in
        (
          then_checked a c,
          ap (λ o. o >>= λ c'. ok (then_checked a c')) done,
          then_checked-Guarded filter filters a c asked (λ e. cc (e, at)) g,
        )
    on_action-Guarded duplicate filter filters a final_action next at asked ready go =
        let (c, done, g) = go duplicate in
        (
          then_checked a c,
          ap (λ o. o >>= λ c'. ok (then_checked a c')) done,
          then_checked-Guarded filter filters a c asked (λ e. cc (e, at)) g,
        )

    pub check_filters-Guarded :
        (final_action : Action) (filters : List (Rule rand))
        → All IsReady filters
        → (c : Checked (Rule rand)) × (check_filters (rules rand) msg final_action filters ≡ ok c)
          × Guarded filters c
    unfolding check_filters
    check_filters-Guarded final_action [] ready =
        (_, refl, record { ready = tt; stays = λ m. m; drops = λ m. elim m [ ] })
    check_filters-Guarded final_action (filter ∷ filters) ready =
        let (a, asked, answer) = should-Asked filter ready.0 in
        let next = λ (action : Action). check_filters (rules rand) msg action filters in
        let (c, done, g) =
          on_action-Guarded a.action filter filters a final_action next refl answer ready.1
            (λ final. check_filters-Guarded final filters ready.1) in
        (c, ap (λ o. o >>= λ a'. on_action a'.action a' filters final_action next) asked ∙ done, g)
