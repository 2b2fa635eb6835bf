-- ===== src/Relay/Decision.antt =====
-- What `ResolveTarget` (mini-raft/pkg/relay/relay.go) decides, apart from how its loop finds it.
use distributed_sys_lab.Prelude.{
  ◌≡◌, ◌∙◌, refl, ap, Bool, true, false, if◌then◌else◌, String, Option, none, some, List, [], ◌∷◌,
  inl, inr, Bool-cases, Outcome, ok, ◌>>=◌, >>=-eq-ok, ok-injective, lookup, lookup-insert, str_eq,
}
use distributed_sys_lab.Protocol.{Message}
use distributed_sys_lab.Relay.{
  Action, drop, forward, duplicate, Answer, Filter, Relay, Checked, then_checked, on_action,
  Resolved, resolved, check_filters, target, resolve_target, register_node,
}

abbrev pub any_drops : List Action → Bool
any_drops [] = false
any_drops (drop ∷ actions) = true
any_drops (forward ∷ actions) = any_drops actions
any_drops (duplicate ∷ actions) = any_drops actions

abbrev pub any_duplicates : List Action → Bool
any_duplicates [] = false
any_duplicates (duplicate ∷ actions) = true
any_duplicates (forward ∷ actions) = any_duplicates actions
any_duplicates (drop ∷ actions) = any_duplicates actions

-- The decision on the actions of all filters and the address of the receiver.
abbrev pub decision : List Action → Option String → String × Action
decision actions none = ("", drop)
decision actions (some addr) =
    if any_drops actions
    then ("", drop)
    else (addr, if any_duplicates actions then duplicate else forward)

module _ {V R : Type 0} (filtering : Filter V R) where
  -- The actions of all filters, each asked.
  unfoldable pub answers : Message V → List R → Outcome (List Action)
  answers msg [] = ok []
  answers msg (filter ∷ filters) = filtering.should msg filter >>= λ a.
      answers msg filters >>= λ actions. ok (a.action ∷ actions)

  abbrev verdict : Action → List Action → Action
  verdict final_action actions =
      if any_drops actions then drop else if any_duplicates actions then duplicate else final_action

  verdict_duplicate :
      (final_action : Action) (more : List Action)
      → verdict duplicate more ≡ verdict final_action (duplicate ∷ more)
  verdict_duplicate final_action more = elim (Bool-cases (any_duplicates more)) [
    | inl again ↦ rw again refl
    | inr once ↦ rw once refl
  ]

  on_action-verdict :
      (action : Action) (a : Answer R) (filters : List R) (final_action : Action)
      (next : Action → Outcome (Checked R)) (more : List Action)
      → ((final : Action) → (c : Checked R) × (next final ≡ ok c) × (c.action ≡ verdict final more))
      → (c : Checked R) × (on_action action a filters final_action next ≡ ok c)
        × (c.action ≡ verdict final_action (action ∷ more))
  on_action-verdict drop a filters final_action next more go = (_, refl, refl)
  on_action-verdict forward a filters final_action next more go =
      let (c, done, at) = go final_action in
      (then_checked a c, ap (λ o. o >>= λ c'. ok (then_checked a c')) done, at)
  on_action-verdict duplicate a filters final_action next more go =
      let (c, done, at) = go duplicate in
      (
        then_checked a c,
        ap (λ o. o >>= λ c'. ok (then_checked a c')) done,
        at ∙ verdict_duplicate final_action more,
      )

  -- The loop agrees with the actions of all filters, though it stops at a drop.
  check_filters-verdict :
      (msg : Message V) (final_action : Action) (filters : List R) (actions : List Action)
      → answers msg filters ≡ ok actions
      → (c : Checked R) × (check_filters filtering msg final_action filters ≡ ok c)
        × (c.action ≡ verdict final_action actions)
  unfolding answers check_filters
  check_filters-verdict msg final_action [] actions h =
      (_, refl, ap (verdict final_action) (ok-injective h))
  check_filters-verdict msg final_action (filter ∷ filters) actions h =
      let (a, asked, rest) = >>=-eq-ok (filtering.should msg filter) _ h in
      let (more, others, end) = >>=-eq-ok (answers msg filters) _ rest in
      let (c, done, at) =
        on_action-verdict a.action a filters final_action
          (λ action. check_filters filtering msg action filters) more
          (λ final. check_filters-verdict msg final filters more others) in
      (
        c,
        ap
              (λ o. o >>= λ a'.
                on_action a'.action a' filters final_action
                  (λ action. check_filters filtering msg action filters))
              asked
            ∙ done,
        at ∙ ap (verdict final_action) (ok-injective end),
      )

  target-decision :
      (actions : List Action) (addr : Option String)
      → target (verdict forward actions) addr ≡ decision actions addr
  unfolding target
  target-decision actions none = elim (Bool-cases (any_drops actions)) [
    | inl drops ↦ rw drops refl
    | inr passes ↦ elim (Bool-cases (any_duplicates actions)) [
      | inl twice ↦ rw (passes, twice) refl
      | inr once ↦ rw (passes, once) refl
    ]
  ]
  target-decision actions (some addr) = elim (Bool-cases (any_drops actions)) [
    | inl drops ↦ rw drops refl
    | inr passes ↦ elim (Bool-cases (any_duplicates actions)) [
      | inl twice ↦ rw (passes, twice) refl
      | inr once ↦ rw (passes, once) refl
    ]
  ]

  -- Where no filter panics on the message, `ResolveTarget` decides as if it had asked every filter: a message
  -- is dropped where any filter drops it or its receiver is not registered, else it goes to the address of
  -- its receiver, twice where any filter duplicates it. The routing table stays.
  pub resolve_target_lem :
      (msg : Message V) (r : Relay R) (actions : List Action)
      → answers msg r.filters ≡ ok actions
      → (t : Resolved R) × (resolve_target filtering msg r ≡ ok t)
        × ((t.addr, t.action) ≡ decision actions (lookup msg.to r.routing_table))
        × (t.relay.routing_table ≡ r.routing_table)
  unfolding resolve_target resolved
  resolve_target_lem msg r actions h =
      let (c, done, at) = check_filters-verdict msg forward r.filters actions h in
      let addr = lookup msg.to r.routing_table in
      (
        resolved filtering msg r c,
        ap (λ o. o >>= λ c'. ok (resolved filtering msg r c')) done,
        ap (λ action. target action addr) at ∙ target-decision actions addr,
        refl,
      )

  -- After an address is registered for a name, a message to that name goes to it, and any other message to
  -- where it went before, as far as the filters let it; no filter panics on the message.
  pub resolve_target-register_node :
      (msg : Message V) (id addr : String) (r : Relay R) (actions : List Action)
      → answers msg r.filters ≡ ok actions
      → (t : Resolved R) × (resolve_target filtering msg (register_node id addr r) ≡ ok t)
        × ((t.addr, t.action)
            ≡ decision actions
                (if str_eq id msg.to then some addr else lookup msg.to r.routing_table))
  unfolding register_node
  resolve_target-register_node msg id addr r actions h =
      let (t, done, at, _) = resolve_target_lem msg (register_node id addr r) actions h in
      (t, done, at ∙ ap (decision actions) (lookup-insert id msg.to addr r.routing_table))
