-- ===== src/Relay.antt =====
-- The relay between the nodes (mini-raft/pkg/relay/relay.go): routing, and the interface of filters.
-- `Prelude.Outcome.panic` is a panic of Go, which ends the relay.
pub mod Rules
pub mod Decision
pub mod Partition
pub mod Isolation
pub mod Routes
use distributed_sys_lab.Prelude.{
  ◌<+◌, ◌++◌, String, Option, none, some, List, [], ◌∷◌, Outcome, ok, ◌>>=◌, ℤ, Table, lookup,
  insert,
}
use distributed_sys_lab.Protocol.{Message}

pub data Action : Type 0 where
  drop : Action
  forward : Action
  duplicate : Action

-- What `Should` does: the filter after it (for its generator), the durations it sleeps for, and its result.
pub record Answer (R : Type 0) : Type 0 where
  pub filter : R
  pub slept : List ℤ
  pub action : Action

-- The interface `Filter`, with the state of a filter made explicit.
pub record Filter (V R : Type 0) : Type 0 where
  pub should : Message V → R → Outcome (Answer R)

pub record Relay (R : Type 0) : Type 0 where
  pub routing_table : Table String
  pub filters : List R

-- What the loop over the filters leaves: the filters, the sleeps in order, and the action.
pub record Checked (R : Type 0) : Type 0 where
  pub filters : List R
  pub slept : List ℤ
  pub action : Action

pub record Resolved (R : Type 0) : Type 0 where
  pub relay : Relay R
  pub slept : List ℤ
  pub addr : String
  pub action : Action

-- `NewRelay`
abbrev pub new_relay : (R : Type 0) → Relay R
new_relay R = record { routing_table = []; filters = [] }

unfoldable pub register_node : {R : Type 0} → String → String → Relay R → Relay R
unfolding insert
register_node id addr r = record r { routing_table = insert id addr r.routing_table }

unfoldable pub add_filter : {R : Type 0} → R → Relay R → Relay R
add_filter filter r = record r { filters = r.filters <+ filter }

unfoldable pub clear_filters : {R : Type 0} → Relay R → Relay R
clear_filters r = record r { filters = [] }

module _ {R : Type 0} where
  -- One filter is done and the loop goes on.
  abbrev pub then_checked : Answer R → Checked R → Checked R
  then_checked a c = record {
    filters = a.filter ∷ c.filters;
    slept = a.slept ++ c.slept;
    action = c.action;
  }

  -- What the loop does with the action of a filter: a drop ends it, and the filters behind are not asked.
  abbrev pub on_action :
      Action → Answer R → List R → Action → (Action → Outcome (Checked R)) → Outcome (Checked R)
  on_action drop a filters final_action next =
      ok (record { filters = a.filter ∷ filters; slept = a.slept; action = drop })
  on_action forward a filters final_action next = next final_action >>= λ c. ok (then_checked a c)
  on_action duplicate a filters final_action next = next duplicate >>= λ c. ok (then_checked a c)

-- The address that is found, and the action of the filters.
unfoldable pub target : Action → Option String → String × Action
target drop _ = ("", drop)
target _ none = ("", drop)
target action (some addr) = (addr, action)

-- The calls of `forward`: an address and the line that is written to it.
unfoldable pub forwards : {Line : Type 0} → Action → String → Line → List (String × Line)
forwards drop addr line = []
forwards forward addr line = (addr, line) ∷ []
forwards duplicate addr line = (addr, line) ∷ (addr, line) ∷ []

module _ {V R : Type 0} (filtering : Filter V R) where
  -- The loop over the filters.
  unfoldable pub check_filters : Message V → Action → List R → Outcome (Checked R)
  check_filters msg final_action [] =
      ok (record { filters = []; slept = []; action = final_action })
  check_filters msg final_action (filter ∷ filters) = filtering.should msg filter >>= λ a.
      on_action a.action a filters final_action (λ action. check_filters msg action filters)

  -- What `ResolveTarget` returns after the loop, and the relay after it.
  unfoldable pub resolved : Message V → Relay R → Checked R → Resolved R
  unfolding target lookup
  resolved msg r c =
      let (addr, action) = target c.action (lookup msg.to r.routing_table) in
      record {
        relay = record r { filters = c.filters };
        slept = c.slept;
        addr = addr;
        action = action;
      }

  unfoldable pub resolve_target : Message V → Relay R → Outcome (Resolved R)
  unfolding check_filters resolved
  resolve_target msg r = check_filters msg forward r.filters >>= λ c. ok (resolved msg r c)

  module _ {Line : Type 0} (unmarshal : Line → Option (Message V)) where
    -- One turn of the loop of `handleConnection`, after `Unmarshal`.
    unfoldable pub on_line :
        Option (Message V) → Line → Relay R → Outcome (Relay R × List (String × Line))
    unfolding forwards resolve_target
    on_line none line r = ok (r, [])
    on_line (some msg) line r =
        resolve_target msg r >>= λ t. ok (t.relay, forwards t.action t.addr line)

    unfoldable pub handle_line : Line → Relay R → Outcome (Relay R × List (String × Line))
    unfolding on_line
    handle_line line r = on_line (unmarshal line) line r

    -- The loop of `handleConnection`, and all that is forwarded.
    unfoldable pub handle_connection :
        List Line → Relay R → Outcome (Relay R × List (String × Line))
    handle_connection [] r = ok (r, [])
    handle_connection (line ∷ lines) r = handle_line line r >>= λ first.
        handle_connection lines first.0 >>= λ rest. ok (rest.0, first.1 ++ rest.1)
