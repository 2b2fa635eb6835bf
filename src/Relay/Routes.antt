-- ===== src/Relay/Routes.antt =====
-- Where a relay (mini-raft/pkg/relay/relay.go) sends a line.
use mathlib.Core.Path.{subst}
use distributed_sys_lab.Prelude.{
  ◌≤◌, ◌≡◌, ◌∙◌, refl, ap, arith, length, String, Option, none, some, List, ok, ok-injective,
  >>=-eq-ok, All, Table, lookup,
}
use distributed_sys_lab.Protocol.{Message}
use distributed_sys_lab.Relay.{
  Action, drop, forward, duplicate, Filter, Relay, Checked, Resolved, resolved, check_filters,
  target, resolve_target, forwards, on_line, handle_line,
}

module _ {V Line : Type 0} (unmarshal : Line → Option (Message V)) where
  -- A copy of the line, on its way to the address that the table has for its receiver.
  pub record IsRouted (table : Table String) (line : Line) (copy : String × Line) : Type 0 where
    pub same : copy.1 ≡ line
    pub msg : Message V
    pub decoded : unmarshal line ≡ some msg
    pub at : lookup msg.to table ≡ some copy.0

  -- The copies of one line.
  pub record Copies (table : Table String) (line : Line) (copies : List (String × Line))
      : Type 0 where
    pub routed : All (IsRouted table line) copies
    pub twice : length copies ≤ 2

  target-Copies :
      (table : Table String) (line : Line) (msg : Message V) (action : Action)
      (addr : Option String)
      → unmarshal line ≡ some msg
      → lookup msg.to table ≡ addr
      → let t = target action addr in Copies table line (forwards t.1 t.0 line)
  unfolding target forwards
  target-Copies table line msg drop addr decoded at = record { routed = tt; twice = omega arith }
  target-Copies table line msg forward none decoded at = record { routed = tt; twice = omega arith }
  target-Copies table line msg duplicate none decoded at = record {
    routed = tt;
    twice = omega arith;
  }
  target-Copies table line msg forward (some addr) decoded at =
      let r : IsRouted table line (addr, line) = record {
        same = refl;
        msg = msg;
        decoded = decoded;
        at = at;
      } in
      record { routed = (r, tt); twice = omega arith }
  target-Copies table line msg duplicate (some addr) decoded at =
      let r : IsRouted table line (addr, line) = record {
        same = refl;
        msg = msg;
        decoded = decoded;
        at = at;
      } in
      record { routed = (r, (r, tt)); twice = omega arith }

  module _ {R : Type 0} (filtering : Filter V R) where
    resolved-Copies :
        (line : Line) (msg : Message V) (r : Relay R) (c : Checked R)
        → unmarshal line ≡ some msg
        → let t = resolved filtering msg r c in
          Copies r.routing_table line (forwards t.action t.addr line)
          × (t.relay.routing_table ≡ r.routing_table)
    unfolding resolved
    resolved-Copies line msg r c decoded =
        (target-Copies r.routing_table line msg c.action _ decoded refl, refl)

    abbrev Relayed : Line → Relay R → Relay R × List (String × Line) → Type 0
    Relayed line r b = Copies r.routing_table line b.1 × (b.0.routing_table ≡ r.routing_table)

    on_line-Copies :
        (m : Option (Message V)) (line : Line) (r : Relay R) (b : Relay R × List (String × Line))
        → unmarshal line ≡ m
        → on_line filtering unmarshal m line r ≡ ok b
        → Copies r.routing_table line b.1 × (b.0.routing_table ≡ r.routing_table)
    unfolding on_line resolve_target
    on_line-Copies none line r b decoded h =
        subst (Relayed line r) (ok-injective h) (record { routed = tt; twice = omega arith }, refl)
    on_line-Copies (some msg) line r b decoded h =
        let (t, e, end) = >>=-eq-ok (resolve_target filtering msg r) _ h in
        let (c, _, end') = >>=-eq-ok (check_filters filtering msg forward r.filters) _ e in
        subst (Relayed line r)
          (ap (λ (t' : Resolved R). (t'.relay, forwards t'.action t'.addr line)) (ok-injective end')
            ∙ ok-injective end)
          (resolved-Copies line msg r c decoded)

    -- Whatever its filters are, a relay that does not panic forwards a line at most twice, unchanged, to the
    -- address that its routing table has for the receiver of the message in it, and keeps that table.
    pub handle_line-Copies :
        (line : Line) (r : Relay R) (b : Relay R × List (String × Line))
        → handle_line filtering unmarshal line r ≡ ok b
        → Copies r.routing_table line b.1 × (b.0.routing_table ≡ r.routing_table)
    unfolding handle_line
    handle_line-Copies line r b h = on_line-Copies (unmarshal line) line r b refl h
