-- ===== src/Tests/Network.antt =====
-- Three processes behind a relay that doubles every message.
use mathlib.Core.Path.{subst}
use mathlib.Core.Option.{some-injective, none-ne-some}
use mathlib.Core.Bool.{false≢true}
use distributed_sys_lab.Prelude.{
  ◌≡◌, ◌∙◌, sym, ap, refl, true, some, inl, inr, String, List, [], ◌∷◌, ok, arith, contains, lookup,
  str_eq, eq_iff, Bool-cases, if◌then◌else◌, Table,
}
use distributed_sys_lab.Protocol.{Message}
use distributed_sys_lab.Relay
use distributed_sys_lab.Relay.{
  Relay, handle_line, new_relay, register_node, add_filter, check_filters, resolved, target,
  forwards, on_line, resolve_target,
}
use distributed_sys_lab.Relay.Rules.{Rule, new_duplicate_rule, should, rules}
use distributed_sys_lab.Cluster.System.{Cluster, Steps}
use distributed_sys_lab.Cluster.Network.{
  Wire, IsFaithful, IsAddressed, Network, Moves, ticks, relays, delivers, move, done, sent,
}
use distributed_sys_lab.Cluster.Network.Arrivals.{Started-Writes}
use distributed_sys_lab.Cluster.Network.Refines.{Moves-Steps, Moves-leader}
use distributed_sys_lab.Tests.Data.{from_ok}
use distributed_sys_lab.Tests.Relays.{counter}
use distributed_sys_lab.Tests.Campaign.{
  platform, platform_reads, ids, peers, at_start, put-Others, a_stands, standing, request, b_votes,
  voted, reply, a_leads, elected, c_waits, later, member_a, member_b, member_c, a_stood,
  request_among, b_heard, reply_among, a_heard, c_waited, leads, still_leads, fresh,
}

-- Lines that both codecs read.
abbrev lines : Wire platform
lines = record {
  Line = Message platform.Value;
  Bytes = platform.Value;
  encode = λ m. m;
  decode = λ m. some m;
  unmarshal = λ m. some m;
}

lines-IsFaithful : IsFaithful lines
lines-IsFaithful = record {
  reads_back = λ m _. refl;
  same_to = λ m m' _ e. ap (λ (x : Message platform.Value). x.to) (sym (some-injective m m' e));
}

abbrev addr : String → String
addr i =
    if str_eq i "A"
    then "127.0.0.1:9001"
    else if str_eq i "B"
    then "127.0.0.1:9002"
    else "127.0.0.1:9003"

abbrev table : Table String
table = ("A", "127.0.0.1:9001") ∷ ("B", "127.0.0.1:9002") ∷ ("C", "127.0.0.1:9003") ∷ []

-- Whose an address is.
abbrev owner : String → String
owner a = if str_eq a "127.0.0.1:9001" then "A" else if str_eq a "127.0.0.1:9002" then "B" else "C"

owner-addr : (i : String) → contains ids i ≡ true → owner (addr i) ≡ i
unfolding contains
owner-addr i member = elim (Bool-cases (str_eq "A" i)) [
  | inl a ↦ subst (λ k. owner (addr k) ≡ k) ((eq_iff "A" i).0 a) refl
  | inr not_a ↦ elim (Bool-cases (str_eq "B" i)) [
    | inl b ↦ subst (λ k. owner (addr k) ≡ k) ((eq_iff "B" i).0 b) refl
    | inr not_b ↦ elim (Bool-cases (str_eq "C" i)) [
      | inl c ↦ subst (λ k. owner (addr k) ≡ k) ((eq_iff "C" i).0 c) refl
      | inr not_c ↦ absurd (false≢true (rw (not_a, not_b, not_c) at member))
    ]
  ]
]

lookup-owner : (name a : String) → lookup name table ≡ some a → owner a ≡ name
unfolding lookup
lookup-owner name a at = elim (Bool-cases (str_eq "A" name)) [
  | inl is_a ↦
      subst (λ k. owner k ≡ name) (some-injective _ _ (rw is_a at at)) ((eq_iff "A" name).0 is_a)
  | inr not_a ↦ elim (Bool-cases (str_eq "B" name)) [
    | inl is_b ↦
        subst (λ k. owner k ≡ name) (some-injective _ _ (rw (not_a, is_b) at at))
          ((eq_iff "B" name).0 is_b)
    | inr not_b ↦ elim (Bool-cases (str_eq "C" name)) [
      | inl is_c ↦
          subst (λ k. owner k ≡ name) (some-injective _ _ (rw (not_a, not_b, is_c) at at))
            ((eq_iff "C" name).0 is_c)
      | inr not_c ↦ absurd (none-ne-some a (rw (not_a, not_b, not_c) at at))
    ]
  ]
]

table-IsAddressed : IsAddressed ids addr table
table-IsAddressed = record {
  only = λ name i member at. sym (lookup-owner name (addr i) at) ∙ owner-addr i member;
}

abbrev Net : Type 0
Net = Network platform lines ids addr (rules counter)

abbrev Carried : Type 0
Carried = List (String × Message platform.Value)

abbrev at : Cluster platform → Relay (Rule counter) → Carried → Net
at c r copies = record { cluster = c; relay = r; in_flight = copies }

abbrev doubling : Relay (Rule counter)
doubling = record { routing_table = table; filters = new_duplicate_rule counter 9 ∷ [] }

abbrev relayed : Message platform.Value → Relay (Rule counter) → Relay (Rule counter) × Carried
relayed m r = from_ok (r, []) (Relay.handle_line (rules counter) lines.unmarshal m r)

abbrev asking : Relay (Rule counter)
asking = (relayed request doubling).0

abbrev answering : Relay (Rule counter)
answering = (relayed reply asking).0

-- A line to an address.
abbrev to_a : String × Message platform.Value
to_a = ("127.0.0.1:9001", reply)

abbrev to_b : String × Message platform.Value
to_b = ("127.0.0.1:9002", request)

asked :
    Relay.handle_line (rules counter) lines.unmarshal request doubling
    ≡ ok (asking, to_b ∷ to_b ∷ [])
unfolding handle_line on_line resolve_target check_filters resolved target forwards should lookup
asked = refl

answered :
    Relay.handle_line (rules counter) lines.unmarshal reply asking
    ≡ ok (answering, to_a ∷ to_a ∷ [])
unfolding handle_line on_line resolve_target check_filters resolved target forwards should lookup
answered = refl

-- A stands; its request is doubled and B gets it once; the reply is doubled and A gets it once.
campaign :
    Moves platform lines ids addr
      (rules counter)
      (at at_start doubling [])
      (at elected answering (to_b ∷ to_a ∷ []))
campaign = move (ticks "A" member_a a_stood (put-Others at_start "A" a_stands) refl refl) (
    move
      (relays request (to_b ∷ to_b ∷ []) (sent "A" request member_a request_among refl) asked refl
        refl)
      (move
        (delivers "B" request [] (to_b ∷ []) member_b refl refl b_heard
          (put-Others standing "B" b_votes) refl)
        (move
          (relays reply (to_a ∷ to_a ∷ []) (sent "B" reply member_b reply_among refl) answered refl
            refl)
          (move
            (delivers "A" reply (to_b ∷ []) (to_a ∷ []) member_a refl refl a_heard
              (put-Others voted "A" a_leads) refl)
            (done _)))))

Moves-Steps_example : Steps platform ids at_start elected
Moves-Steps_example =
    Moves-Steps platform lines lines-IsFaithful ids addr (rules counter) (at at_start doubling [])
      (at elected answering (to_b ∷ to_a ∷ [])) refl table-IsAddressed
      (Started-Writes platform ids at_start peers (λ i. 0) fresh) campaign

Moves-leader_example : ◌≡◌ {A = String} "A" "A"
Moves-leader_example =
    Moves-leader platform lines lines-IsFaithful ids addr (rules counter) platform_reads
      (omega arith) (at at_start doubling []) (at elected answering (to_b ∷ to_a ∷ []))
      (at later answering (to_b ∷ to_a ∷ [])) peers (λ i. 0) "A" "A" refl table-IsAddressed fresh
      campaign
      (move (ticks "C" member_c c_waited (put-Others elected "C" c_waits) refl refl) (done _))
      member_a member_a leads still_leads refl
