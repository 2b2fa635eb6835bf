-- ===== src/Cluster/Network.antt =====
-- The processes of mini-raft/raft-rust/src/main.rs with the relay of mini-raft/pkg/relay/relay.go: what a
-- process sends is a line to the relay, and what the relay forwards is a line to a process.
pub mod Arrivals
pub mod Refines
use mathlib.Core.List.{Memᴰ}
use distributed_sys_lab.Prelude.{
  ◌≡◌, true, none, some, String, Option, List, ok, ◌++◌, ◌∷◌, contains, Table, lookup,
}
use distributed_sys_lab.Protocol.{Message}
use distributed_sys_lab.Engine.{Platform, Process}
use distributed_sys_lab.Engine.Payloads.{IsWritten}
use distributed_sys_lab.Engine.Dispatch
use distributed_sys_lab.Engine.Ticks.{tick}
use distributed_sys_lab.Relay
use distributed_sys_lab.Relay.{Filter, add_filter, clear_filters}
use distributed_sys_lab.Cluster.System.{Cluster, Others}

-- The two codecs for lines: `serde_json` in a process, and `encoding/json` in the relay.
pub record Wire (p : Platform) : Type 1 where
  pub Line : Type 0
  pub Bytes : Type 0
  pub encode : Message p.Value → Line
  pub decode : Line → Option (Message p.Value)
  pub unmarshal : Line → Option (Message Bytes)

-- What the codecs are relied on for, of lines that a process writes only, whose payloads are the program's
-- arguments and replies: a process reads back what another wrote, and the relay finds in the line the
-- receiver that was written, where it reads the line at all.
pub record IsFaithful {p : Platform} (wire : Wire p) : Type 0 where
  pub reads_back : (m : Message p.Value) → IsWritten p m → wire.decode (wire.encode m) ≡ some m
  pub same_to :
      (m : Message p.Value) (m' : Message wire.Bytes)
      → IsWritten p m
      → wire.unmarshal (wire.encode m) ≡ some m'
      → m'.to ≡ m.to

-- The addresses of the members, and a table that gives a member's address for no other name.
pub record IsAddressed (ids : List String) (addr : String → String) (table : Table String)
    : Type 0 where
  pub only :
      (name i : String) → contains ids i ≡ true → lookup name table ≡ some (addr i) → name ≡ i

module _ (p : Platform) (wire : Wire p) (ids : List String) (addr : String → String) {R : Type 0}
    (filtering : Filter wire.Bytes R) where
  -- The processes, the relay, and the lines that it has begun to forward.
  pub record Network : Type 0 where
    pub cluster : Cluster p
    pub relay : Relay.Relay R
    pub in_flight : List (String × wire.Line)

  -- A line that reaches the relay: a member has sent it, or it is no message or a request of a client.
  pub data Offered (c : Cluster p) (line : wire.Line) : Type 0 where
    sent :
        (j : String) (m : Message p.Value)
        → contains ids j ≡ true
        → Memᴰ m (c j).sent
        → line ≡ wire.encode m
        → Offered c line
    garbage : wire.decode line ≡ none → Offered c line
    client :
        (m : Message p.Value)
        → wire.decode line ≡ some m
        → m.message_type ≡ "ClientRequest"
        → Offered c line

  -- Between two networks only what the constructor names differs.
  pub data Move (a b : Network) : Type 0 where
    ticks :
        (i : String)
        → contains ids i ≡ true
        → tick p (a.cluster i) ≡ ok (b.cluster i)
        → Others p ids a.cluster b.cluster i
        → b.relay ≡ a.relay
        → b.in_flight ≡ a.in_flight
        → Move a b
    relays :
        (line : wire.Line) (copies : List (String × wire.Line))
        → Offered a.cluster line
        → Relay.handle_line filtering wire.unmarshal line a.relay ≡ ok (b.relay, copies)
        → b.in_flight ≡ a.in_flight ++ copies
        → b.cluster ≡ a.cluster
        → Move a b
    delivers :
        (i : String) (line : wire.Line) (before after : List (String × wire.Line))
        → contains ids i ≡ true
        → a.in_flight ≡ before ++ (addr i, line) ∷ after
        → b.in_flight ≡ before ++ after
        → Dispatch.handle_line p (wire.decode line) (a.cluster i) ≡ ok (b.cluster i)
        → Others p ids a.cluster b.cluster i
        → b.relay ≡ a.relay
        → Move a b
    loses :
        (copy : String × wire.Line) (before after : List (String × wire.Line))
        → a.in_flight ≡ before ++ copy ∷ after
        → b.in_flight ≡ before ++ after
        → b.cluster ≡ a.cluster
        → b.relay ≡ a.relay
        → Move a b
    adds :
        (filter : R)
        → b.relay ≡ add_filter filter a.relay
        → b.in_flight ≡ a.in_flight
        → b.cluster ≡ a.cluster
        → Move a b
    clears :
        b.relay ≡ clear_filters a.relay
        → b.in_flight ≡ a.in_flight
        → b.cluster ≡ a.cluster
        → Move a b

  pub data Moves : Network → Network → Type 0 where
    done : (a : Network) → Moves a a
    move : {a b c : Network} → Move a b → Moves b c → Moves a c
