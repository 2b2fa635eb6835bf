-- ===== src/Cluster/Network/Refines.antt =====
-- The network with the relay (mini-raft/pkg/relay/relay.go), seen as a cluster.
use mathlib.Core.Path.{subst}
use distributed_sys_lab.Prelude.{
  ◌≡◌, ◌∙◌, refl, sym, ap, true, some, String, List, [], ◌++◌, contains, Table, ◌<◌, length, All,
  All-imp, All-append, All-middle, All-Memᴰ,
}
use distributed_sys_lab.Protocol.{Message}
use distributed_sys_lab.Node.Election.{Role, role}
use distributed_sys_lab.Engine.{Platform}
use distributed_sys_lab.Engine.Payloads.{IsWritten}
use distributed_sys_lab.Relay.{Filter, Relay, add_filter, clear_filters}
use distributed_sys_lab.Relay.Routes.{IsRouted, handle_line-Copies}
use distributed_sys_lab.Cluster.System
use distributed_sys_lab.Cluster.System.{
  Cluster, Posted, routed, Others, Step, receives, Steps, done, step, Started,
}
use distributed_sys_lab.Cluster.Elections.{ReadsVotes, Steps-leader}
use distributed_sys_lab.Cluster.Network
use distributed_sys_lab.Cluster.Network.{
  Wire, IsFaithful, IsAddressed, Offered, sent, garbage, client, Move, ticks, relays, delivers,
  loses, adds, clears, Moves, move,
}
use distributed_sys_lab.Cluster.Network.Arrivals.{Posted-Step, Writes, Writes-Step, Started-Writes}

module _ (p : Platform) (wire : Wire p) (faithful : IsFaithful wire) (ids : List String)
    (addr : String → String) {R : Type 0} (filtering : Filter wire.Bytes R) where
  abbrev Net : Type 0
  Net = Network.Network p wire ids addr filtering

  -- Whoever listens at the address of the copy can be reached by its line.
  record CanReach (c : Cluster p) (copy : String × wire.Line) : Type 0 where
    pub posted :
        (i : String)
        → contains ids i ≡ true
        → copy.0 ≡ addr i
        → Posted p ids c i (wire.decode copy.1)

  record IsRelayed (n : Net) : Type 0 where
    pub carried : All (CanReach n.cluster) n.in_flight
    pub addressed : IsAddressed ids addr n.relay.routing_table
    pub written : Writes p ids n.cluster

  same_table :
      (r r' : Relay R)
      → r'.routing_table ≡ r.routing_table
      → IsAddressed ids addr r.routing_table
      → IsAddressed ids addr r'.routing_table
  same_table r r' e a = subst (IsAddressed ids addr) (sym e) a

  CanReach-Step :
      (c c' : Cluster p)
      → Step p ids c c'
      → (copy : String × wire.Line) → CanReach c copy
      → CanReach c' copy
  CanReach-Step c c' s copy r = record {
    posted = λ i member at. Posted-Step p ids c c' i (wire.decode copy.1) s (r.posted i member at);
  }

  -- The member that a line of the relay gets to can be reached by it.
  Offered-Posted :
      (c : Cluster p) (line : wire.Line) (msg : Message wire.Bytes) (i : String)
      → Writes p ids c
      → wire.unmarshal line ≡ some msg
      → msg.to ≡ i
      → Offered p wire ids addr filtering c line
      → Posted p ids c i (wire.decode line)
  Offered-Posted c line msg i written read to (garbage e) =
      subst (Posted p ids c i) (sym e) System.garbage
  Offered-Posted c line msg i written read to (client m e type) =
      subst (Posted p ids c i) (sym e) (System.client m type)
  Offered-Posted c line msg i written read to (sent j m member among e) =
      let wrote = All-Memᴰ (IsWritten p) (c j).sent (written j member) among in
      let receiver =
        faithful.same_to m msg wrote (subst (λ l. wire.unmarshal l ≡ some msg) e read) in
      subst (Posted p ids c i) (sym (ap wire.decode e ∙ faithful.reads_back m wrote))
        (routed j m member among (sym receiver ∙ to))

  IsRouted-CanReach :
      (c : Cluster p) (line : wire.Line) (table : Table String) (copy : String × wire.Line)
      → IsAddressed ids addr table
      → Writes p ids c
      → Offered p wire ids addr filtering c line
      → IsRouted wire.unmarshal table line copy
      → CanReach c copy
  IsRouted-CanReach c line table copy a written offered r = record {
    posted = λ i member at.
        subst (λ l. Posted p ids c i (wire.decode l)) (sym r.same)
          (Offered-Posted c line r.msg i written r.decoded
            (a.only r.msg.to i member (r.at ∙ ap some at)) offered);
  }

  -- No process has moved.
  rests :
      (a b : Net) (flight : List (String × wire.Line))
      → b.cluster ≡ a.cluster
      → b.in_flight ≡ flight
      → All (CanReach a.cluster) flight
      → IsAddressed ids addr b.relay.routing_table
      → Writes p ids a.cluster
      → Steps p ids a.cluster b.cluster × IsRelayed b
  rests a b flight cluster e carried addressed written = (
    subst (Steps p ids a.cluster) (sym cluster) (done a.cluster),
    record {
      carried =
          subst (λ c. All (CanReach c) b.in_flight) (sym cluster)
            (subst (All (CanReach a.cluster)) (sym e) carried);
      addressed = addressed;
      written = subst (Writes p ids) (sym cluster) written;
    },
  )

  -- A process has moved.
  moves :
      (a b : Net) (flight : List (String × wire.Line))
      → Step p ids a.cluster b.cluster
      → b.in_flight ≡ flight
      → All (CanReach a.cluster) flight
      → b.relay ≡ a.relay
      → IsAddressed ids addr a.relay.routing_table
      → Writes p ids a.cluster
      → Steps p ids a.cluster b.cluster × IsRelayed b
  moves a b flight s e carried relay addressed written = (
    step s (done b.cluster),
    record {
      carried = subst (All (CanReach b.cluster)) (sym e) (
          All-imp (CanReach a.cluster) (CanReach b.cluster) flight
            (CanReach-Step a.cluster b.cluster s) carried);
      addressed =
          same_table a.relay b.relay (ap (λ (x : Relay R). x.routing_table) relay) addressed;
      written = Writes-Step p ids a.cluster b.cluster s written;
    },
  )

  -- A move of the network is a step of the cluster, or none.
  Move-Steps :
      (a b : Net)
      → Move p wire ids addr filtering a b
      → IsRelayed a
      → Steps p ids a.cluster b.cluster × IsRelayed b
  unfolding add_filter clear_filters
  Move-Steps a b (ticks i member t others relay flight) r =
      moves a b a.in_flight (System.ticks i member t others) flight r.carried relay r.addressed
        r.written
  Move-Steps a b (relays line copies offered h flight cluster) r =
      let (copied, kept) =
        handle_line-Copies wire.unmarshal filtering line a.relay (b.relay, copies) h in
      let carried =
        All-imp (IsRouted wire.unmarshal a.relay.routing_table line) (CanReach a.cluster) copies
          (λ copy k.
            IsRouted-CanReach a.cluster line a.relay.routing_table copy r.addressed r.written
              offered k)
          copied.routed in
      rests a b (a.in_flight ++ copies) cluster flight
        (All-append (CanReach a.cluster) a.in_flight copies r.carried carried)
        (same_table a.relay b.relay kept r.addressed) r.written
  Move-Steps a b (delivers i line before after member flight flight' h others relay) r =
      let (at, rest) =
        All-middle (CanReach a.cluster) before (addr i, line) after
          (subst (All (CanReach a.cluster)) flight r.carried) in
      moves a b (before ++ after)
        (receives i (wire.decode line) member (at.posted i member refl) h others) flight' rest relay
        r.addressed r.written
  Move-Steps a b (loses copy before after flight flight' cluster relay) r =
      let (_, rest) =
        All-middle (CanReach a.cluster) before copy after
          (subst (All (CanReach a.cluster)) flight r.carried) in
      rests a b (before ++ after) cluster flight' rest
        (same_table a.relay b.relay (ap (λ (x : Relay R). x.routing_table) relay) r.addressed)
        r.written
  Move-Steps a b (adds filter relay flight cluster) r =
      rests a b a.in_flight cluster flight r.carried
        (same_table a.relay b.relay (ap (λ (x : Relay R). x.routing_table) relay) r.addressed)
        r.written
  Move-Steps a b (clears relay flight cluster) r =
      rests a b a.in_flight cluster flight r.carried
        (same_table a.relay b.relay (ap (λ (x : Relay R). x.routing_table) relay) r.addressed)
        r.written

  Steps-trans : {a b c : Cluster p} → Steps p ids a b → Steps p ids b c → Steps p ids a c
  Steps-trans (done _) t = t
  Steps-trans (step s rest) t = step s (Steps-trans rest t)

  Moves-IsRelayed :
      (a b : Net)
      → Moves p wire ids addr filtering a b
      → IsRelayed a
      → Steps p ids a.cluster b.cluster × IsRelayed b
  Moves-IsRelayed a b (Network.done _) r = (done a.cluster, r)
  Moves-IsRelayed a c (move {b = b} first rest) r =
      let (s, r') = Move-Steps a b first r in
      let (t, r'') = Moves-IsRelayed b c rest r' in (Steps-trans s t, r'')

  nothing_carried :
      (a : Net)
      → a.in_flight ≡ []
      → IsAddressed ids addr a.relay.routing_table
      → Writes p ids a.cluster
      → IsRelayed a
  nothing_carried a empty addressed written = record {
    carried = subst (All (CanReach a.cluster)) (sym empty) tt;
    addressed = addressed;
    written = written;
  }

  -- A network begins with nothing in flight, a routing table that gives no member's address for another
  -- name, and members all of whose messages so far carry arguments or replies of the program as payloads; of
  -- messages with such payloads, the codec of the processes reads back what it wrote, and the relay, where it
  -- reads the line, finds the receiver that was written. However the relay drops, doubles, delays and reorders lines, and whatever filters are added and
  -- cleared, the processes take only steps of the cluster.
  pub Moves-Steps :
      (a b : Net)
      → a.in_flight ≡ []
      → IsAddressed ids addr a.relay.routing_table
      → Writes p ids a.cluster
      → Moves p wire ids addr filtering a b
      → Steps p ids a.cluster b.cluster
  Moves-Steps a b empty addressed written run =
      (Moves-IsRelayed a b run (nothing_carried a empty addressed written)).0

  -- A network of at least two members, which have just started, begins with nothing in flight and a routing
  -- table that gives no member's address for another name; the codec of the processes reads back the
  -- messages with payloads of the program, and the payloads about votes, that it wrote, and the relay, where
  -- it reads such a line, finds the receiver that was written.
  -- Where one member leads in a term, no other member leads in that term, neither then nor later, however the
  -- relay drops, doubles, delays and reorders lines.
  pub Moves-leader :
      ReadsVotes p
      → 1 < length ids
      → (a b b' : Net) (peers : String → List String) (g : String → p.Rng) (i j : String)
      → a.in_flight ≡ []
      → IsAddressed ids addr a.relay.routing_table
      → Started p ids a.cluster peers g
      → Moves p wire ids addr filtering a b
      → Moves p wire ids addr filtering b b'
      → contains ids i ≡ true
      → contains ids j ≡ true
      → role (b.cluster i).node.state ≡ Role.leader
      → role (b'.cluster j).node.state ≡ Role.leader
      → (b.cluster i).node.current_term ≡ (b'.cluster j).node.current_term
      → i ≡ j
  Moves-leader reads large a b b' peers g i j empty addressed started before later =
      let written = Started-Writes p ids a.cluster peers g started in
      let (s, r) = Moves-IsRelayed a b before (nothing_carried a empty addressed written) in
      let (s', _) = Moves-IsRelayed b b' later r in
      Steps-leader p reads ids large a.cluster b.cluster b'.cluster peers g i j started s s'
