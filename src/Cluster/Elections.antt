-- ===== src/Cluster/Elections.antt =====
-- Leaders of the cluster (mini-raft/raft-rust/src/main.rs over node.rs).
use mathlib.Core.Path.{subst}
use mathlib.Core.List.{Memᴰ}
use mathlib.Core.Option.{some-injective}
use distributed_sys_lab.Prelude.{
  ℕ, ◌+◌, ◌<◌, ◌≡◌, refl, sym, true, none, some, String, Option, List, [], arith, length, contains,
  common_member,
}
use distributed_sys_lab.Protocol.{Message, RequestVoteArgs, RequestVoteReply}
use distributed_sys_lab.Node
use distributed_sys_lab.Node.{RaftNode}
use distributed_sys_lab.Node.Election.{Role, role}
use distributed_sys_lab.Engine.{Platform, Process, new, start}
use distributed_sys_lab.Cluster.Claims.{Claims, granted, own}
use distributed_sys_lab.Cluster.Says.{Vouches}
use distributed_sys_lab.Cluster.Moves.{Moves, LineAsks, tick-Moves, handle_line-Moves}
use distributed_sys_lab.Cluster.Honesty.{Honest, Moves-Honest}
use distributed_sys_lab.Cluster.System.{
  Cluster, Posted, garbage, routed, client, Others, Step, ticks, receives, Steps, done, step,
  Started, each_process,
}
use distributed_sys_lab.Cluster.Support.{
  Elected, Supported, Grows, Says-Grows, Elected-Grows, Supported-Grows, Heard, Change-Supported,
}

-- What the codec is relied on for: it reads back the messages about votes that it wrote.
pub record ReadsVotes (p : Platform) : Type 0 where
  pub request :
      (x : RequestVoteArgs) → p.request_vote.from_value (p.request_vote.to_value x) ≡ some x
  pub reply : (x : RequestVoteReply) → p.vote_reply.from_value (p.vote_reply.to_value x) ≡ some x

module _ (p : Platform) (reads : ReadsVotes p) (ids : List String) (large : 1 < length ids) where
  -- Every member is honest, and supported in its role.
  pub record IsSound (c : Cluster p) : Type 0 where
    pub honest :
        (i : String) → contains ids i ≡ true → Honest p i (length ids) (c i).node (c i).sent
    pub supported :
        (i : String)
        → contains ids i ≡ true
        → Supported p ids c i (role (c i).node.state) (c i).node.current_term

  not_client :
      (m : Message p.Value) (c : String) (term : ℕ)
      → m.message_type ≡ "ClientRequest"
      → Claims p m c term
      → ⊥
  not_client m c term e (granted _ e' _ _ _ _) = cc (e, e')
  not_client m c term e (own _ e' _ _ _) = cc (e, e')

  Posted-Heard :
      (c : Cluster p) (i : String) (line : Option (Message p.Value))
      → IsSound c
      → Posted p ids c i line
      → Heard p ids c i line
  Posted-Heard c i none s garbage m term e claim = cc e
  Posted-Heard c i (some x) s (routed j _ member among to) m term e claim =
      let from = sym ((s.honest j member).signed x among).0 in
      subst (λ z. (z.to ≡ i) × (contains ids z.from ≡ true) × Memᴰ z (c z.from).sent)
        (some-injective x m e)
        (
          to,
          subst (λ k. contains ids k ≡ true) from member,
          subst (λ k. Memᴰ x (c k).sent) from among,
        )
  Posted-Heard c i (some x) s (client _ type) m term e claim = absurd (
      not_client m m.to term
        (subst (λ z. z.message_type ≡ "ClientRequest") (some-injective x m e) type) claim)

  Posted-LineAsks :
      (c : Cluster p) (i : String) (line : Option (Message p.Value))
      → IsSound c
      → Posted p ids c i line
      → LineAsks p line
  Posted-LineAsks c i none s garbage = tt
  Posted-LineAsks c i (some m) s (routed j _ member among to) =
      ((s.honest j member).signed m among).1
  Posted-LineAsks c i (some m) s (client _ type) = λ args e _. absurd (not_request type e)
    where
      not_request : m.message_type ≡ "ClientRequest" → m.message_type ≡ "RequestVote" → ⊥
      not_request e e' = cc (e, e')

  -- A turn of one member keeps the cluster sound, and what it has claimed is still there.
  module _ (c c' : Cluster p) (i : String) (line : Option (Message p.Value))
      (member : contains ids i ≡ true) (others : Others p ids c c' i) (s : IsSound c)
      (heard : Heard p ids c i line) (m : Moves p line (c i) (c' i).node (c' i).sent) where
    grows : Grows p ids c c'
    grows = Says-Grows p ids _ c c' i m.says others

    actor-Honest : Honest p i (length ids) (c' i).node (c' i).sent
    actor-Honest = Moves-Honest p i (length ids) (s.honest i member) m

    actor-Supported : Supported p ids c' i (role (c' i).node.state) (c' i).node.current_term
    actor-Supported =
        let h = s.honest i member in
        Change-Supported p ids c c' i line (c' i).node member large h.id h.peers heard grows
          (s.supported i member) m.change

    turn-IsSound : IsSound c'
    turn-IsSound = record {
      honest =
          each_process p ids (λ j w. contains ids j ≡ true → Honest p j (length ids) w.node w.sent)
            c c' i others (λ _. actor-Honest) (λ j _. s.honest j);
      supported =
          each_process p ids
            (λ j w.
              contains ids j ≡ true → Supported p ids c' j (role w.node.state) w.node.current_term)
            c c' i others (λ _. actor-Supported)
            (λ j _ in_ids. Supported-Grows p ids c c' j _ _ grows (s.supported j in_ids));
    }

  -- A step is a turn of one member, on a line that can reach it or on none.
  pub record Turn (c c' : Cluster p) : Type 0 where
    pub actor : String
    pub line : Option (Message p.Value)
    pub member : contains ids actor ≡ true
    pub posted : (m : Message p.Value) → line ≡ some m → Posted p ids c actor (some m)
    pub others : Others p ids c c' actor
    pub moves : Moves p line (c actor) (c' actor).node (c' actor).sent

  pub Step-Turn : (c c' : Cluster p) → IsSound c → Step p ids c c' → Turn c c'
  Step-Turn c c' s (ticks i member t others) = record {
    actor = i;
    line = none;
    member = member;
    posted = λ m e. cc e;
    others = others;
    moves = tick-Moves p reads.request (c i) (c' i) t;
  }
  Step-Turn c c' s (receives i line member posted h others) = record {
    actor = i;
    line = line;
    member = member;
    posted = λ m e. subst (Posted p ids c i) e posted;
    others = others;
    moves = handle_line-Moves p reads.reply line (c i) (c' i) (Posted-LineAsks c i line s posted) h;
  }

  pub Turn-IsSound : (c c' : Cluster p) → Turn c c' → IsSound c → IsSound c' × Grows p ids c c'
  Turn-IsSound c c' t s =
      let heard : Heard p ids c t.actor t.line =
        λ m term e claim. Posted-Heard c t.actor (some m) s (t.posted m e) m term refl claim in
      (
        turn-IsSound c c' t.actor t.line t.member t.others s heard t.moves,
        grows c c' t.actor t.line t.member t.others s heard t.moves,
      )

  Step-IsSound : (c c' : Cluster p) → Step p ids c c' → IsSound c → IsSound c' × Grows p ids c c'
  Step-IsSound c c' first s = Turn-IsSound c c' (Step-Turn c c' s first) s

  Steps-IsSound : (c c' : Cluster p) → Steps p ids c c' → IsSound c → IsSound c' × Grows p ids c c'
  Steps-IsSound c c' (done _) s = (s, λ v i term k. k)
  Steps-IsSound c c' (step {b = b} first rest) s =
      let (s1, g) = Step-IsSound c b first s in
      let (s2, g') = Steps-IsSound b c' rest s1 in (s2, λ v i term k. g' v i term (g v i term k))

  nothing_vouched : (c : String) (term : ℕ) → Vouches p [] c term → ⊥
  nothing_vouched c term v = elim v.among [ ]

  start-Honest :
      (i : String) (peers : List String) (g : p.Rng)
      → length peers + 1 ≡ length ids
      → let w = start p i peers g in Honest p i (length ids) w.node w.sent
  unfolding start new Node.new
  start-Honest i peers g size = record {
    id = refl;
    peers = size;
    signed = λ m among. elim among [ ];
    bound = λ c term v. absurd (nothing_vouched c term v);
    unique = λ c c' term v _. absurd (nothing_vouched c term v);
  }

  start-Supported :
      (c : Cluster p) (i : String) (peers : List String) (g : p.Rng)
      → let w = start p i peers g in Supported p ids c i (role w.node.state) w.node.current_term
  unfolding start new Node.new
  start-Supported c i peers g = tt

  pub Started-IsSound :
      (c : Cluster p) (peers : String → List String) (g : String → p.Rng)
      → Started p ids c peers g
      → IsSound c
  Started-IsSound c peers g s = record {
    honest = λ i member.
        subst (λ (w : Process p). Honest p i (length ids) w.node w.sent) (sym (s.fresh i member))
          (start-Honest i (peers i) (g i) (s.others i member));
    supported = λ i member.
        subst (λ (w : Process p). Supported p ids c i (role w.node.state) w.node.current_term)
          (sym (s.fresh i member)) (start-Supported c i (peers i) (g i));
  }

  pub Elected-unique :
      (c : Cluster p) (i j : String) (term : ℕ)
      → IsSound c
      → Elected p ids c i term
      → Elected p ids c j term
      → i ≡ j
  Elected-unique c i j term s e f =
      let (v, in_e, in_f) =
        common_member e.votes f.votes ids e.backed.distinct f.backed.distinct
          (λ a h. (e.backed.claimed a h).0) (λ a h. (f.backed.claimed a h).0)
          (omega (arith, e.majority, f.majority)) in
      let (member, for_i) = e.backed.claimed v in_e in
      let (_, for_j) = f.backed.claimed v in_f in (s.honest v member).unique i j term for_i for_j

  pub leader-Elected :
      (c : Cluster p) (i : String)
      → IsSound c
      → contains ids i ≡ true
      → role (c i).node.state ≡ Role.leader
      → Elected p ids c i (c i).node.current_term
  leader-Elected c i s member leads =
      subst (λ r. Supported p ids c i r (c i).node.current_term) leads (s.supported i member)

  -- A cluster of at least two members starts, and runs behind a relay that loses, repeats, delays and
  -- reorders messages, among any requests of clients. Where one member leads in a term, no other member
  -- leads in that term, neither then nor at any later time. The codec reads back the messages about votes
  -- that it wrote.
  pub Steps-leader :
      (a c c' : Cluster p) (peers : String → List String) (g : String → p.Rng) (i j : String)
      → Started p ids a peers g
      → Steps p ids a c
      → Steps p ids c c'
      → contains ids i ≡ true
      → contains ids j ≡ true
      → role (c i).node.state ≡ Role.leader
      → role (c' j).node.state ≡ Role.leader
      → (c i).node.current_term ≡ (c' j).node.current_term
      → i ≡ j
  Steps-leader a c c' peers g i j started before later i_member j_member i_leads j_leads same =
      let (s, _) = Steps-IsSound a c before (Started-IsSound a peers g started) in
      let (s', grown) = Steps-IsSound c c' later s in
      let term = (c' j).node.current_term in
      let first : Elected p ids c i term =
        subst (Elected p ids c i) same (leader-Elected c i s i_member i_leads) in
      Elected-unique c' i j term s' (Elected-Grows p ids c c' i term grown first)
        (leader-Elected c' j s' j_member j_leads)
