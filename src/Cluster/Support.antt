-- ===== src/Cluster/Support.antt =====
-- Behind each candidate and each leader of a cluster stand the votes that it counts.
use mathlib.Core.Path.{subst}
use mathlib.Core.List.{Memᴰ}
use mathlib.Core.List.Memᴰ
use distributed_sys_lab.Prelude.{
  ℕ, ◌+◌, ◌<◌, ◌≡◌, ◌≢◌, ◌∙◌, inl, inr, refl, sym, ap, true, some, String, Option, List, [], ◌∷◌,
  arith, length, contains, add, Distinct, contains-add, add-Distinct, str_eq, eq_iff, Bool-cases,
}
use distributed_sys_lab.Protocol.{Message}
use distributed_sys_lab.Node.{RaftNode}
use distributed_sys_lab.Node.Election.{Role, role}
use distributed_sys_lab.Engine.{Platform}
use distributed_sys_lab.Cluster.Claims.{Causes, Claims}
use distributed_sys_lab.Cluster.Says.{Says, Vouches}
use distributed_sys_lab.Cluster.Moves.{Change, quiet, stands, counts}
use distributed_sys_lab.Cluster.System.{Cluster, Others, each_process}

module _ (p : Platform) (ids : List String) where
  -- Every vote in the set is of a member, which claims it.
  pub record Backed (c : Cluster p) (i : String) (term : ℕ) (votes : List String) : Type 0 where
    pub distinct : Distinct votes
    pub claimed :
        (v : String)
        → contains votes v ≡ true
        → (contains ids v ≡ true) × Vouches p (c v).sent i term

  -- More than half of the members claim to have voted for the node.
  pub record Elected (c : Cluster p) (i : String) (term : ℕ) : Type 0 where
    pub votes : List String
    pub backed : Backed c i term votes
    pub majority : length ids < length votes + length votes

  abbrev pub Supported : Cluster p → String → Role → ℕ → Type 0
  Supported c i Role.follower term = Unit {0}
  Supported c i (Role.candidate votes) term = Backed c i term votes
  Supported c i Role.leader term = Elected c i term

  -- What a member has claimed, it has claimed for ever.
  abbrev pub Grows : Cluster p → Cluster p → Type 0
  Grows c c' =
      (v i : String) (term : ℕ) → Vouches p (c v).sent i term → Vouches p (c' v).sent i term

  pub Says-Grows :
      (k : Causes) (c c' : Cluster p) (i : String)
      → Says p k (c' i).node (c i).sent (c' i).sent
      → Others p ids c c' i
      → Grows c c'
  Says-Grows k c c' i says others v x term vouched =
      each_process p ids (λ j w. Vouches p (c j).sent x term → Vouches p w.sent x term) c c' i
        others later (λ j _ k'. k') v vouched
    where
      later : Vouches p (c i).sent x term → Vouches p (c' i).sent x term
      later k' = record {
        message = k'.message;
        among = subst (Memᴰ k'.message) (sym says.sent) (Memᴰ.append_left says.more k'.among);
        claim = k'.claim;
      }

  pub Backed-Grows :
      (c c' : Cluster p) (i : String) (term : ℕ) (votes : List String)
      → Grows c c'
      → Backed c i term votes
      → Backed c' i term votes
  Backed-Grows c c' i term votes g b = record {
    distinct = b.distinct;
    claimed = λ v h. let (member, k) = b.claimed v h in (member, g v i term k);
  }

  pub Elected-Grows :
      (c c' : Cluster p) (i : String) (term : ℕ) → Grows c c' → Elected c i term → Elected c' i term
  Elected-Grows c c' i term g e = record {
    votes = e.votes;
    backed = Backed-Grows c c' i term e.votes g e.backed;
    majority = e.majority;
  }

  pub Supported-Grows :
      (c c' : Cluster p) (i : String) (r : Role) (term : ℕ)
      → Grows c c'
      → Supported c i r term
      → Supported c' i r term
  Supported-Grows c c' i Role.follower term g s = tt
  Supported-Grows c c' i (Role.candidate votes) term g s = Backed-Grows c c' i term votes g s
  Supported-Grows c c' i Role.leader term g s = Elected-Grows c c' i term g s

  -- A node that stands has its own vote.
  Backed-own :
      (c : Cluster p) (i : String) (term : ℕ)
      → contains ids i ≡ true
      → Vouches p (c i).sent i term
      → Backed c i term (i ∷ [])
  unfolding contains
  Backed-own c i term member k = record {
    distinct = (refl, tt);
    claimed = λ v h.
        let e : i ≡ v = ground (arith, h, eq_iff i v) in
        (subst (λ x. contains ids x ≡ true) e member, subst (λ x. Vouches p (c x).sent i term) e k);
  }

  -- A vote joins those counted before.
  pub Backed-add :
      (c : Cluster p) (i from : String) (term : ℕ) (votes : List String)
      → Backed c i term votes
      → contains ids from ≡ true
      → Vouches p (c from).sent i term
      → Backed c i term (add from votes)
  Backed-add c i from term votes b member k = record {
    distinct = add-Distinct from votes b.distinct;
    claimed = λ v h. elim (Bool-cases (str_eq from v)) [
      | inl same ↦
          let e = (eq_iff from v).0 same in
          (
            subst (λ x. contains ids x ≡ true) e member,
            subst (λ x. Vouches p (c x).sent i term) e k,
          )
      | inr differ ↦ b.claimed v (ground (arith, h, differ, contains-add from v votes))
    ];
  }

  -- What a member may count, it has heard from the member that claims it.
  abbrev pub Heard : Cluster p → String → Option (Message p.Value) → Type 0
  Heard c i line =
      (m : Message p.Value) (term : ℕ)
      → line ≡ some m
      → Claims p m m.to term
      → (m.to ≡ i) × (contains ids m.from ≡ true) × Memᴰ m (c m.from).sent

  -- A turn of a member keeps its own support.
  pub Change-Supported :
      (c c' : Cluster p) (i : String) (line : Option (Message p.Value)) (n' : RaftNode)
      → let n = (c i).node in
        contains ids i ≡ true
        → 1 < length ids
        → n.id ≡ i
        → length n.peers + 1 ≡ length ids
        → Heard c i line
        → Grows c c'
        → Supported c i (role n.state) n.current_term
        → Change p line n n' (c' i).sent
        → Supported c' i (role n'.state) n'.current_term
  Change-Supported c c' i line n' member large id size heard g s (quiet q) = elim q.stays [
    | inl follows ↦ subst (λ r. Supported c' i r n'.current_term) (sym follows) tt
    | inr (term, same) ↦
        let n = (c i).node in
        subst (λ r. Supported c' i r n'.current_term) (sym same)
          (subst (Supported c' i (role n.state)) (sym term)
            (Supported-Grows c c' i (role n.state) n.current_term g s))
  ]
  Change-Supported c c' i line n' member large id size heard g s (stands st own) =
      let some_peer : n'.peers ≢ [] = λ none_left.
        absurd
          (omega (arith, size, ap (λ (xs : List String). length xs) (sym st.peers ∙ none_left))) in
      let k = subst (λ x. Vouches p (c' i).sent x n'.current_term) (st.id ∙ id) (own some_peer) in
      subst (λ r. Supported c' i r n'.current_term)
        (sym (st.stands ∙ ap (λ (x : String). Role.candidate (x ∷ [])) id))
        (Backed-own c' i n'.current_term member k)
  Change-Supported c c' i line n' member large id size heard g s (counts m e claim cnt) =
      let n = (c i).node in
      let term = n.current_term in
      let (to, from_member, among) = heard m term e claim in
      let before : Backed c i term cnt.votes = subst (λ r. Supported c i r term) cnt.was s in
      let k : Vouches p (c m.from).sent i term = record {
        message = m;
        among = among;
        claim = subst (λ x. Claims p m x term) to claim;
      } in
      let counted =
        Backed-add c' i m.from term cnt.votes (Backed-Grows c c' i term cnt.votes g before)
          from_member (g m.from i term k) in
      let now : Backed c' i n'.current_term (add m.from cnt.votes) =
        subst (λ t. Backed c' i t (add m.from cnt.votes)) (sym cnt.same.term) counted in
      elim cnt.becomes [
        | inl (waits, _) ↦ subst (λ r. Supported c' i r n'.current_term) (sym waits) now
        | inr (leads, big) ↦
            subst (λ r. Supported c' i r n'.current_term) (sym leads)
              (record {
                votes = add m.from cnt.votes;
                backed = now;
                majority = omega (arith, size, big);
              })
      ]
