-- ===== src/Cluster/History/Bases.antt =====
-- Logs that continue the log of a bid (mini-raft/raft-rust/src/node.rs).
use mathlib.Core.Path.{subst}
use mathlib.Core.List.{Memᴰ}
use mathlib.Core.Option.{some-injective}
use distributed_sys_lab.Prelude.{
  ◌<◌, some, ◌≢◌, ==_iff, get_elem?-some, ℕ, suc, ◌≤◌, ◌≡◌, ◌∙◌, inl, inr, sym, ap, String, List,
  [], ◌∷◌, arith, length, get_elem?, ◌<+◌, get_elem?-append_left, get_elem?-push, get_elem?-lt,
  take_of_length-le, ltb, ltb→lt, Bool-cases,
}
use distributed_sys_lab.Protocol.{LogEntry}
use distributed_sys_lab.Node.{RaftNode}
use mathlib.Core.Bool.{false≢true}
use distributed_sys_lab.Node.Matching.{Lacks, Differs, take-get_elem?, take-append_left}
use distributed_sys_lab.Cluster.Logs.{Holds}
use distributed_sys_lab.Cluster.Logs.Terms.{push-Holds}
use distributed_sys_lab.Cluster.History.{Bid, Reign, Continues, Stems, Leading}

pub Continues-refl : (b : Bid) → Continues b b.log (length b.log)
Continues-refl b = record {
  within = omega arith;
  base = take_of_length-le (length b.log) b.log (omega arith);
  own = λ i y from upto _. absurd (omega arith);
}

-- A log that goes on past the position.
pub Continues-longer :
    (b : Bid) (l : List LogEntry) (e : LogEntry) (upto : ℕ)
    → upto ≤ length l
    → Continues b l upto
    → Continues b (l <+ e) upto
Continues-longer b l e upto h x = record {
  within = x.within;
  base = take-append_left (length b.log) l (e ∷ []) (omega (arith, x.within)) ∙ x.base;
  own = λ i y from below at.
      x.own i y from below (sym (get_elem?-append_left l (e ∷ []) i (omega arith)) ∙ at);
}

-- A log with one more entry of the bid's term.
pub Continues-push :
    (b : Bid) (l : List LogEntry) (e : LogEntry)
    → e.term ≡ b.term
    → Continues b l (length l)
    → Continues b (l <+ e) (suc (length l))
Continues-push b l e same x = record {
  within = omega (arith, x.within);
  base = take-append_left (length b.log) l (e ∷ []) x.within ∙ x.base;
  own = λ i y from below at. elim (Bool-cases (ltb i (length l))) [
    | inl inside ↦
        let lt = ltb→lt i (length l) inside in
        x.own i y from lt (sym (get_elem?-append_left l (e ∷ []) i lt) ∙ at)
    | inr past ↦
        let at_end : i ≡ length l = ground (arith, past) in
        let last : e ≡ y =
          some-injective e y
            (sym (get_elem?-push l e) ∙ ap (get_elem? (l <+ e)) (sym at_end) ∙ at) in
        sym (ap (λ (z : LogEntry). z.term) last) ∙ same
  ];
}

pub Stems-more :
    (reigns reigns' : List Reign) (l : List LogEntry) (k term : ℕ)
    → ((r : Reign) → Memᴰ r reigns → Memᴰ r reigns')
    → Stems reigns l k term
    → Stems reigns' l k term
Stems-more reigns reigns' l k term more s = record {
  reign = s.reign;
  among = more s.reign s.among;
  of_term = s.of_term;
  continues = s.continues;
}

-- The log of a leader with a new entry of its term.
pub push-Stems :
    (reigns : List Reign) (i : String) (n : RaftNode) (e : LogEntry) (k term : ℕ)
    → Leading reigns i n
    → e.term ≡ n.current_term
    → ((k term : ℕ) → Holds n.log k term → Stems reigns n.log k term)
    → Holds (n.log <+ e) k term
    → Stems reigns (n.log <+ e) k term
push-Stems reigns i n e k term lead same before h = elim (push-Holds n.log e k term h) [
  | inl old ↦
      let s = before k term old in
      record {
        reign = s.reign;
        among = s.among;
        of_term = s.of_term;
        continues =
            Continues-longer s.reign.bid n.log e (suc (suc k)) (get_elem?-lt n.log (suc k) old.at)
              s.continues;
      }
  | inr (last, of_term) ↦ record {
    reign = lead.reign;
    among = lead.among;
    of_term = lead.names.of_term ∙ sym same ∙ of_term;
    continues =
        subst (Continues lead.reign.bid (n.log <+ e)) (ap suc (sym last))
          (Continues-push lead.reign.bid n.log e (same ∙ sym lead.names.of_term) lead.continues);
  }
]

-- Up to the position, an entry of one log that goes on from the bid has the term of the other's.
same_terms :
    (b : Bid) (xs ys : List LogEntry) (m n i : ℕ) (x y : LogEntry)
    → Continues b xs m
    → Continues b ys n
    → i < m
    → i < n
    → get_elem? xs i ≡ some x
    → get_elem? ys i ≡ some y
    → x.term ≡ y.term
same_terms b xs ys m n i x y cx cy below_m below_n at_x at_y =
    elim (Bool-cases (ltb i (length b.log))) [
      | inl inside ↦
          let same =
            take-get_elem? xs ys (length b.log) i (cx.base ∙ sym cy.base) (ltb→lt _ _ inside) in
          ap (λ (e : LogEntry). e.term) (some-injective x y (sym at_x ∙ same ∙ at_y))
      | inr past ↦
          let from : length b.log ≤ i = ground (arith, past) in
          cx.own i x from below_m at_x ∙ sym (cy.own i y from below_n at_y)
    ]

Lacks-differ :
    (l : List LogEntry) (i : ℕ) (x e : LogEntry)
    → Lacks l i e
    → get_elem? l i ≡ some x
    → x.term ≢ e.term
Lacks-differ l i x e (inl none_there) at same = cc (none_there, at)
Lacks-differ l i x e (inr (z, there, differs)) at same =
    let one : z ≡ x = some-injective z x (sym there ∙ at) in
    false≢true (sym differs ∙ (==_iff z.term e.term).1 (ap (λ (y : LogEntry). y.term) one ∙ same))

-- Where a reign's log has an entry that another log from the same bid lacks, it has all entries of the reign
-- that the other has.
pub reign-Holds :
    (b : Bid) (old s : List LogEntry) (k : ℕ)
    → length b.log ≤ suc k
    → Continues b old (suc (suc k))
    → Holds old k b.term
    → Continues b s (length s)
    → Differs old s
    → Holds s k b.term
reign-Holds b old s k short from_old h from_s d =
    let inside = get_elem?-lt s d.position d.there in
    elim (Bool-cases (ltb (suc k) d.position)) [
      | inl later ↦
          let lt = ltb→lt _ _ later in
          let (y, at) = get_elem?-some s (suc k) (omega arith) in
          record { entry = y; at = at; of_term = from_s.own (suc k) y short (omega arith) at }
      | inr sooner ↦
          let le : d.position ≤ suc k = ground (arith, sooner) in
          let (x, at) =
            get_elem?-some old d.position (omega (arith, get_elem?-lt old (suc k) h.at)) in
          absurd (
            Lacks-differ old d.position x d.entry d.lacks at (
              same_terms b old s (suc (suc k)) (length s) d.position x d.entry from_old from_s
                (omega arith) inside at d.there))
    ]
