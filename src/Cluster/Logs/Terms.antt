-- ===== src/Cluster/Logs/Terms.antt =====
-- The terms of entries, and of the nodes that won them (mini-raft/raft-rust/src/node.rs).
use mathlib.Core.Option.{some-injective}
use distributed_sys_lab.Prelude.{
  ℕ, suc, ◌≡◌, ◌∙◌, ◌⊎◌, inl, inr, sym, ap, Option, String, List, [], ◌∷◌, arith, get_elem?, length,
  ◌<+◌, get_elem?-append_left, get_elem?-lt, get_elem?-push, length-append, ltb, ltb→lt, Bool-cases,
}
use distributed_sys_lab.Protocol.{Message, LogEntry}
use distributed_sys_lab.Node.{RaftNode}
use distributed_sys_lab.Engine.{Platform}
use distributed_sys_lab.Cluster.Moves.{Change, quiet, stands, counts}
use distributed_sys_lab.Cluster.System.{Cluster, Others, each_process}
use distributed_sys_lab.Cluster.Support.{Elected-Grows, Grows}
use distributed_sys_lab.Cluster.Logs.{Holds, Settled, Won}

-- A node that no longer stands in a term does not come back to it.
pub Change-Settled :
    (p : Platform) (line : Option (Message p.Value)) (n n' : RaftNode)
    (sent' : List (Message p.Value)) (term : ℕ)
    → Change p line n n' sent'
    → Settled n term
    → Settled n' term
Change-Settled p line n n' sent' term (quiet q) (inl past) = inl (omega (arith, q.follows.term))
Change-Settled p line n n' sent' term (quiet q) (inr (now, no_candidate)) = elim q.stays [
  | inl follows ↦ elim (Bool-cases (ltb term n'.current_term)) [
    | inl past ↦ inl (ltb→lt _ _ past)
    | inr same ↦ inr (ground (arith, same, q.follows.term), λ votes e. cc (follows, e))
  ]
  | inr (same_term, same_role) ↦
      inr (now ∙ sym same_term, λ votes e. no_candidate votes (sym same_role ∙ e))
]
Change-Settled p line n n' sent' term (stands s _) settled =
    inl (elim settled [ inl past ↦ omega (arith, s.term) | inr (now, _) ↦ omega (arith, s.term) ])
Change-Settled p line n n' sent' term (counts _ _ _ c) (inl past) = inl (omega (arith, c.same.term))
Change-Settled p line n n' sent' term (counts _ _ _ c) (inr (now, no_candidate)) =
    absurd (no_candidate c.votes c.was)

pub Holds-push :
    (log : List LogEntry) (e : LogEntry) (k term : ℕ) → Holds log k term → Holds (log <+ e) k term
Holds-push log e k term h = record {
  entry = h.entry;
  at = get_elem?-append_left log (e ∷ []) (suc k) (get_elem?-lt log (suc k) h.at) ∙ h.at;
  of_term = h.of_term;
}

-- An entry of a log with one more entry at its end is one of the log, or the last.
pub push-Holds :
    (log : List LogEntry) (e : LogEntry) (k term : ℕ)
    → Holds (log <+ e) k term
    → Holds log k term ⊎ ((suc k ≡ length log) × (e.term ≡ term))
push-Holds log e k term h =
    let inside = get_elem?-lt (log <+ e) (suc k) h.at in
    let size = length-append log (e ∷ []) in
    elim (Bool-cases (ltb (suc k) (length log))) [
      | inl below ↦ inl (record {
        entry = h.entry;
        at = sym (get_elem?-append_left log (e ∷ []) (suc k) (ltb→lt _ _ below)) ∙ h.at;
        of_term = h.of_term;
      })
      | inr above ↦
          let at_end : suc k ≡ length log = ground (arith, inside, size, above) in
          inr (
            at_end,
            ap (λ (x : LogEntry). x.term)
                  (some-injective e h.entry
                    (sym (get_elem?-push log e) ∙ ap (get_elem? (log <+ e)) (sym at_end) ∙ h.at))
                ∙ h.of_term,
          )
    ]

-- A term that a member has won stays won.
pub Won-later :
    (p : Platform) (ids : List String) (c c' : Cluster p) (i : String)
    (line : Option (Message p.Value))
    → Others p ids c c' i
    → Grows p ids c c'
    → Change p line (c i).node (c' i).node (c' i).sent
    → (term : ℕ) → Won p ids c term
    → Won p ids c' term
Won-later p ids c c' i line others grows change term w = record {
  winner = w.winner;
  member = w.member;
  elected = Elected-Grows p ids c c' w.winner term grows w.elected;
  settled =
      each_process p ids (λ j x. Settled (c j).node term → Settled x.node term) c c' i others
        (Change-Settled p line (c i).node (c' i).node (c' i).sent term change) (λ _ _ x. x) w.winner
        w.settled;
}
