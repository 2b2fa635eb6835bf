-- ===== src/Cluster/Honesty.antt =====
-- A process of mini-raft/raft-rust/src/main.rs votes once in a term: all its messages together claim one
-- vote for each term, and the node remembers the vote of the current one.
use mathlib.Core.Path.{subst}
use mathlib.Core.List.{Memᴰ}
use mathlib.Core.List.Memᴰ
use mathlib.Core.Option.{some-injective}
use distributed_sys_lab.Prelude.{
  All-Memᴰ, ℕ, ◌+◌, ◌≤◌, ◌≡◌, ◌∙◌, ◌⊎◌, inl, inr, sym, ap, some, String, Option, List, arith,
  length,
}
use distributed_sys_lab.Protocol.{Message}
use distributed_sys_lab.Node.{RaftNode}
use distributed_sys_lab.Node.Voter.{Follows, SameVoter-Follows}
use distributed_sys_lab.Node.Steps.{Stands-Follows}
use distributed_sys_lab.Engine.{Platform, Process}
use distributed_sys_lab.Cluster.Claims.{Causes, AsksForItself, Truthful}
use distributed_sys_lab.Cluster.Says.{Says, Vouches}
use distributed_sys_lab.Cluster.Moves.{Change, quiet, stands, counts, Moves}

module _ (p : Platform) where
  -- The member `i` of a cluster of that many processes, and what it has sent.
  pub record Honest (i : String) (size : ℕ) (n : RaftNode) (sent : List (Message p.Value))
      : Type 0 where
    pub id : n.id ≡ i
    pub peers : length n.peers + 1 ≡ size
    pub signed : (m : Message p.Value) → Memᴰ m sent → (m.from ≡ i) × AsksForItself p m
    pub bound :
        (c : String) (term : ℕ)
        → Vouches p sent c term
        → (term ≤ n.current_term) × (term ≡ n.current_term → n.voted_for ≡ some c)
    pub unique :
        (c c' : String) (term : ℕ) → Vouches p sent c term → Vouches p sent c' term → c ≡ c'

  pub Change-Follows :
      {line : Option (Message p.Value)} {n n' : RaftNode} {sent' : List (Message p.Value)}
      → Change p line n n' sent'
      → Follows n n'
  Change-Follows (quiet q) = q.follows
  Change-Follows (stands s _) = Stands-Follows s
  Change-Follows (counts _ _ _ c) = SameVoter-Follows c.same

  -- A claim was there before, or is one that the node may make now.
  pub old_or_new :
      (k : Causes) {n' : RaftNode} {before after : List (Message p.Value)} (c : String) (term : ℕ)
      → Says p k n' before after
      → Vouches p after c term
      → Vouches p before c term
        ⊎ ((term ≡ n'.current_term) × (n'.voted_for ≡ some c) × k.vote c term)
  old_or_new k {n'} {before} c term s v =
      elim (Memᴰ.append_cases before (subst (Memᴰ v.message) s.sent v.among)) [
        | inl old ↦ inl (record { message = v.message; among = old; claim = v.claim })
        | inr new ↦ inr ((All-Memᴰ (Truthful p k n') s.more s.truthful new).claims c term v.claim)
      ]

  -- A turn keeps a member honest.
  module _ {line : Option (Message p.Value)} {w : Process p} {n' : RaftNode}
      {sent' : List (Message p.Value)} (i : String) (size : ℕ) (h : Honest i size w.node w.sent)
      (m : Moves p line w n' sent') where
    bound_kept :
        (c : String) (term : ℕ)
        → Vouches p sent' c term
        → (term ≤ n'.current_term) × (term ≡ n'.current_term → n'.voted_for ≡ some c)
    bound_kept c term v =
        let f = Change-Follows m.change in
        elim (old_or_new _ c term m.says v) [
          | inl old ↦
              let (le, votes) = h.bound c term old in
              (
                omega (arith, f.term),
                λ now. f.vote (omega (arith, f.term)) c (votes (omega (arith, f.term))),
              )
          | inr (now, voted, _) ↦ (omega arith, λ _. voted)
        ]

    same_vote :
        (c c' : String) (term : ℕ)
        → Vouches p sent' c term
        → (term ≡ n'.current_term) × (n'.voted_for ≡ some c')
        → c ≡ c'
    same_vote c c' term v (now, voted) =
        some-injective c c' (sym ((bound_kept c term v).1 now) ∙ voted)

    unique_kept :
        (c c' : String) (term : ℕ) → Vouches p sent' c term → Vouches p sent' c' term → c ≡ c'
    unique_kept c c' term v v' = elim (old_or_new _ c' term m.says v') [
      | inr (now, voted, _) ↦ same_vote c c' term v (now, voted)
      | inl old' ↦ elim (old_or_new _ c term m.says v) [
        | inr (now, voted, _) ↦ sym (same_vote c' c term v' (now, voted))
        | inl old ↦ h.unique c c' term old old'
      ]
    ]

    signed_kept : (x : Message p.Value) → Memᴰ x sent' → (x.from ≡ i) × AsksForItself p x
    signed_kept x among =
        let f = Change-Follows m.change in
        elim (Memᴰ.append_cases w.sent (subst (Memᴰ x) m.says.sent among)) [
          | inl old ↦ h.signed x old
          | inr new ↦
              let t = All-Memᴰ (Truthful p _ n') m.says.more m.says.truthful new in
              (t.signed ∙ f.id ∙ h.id, t.asks)
        ]

    pub Moves-Honest : Honest i size n' sent'
    Moves-Honest =
        let f = Change-Follows m.change in
        record {
          id = f.id ∙ h.id;
          peers = ap (λ (xs : List String). length xs + 1) f.peers ∙ h.peers;
          signed = signed_kept;
          bound = bound_kept;
          unique = unique_kept;
        }
