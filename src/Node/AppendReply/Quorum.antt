-- ===== src/Node/AppendReply/Quorum.antt =====
-- What a leader of mini-raft/raft-rust/src/node.rs that commits has seen of its peers.
use mathlib.Core.Path.{subst}
use mathlib.Core.Option.{some-injective}
use distributed_sys_lab.Prelude.{
  ℕ, ◌+◌, ◌*◌, ◌<◌, ◌≤◌, ◌≡◌, ◌∙◌, max, sym, ap, refl, true, false, some, none, String, Option,
  List, [], ◌∷◌, ◌<+◌, arith, leb, if◌then◌else◌, Bool, get_elem?, get_last?, ok, length, Dict,
  insert, lookup, values, contains, Distinct, str_eq, eq_iff,
}
use distributed_sys_lab.Prelude.Sort.Median.{count_ge}
use distributed_sys_lab.Protocol.{NodeState, leader, LogEntry, AppendEntriesReply}
use distributed_sys_lab.Node.{RaftNode}
use distributed_sys_lab.Node.AppendReply.{handle_append_entries_reply}
use distributed_sys_lab.Node.AppendReply.Laws.{
  ReplyResult, Commits, keeps, raises, Checks, none_known, considers, recorded, Replied, newer,
  ignored, failed, succeeded, IsMajorityIndex, handle_append_entries_reply-Replied,
}

abbrev pub keys : Dict → List String
keys [] = []
keys ((k, v) ∷ d) = k ∷ keys d

-- A peer's match index is known and at least the position.
abbrev has_reached : ℕ → Option ℕ → Bool
has_reached p none = false
has_reached p (some m) = leb p m

-- How many of the peers have reached a position.
unfoldable pub reached_by : ℕ → Dict → List String → ℕ
reached_by p d [] = 0
reached_by p d (peer ∷ peers) =
    (if has_reached p (lookup peer d) then 1 else 0) + reached_by p d peers

-- An entry for another name does not matter.
reached_by-skip :
    (p : ℕ) (d : Dict) (k : String) (v : ℕ) (peers : List String)
    → contains peers k ≡ false
    → reached_by p ((k, v) ∷ d) peers ≡ reached_by p d peers
unfolding reached_by contains lookup
reached_by-skip p d k v [] h = refl
reached_by-skip p d k v (peer ∷ peers) h =
    ground (arith, eq_iff k peer, eq_iff peer k, reached_by-skip p d k v peers)

-- The match indices of distinct names that reach a position are the names' that have reached it.
count_ge-values :
    (p : ℕ) (d : Dict) → Distinct (keys d) → count_ge p (values d) ≡ reached_by p d (keys d)
unfolding reached_by count_ge lookup
count_ge-values p [] h = refl
count_ge-values p ((k, v) ∷ d) h =
    let same : str_eq k k ≡ true = (eq_iff k k).1 refl in
    rw (same, reached_by-skip p d k v (keys d) h.0, count_ge-values p d h.1) refl

keys-insert :
    (k : String) (v : ℕ) (d : Dict) → contains (keys d) k ≡ true → keys (insert k v d) ≡ keys d
unfolding contains insert
keys-insert k v [] h = cc
keys-insert k v ((other, old) ∷ d) h = ground (arith, eq_iff other k, keys-insert k v d)

length-values : (d : Dict) → length (values d) ≡ length (keys d)
length-values [] = refl
length-values ((k, v) ∷ d) = omega (arith, length-values d)

count_ge-push :
    (t : ℕ) (xs : List ℕ) (x : ℕ)
    → count_ge t (xs <+ x) ≡ count_ge t xs + (if leb t x then 1 else 0)
unfolding count_ge
count_ge-push t [] x = ground arith
count_ge-push t (y ∷ xs) x = omega (arith, count_ge-push t xs x)

-- The leader and the peers that have reached a position are more than half of the nodes.
abbrev pub IsQuorum : RaftNode → Dict → ℕ → Type 0
IsQuorum n match p = length n.peers + 1 < 2 * (1 + reached_by p match n.peers)

-- What a leader that commits has seen.
pub record Consensus (n : RaftNode) (match : Dict) (n' : RaftNode) : Type 0 where
  pub entry : LogEntry
  pub in_log : get_elem? n.log n'.committed_index ≡ some entry
  pub current : entry.term ≡ n.current_term
  pub quorum : IsQuorum n match n'.committed_index
  pub greatest :
      (t : ℕ) (last : LogEntry)
      → n'.committed_index < t
      → get_last? n.log ≡ some last
      → t ≤ last.index
      → IsQuorum n match t
      → ⊥
  pub applied : n'.last_applied ≡ max n.last_applied n'.committed_index

module _ (n : RaftNode) (match : Dict) (distinct : Distinct n.peers) (own : keys match ≡ n.peers)
    (some_peer : 0 < length n.peers) where
  values-count : (t : ℕ) → count_ge t (values match) ≡ reached_by t match n.peers
  values-count t =
      count_ge-values t match (subst Distinct (sym own) distinct)
      ∙ ap (λ (peers : List String). reached_by t match peers) own

  -- The considered index is the greatest that a quorum has reached.
  IsMajorityIndex-IsQuorum :
      (p : ℕ)
      → IsMajorityIndex n (values match) p
      → IsQuorum n match p
        × ((t : ℕ) (last : LogEntry)
            → p < t
            → get_last? n.log ≡ some last
            → t ≤ last.index
            → IsQuorum n match t
            → ⊥)
  IsMajorityIndex-IsQuorum p m =
      let size : length (values match) ≡ length n.peers =
        length-values match ∙ ap (λ (peers : List String). length peers) own in
      (
        ground
            (arith, m.reached, values-count p, count_ge-push p (values match) m.last.index, size),
        λ t last above is_last within q.
            let one : m.last ≡ last = some-injective m.last last (sym m.is_last ∙ is_last) in
            let at = ap (λ (e : LogEntry). e.index) one in
            ground (
              arith,
              m.greatest t above,
              values-count t,
              count_ge-push t (values match) m.last.index,
              size,
              at,
            ),
      )

  Commits-Consensus :
      (p : ℕ) (n' : RaftNode)
      → IsMajorityIndex n (values match) p
      → n.committed_index < n'.committed_index
      → Commits n p n'
      → Consensus n match n'
  Commits-Consensus p n' m up (keeps _ e) =
      absurd (omega (arith, ap (λ (m : RaftNode). m.committed_index) e))
  Commits-Consensus p n' m up (raises o node) =
      let (quorum, greatest) = IsMajorityIndex-IsQuorum p m in
      subst (Consensus n match) (sym node) (record {
        entry = o.entry;
        in_log = o.there;
        current = o.current;
        quorum = quorum;
        greatest = greatest;
        applied = refl;
      })

  Checks-Consensus :
      (n' : RaftNode)
      → n.committed_index < n'.committed_index
      → Checks n (values match) n'
      → Consensus n match n'
  Checks-Consensus n' up (none_known _ e) =
      absurd (omega (arith, ap (λ (m : RaftNode). m.committed_index) e))
  Checks-Consensus n' up (considers p m c) = Commits-Consensus p n' m up c

some_member : (xs : List String) (x : String) → contains xs x ≡ true → 0 < length xs
unfolding contains
some_member [] x h = cc
some_member (y ∷ xs) x h = omega arith

match_of : {a b c d : Dict} → NodeState.leader a b ≡ NodeState.leader c d → b ≡ d
match_of h = cc

-- The bookkeeping of the reply does not matter to what was seen.
recorded-Consensus :
    (n : RaftNode) (next match match' : Dict) (from : String) (index : ℕ) (n' : RaftNode)
    → Consensus (recorded n next match from index) match' n'
    → Consensus n match' n'
recorded-Consensus n next match match' from index n' c = record {
  entry = c.entry;
  in_log = c.in_log;
  current = c.current;
  quorum = c.quorum;
  greatest = c.greatest;
  applied = c.applied;
}

-- A leader has distinct peers and a match index for each of them, in their order, and for no other name.
-- When the reply of a peer raises its commit index, the leader and the peers whose match index, once the
-- reply is recorded, reaches the new commit index are more than half of the nodes; the entry there is of the
-- leader's own term; at no later position of its log are there so many; and the leader applies up to there.
pub handle_append_entries_reply-Consensus :
    (n : RaftNode) (from : String) (reply : AppendEntriesReply) (r : ReplyResult)
    (next match : Dict)
    → n.state ≡ leader next match
    → Distinct n.peers
    → keys match ≡ n.peers
    → contains n.peers from ≡ true
    → handle_append_entries_reply n from reply ≡ ok r
    → n.committed_index < r.0.committed_index
    → Consensus n (insert from reply.match_index match) r.0
handle_append_entries_reply-Consensus n from reply r next match s distinct own peer h up =
    go (handle_append_entries_reply-Replied n from reply r h)
  where
    now : Dict
    now = insert from reply.match_index match

    known : keys now ≡ n.peers
    known =
        keys-insert from reply.match_index match
          (subst (λ peers. contains peers from ≡ true) (sym own) peer)
        ∙ own

    go : Replied n from reply r.0 → Consensus n now r.0
    go (newer _ e) = absurd (omega (arith, ap (λ (m : RaftNode). m.committed_index) e))
    go (ignored _ e) = absurd (omega (arith, ap (λ (m : RaftNode). m.committed_index) e))
    go (failed _ _ _ _ _ e) = absurd (omega (arith, ap (λ (m : RaftNode). m.committed_index) e))
    go (succeeded next' match' _ s' _ c) =
        let same : match' ≡ match = match_of (sym s' ∙ s) in
        let index = reply.match_index in
        recorded-Consensus n next' match' now from index r.0 (
          Checks-Consensus (recorded n next' match' from index) now distinct known
            (some_member n.peers from peer) r.0 up
            (subst
              (λ d. Checks (recorded n next' match' from index) (values (insert from index d)) r.0)
              same c))
