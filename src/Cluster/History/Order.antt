-- ===== src/Cluster/History/Order.antt =====
-- The terms of the entries in a log (mini-raft/raft-rust/src/main.rs over node.rs).
use mathlib.Core.List.{Memᴰ}
use mathlib.Core.Option.{some-injective}
use distributed_sys_lab.Prelude.{
  get_elem?-take, ℕ, zero, suc, ◌<◌, ◌≤◌, ◌≡◌, ◌∙◌, inl, inr, refl, sym, ap, true, some, String,
  List, arith, length, get_elem?, contains, ltb, ltb→lt, Bool-cases,
}
use distributed_sys_lab.Protocol.{LogEntry, AppendEntriesArgs}
use distributed_sys_lab.Node.{sentinel}
use distributed_sys_lab.Engine.{Platform}
use distributed_sys_lab.Cluster.System.{Cluster, Steps, Started}
use distributed_sys_lab.Cluster.Elections.{ReadsVotes}
use distributed_sys_lab.Cluster.Logs.{Holds, Kept}
use distributed_sys_lab.Cluster.History.Runs.{run-Onward}
use distributed_sys_lab.Cluster.History.{Past, Remembers}

module _ (p : Platform) (ids : List String) (c : Cluster p) (logs : List (List LogEntry))
    (past : Past) (kept : Kept p ids c logs) (mem : Remembers p ids c logs past) where
  -- An entry before one of a term is of the term, or of an older one.
  earlier_term :
      (l : List LogEntry) (k k' : ℕ) (x : LogEntry)
      → Memᴰ l logs
      → suc k ≤ suc k'
      → get_elem? l (suc k) ≡ some x
      → (term : ℕ) → Holds l k' term
      → x.term ≤ term
  earlier_term l k k' x among le at term h =
      let st = mem.stems l k' term among h in
      let b = st.reign.bid in
      elim (Bool-cases (ltb (suc k) (length b.log))) [
        | inl inside ↦
            let there : get_elem? b.log (suc k) ≡ some x =
              sym (ap (λ xs. get_elem? xs (suc k)) st.continues.base)
              ∙ get_elem?-take l (length b.log) (suc k) (ltb→lt _ _ inside)
              ∙ at in
            let made = mem.made b (mem.reigned st.reign st.among).among in
            omega (
              arith,
              st.of_term,
              made.older k x.term (record { entry = x; at = there; of_term = refl }),
            )
        | inr past_base ↦ omega (
          arith,
          st.of_term,
          st.continues.own (suc k) x (ground (arith, past_base)) (omega arith) at,
        )
      ]

  pub terms_ordered :
      (l : List LogEntry) (k k' : ℕ) (x y : LogEntry)
      → Memᴰ l logs
      → k ≤ k'
      → get_elem? l k ≡ some x
      → get_elem? l k' ≡ some y
      → x.term ≤ y.term
  terms_ordered l zero k' x y among le at_x at_y =
      let first : sentinel ≡ x =
        some-injective sentinel x (sym (kept.shaped l among).first ∙ at_x) in
      omega (arith, ap (λ (e : LogEntry). e.term) first)
  terms_ordered l (suc k) zero x y among le at_x at_y = absurd (omega arith)
  terms_ordered l (suc k) (suc k') x y among le at_x at_y =
      earlier_term l k k' x among le at_x y.term (record { entry = y; at = at_y; of_term = refl })

  term_bounded :
      (i : String) (k : ℕ) (y : LogEntry)
      → contains ids i ≡ true
      → get_elem? (c i).node.log k ≡ some y
      → y.term ≤ (c i).node.current_term
  term_bounded i zero y member at =
      let first : sentinel ≡ y =
        some-injective sentinel y
          (sym (kept.shaped (c i).node.log (kept.held i member)).first ∙ at) in
      omega (arith, ap (λ (e : LogEntry). e.term) first)
  term_bounded i (suc k) y member at =
      kept.bounded i member k y.term (record { entry = y; at = at; of_term = refl })

-- A cluster of at least two members starts, and runs behind a relay that loses, repeats, delays and
-- reorders messages, among any requests of clients. Along the log of a member the terms of the entries never
-- fall, and none is above the member's current term. The codec reads back the messages about votes and the
-- entries that it wrote.
pub Steps-term :
    (p : Platform) (reads : ReadsVotes p)
    → ((x : AppendEntriesArgs) → p.append_entries.from_value (p.append_entries.to_value x) ≡ some x)
    → (ids : List String) → 1 < length ids
    → (a c : Cluster p) (peers : String → List String) (g : String → p.Rng) (i : String) (k k' : ℕ)
      (x y : LogEntry)
    → Started p ids a peers g
    → Steps p ids a c
    → contains ids i ≡ true
    → k ≤ k'
    → get_elem? (c i).node.log k ≡ some x
    → get_elem? (c i).node.log k' ≡ some y
    → (x.term ≤ y.term) × (y.term ≤ (c i).node.current_term)
Steps-term p reads reads_entries ids large a c peers g i k k' x y started steps member le at_x
      at_y =
    let o = run-Onward p reads reads_entries ids large a c peers g started steps in
    let kept = o.later.kept in
    (
      terms_ordered p ids c o.later.logs_now o.past kept o.remembers (c i).node.log k k' x y
          (kept.held i member) le at_x at_y,
      term_bounded p ids c o.later.logs_now o.past kept o.remembers i k' y member at_y,
    )
