-- ===== src/Node/AppendEntries/Store.antt =====
-- The loop over `args.entries` in `handle_append_entries` (mini-raft/raft-rust/src/node.rs) as a
-- function of the log alone, and what it leaves in the log.
use mathlib.Core.Path.{subst}
use distributed_sys_lab.Prelude.{
  ap, ℕ, zero, suc, ◌+◌, ◌-◌, ◌≤◌, ◌<◌, ◌≡◌, ◌∙◌, sym, refl, Option, none, some, List, [], ◌∷◌,
  arith, ◌==◌, if◌then◌else◌, Option-cases, ◌⊎◌, ltb, ltb→lt, inl, inr, Bool-cases, length,
  get_elem?, take, drop, ◌<+◌, length-take, length-append, get_elem?-take, get_elem?-append_left,
  get_elem?-push, get_elem?-lt, get_elem?-ge, take_of_length-le, ==_iff,
}
use distributed_sys_lab.Protocol.{LogEntry, SideEffect}
use distributed_sys_lab.Node.{RaftNode}
use distributed_sys_lab.Node.Log.{
  Contiguous, Agrees, take-Contiguous, drop-Contiguous, push-Contiguous,
}
use distributed_sys_lab.Node.AppendEntries.{store_entry, store_entries}

-- The log after one round, given the entry that stands at the new entry's index.
unfoldable pub stored : List LogEntry → LogEntry → Option LogEntry → List LogEntry
stored log e none = log <+ e
stored log e (some x) = if x.term == e.term then log else take e.index log <+ e

unfoldable pub stored_all : List LogEntry → List LogEntry → List LogEntry
stored_all log [] = log
stored_all log (e ∷ es) = stored_all (stored log e (get_elem? log e.index)) es

store_entry-node :
    (n : RaftNode) (e : LogEntry) (o : Option LogEntry) (fx : List SideEffect)
    → (store_entry n e o fx).0 ≡ record n { log = stored n.log e o }
unfolding store_entry stored
store_entry-node n e none fx = refl
store_entry-node n e (some x) fx = ground arith

-- The index of the last entry, or the one before the first.
unfoldable pub last_new : ℕ → List LogEntry → ℕ
last_new p [] = p
last_new p (e ∷ es) = last_new e.index es

-- The loop changes the log and nothing else.
pub store_entries-node :
    (n : RaftNode) (es : List LogEntry) (p : ℕ) (fx : List SideEffect)
    → ((store_entries n es p fx).0 ≡ record n { log = stored_all n.log es })
      × ((store_entries n es p fx).2 ≡ last_new p es)
unfolding store_entries stored_all last_new
store_entries-node n [] p fx = (refl, refl)
store_entries-node n (e ∷ es) p fx =
    let (n', fx') = store_entry n e (get_elem? n.log e.index) fx in
    let eq : n' ≡ record n { log = stored n.log e (get_elem? n.log e.index) } =
      store_entry-node n e (get_elem? n.log e.index) fx in
    let (node, last) = store_entries-node n' es e.index fx' in
    (node ∙ ap (λ (m : RaftNode). record m { log = stored_all m.log es }) eq, last)

-- What the log has become when entries from position k on have been stored: it is as it was below k, has
-- their terms from there on, and has no entry that was not there or among them, at the same position.
pub record Stored (log log' : List LogEntry) (k : ℕ) (es : List LogEntry) : Type 0 where
  pub contiguous : Contiguous 0 log'
  pub kept : (i : ℕ) → i < k → get_elem? log' i ≡ get_elem? log i
  pub agrees : Agrees log' k es
  pub long : k + length es ≤ length log'
  pub origin :
      (j : ℕ) (x : LogEntry)
      → get_elem? log' j ≡ some x
      → (get_elem? log j ≡ some x) ⊎ ((i : ℕ) × (j ≡ k + i) × (get_elem? es i ≡ some x))

push-Stored :
    (log : List LogEntry) (e : LogEntry)
    → Contiguous 0 log
    → e.index ≤ length log
    → Stored log (take e.index log <+ e) e.index (e ∷ [])
push-Stored log e c h =
    let short : length (take e.index log) ≡ e.index = omega (arith, length-take e.index log) in
    let new : get_elem? (take e.index log <+ e) e.index ≡ some e =
      rw short at (get_elem?-push (take e.index log) e) in
    record {
      contiguous =
          push-Contiguous 0 (take e.index log) e (take-Contiguous e.index 0 log c) (omega arith);
      kept = λ i lt.
          get_elem?-append_left (take e.index log) (e ∷ []) i (omega arith)
          ∙ get_elem?-take log e.index i lt;
      agrees = ((e, new, refl), tt);
      long = omega (arith, length-append (take e.index log) (e ∷ []));
      origin = λ j x at. elim (Bool-cases (ltb j e.index)) [
        | inl below ↦
            let lt = ltb→lt _ _ below in
            inl (
              sym (get_elem?-take log e.index j lt)
              ∙ sym (get_elem?-append_left (take e.index log) (e ∷ []) j (omega arith))
              ∙ at)
        | inr past ↦
            let inside = get_elem?-lt (take e.index log <+ e) j at in
            let size = length-append (take e.index log) (e ∷ []) in
            let here : e.index ≡ j = ground (arith, past, inside, size, short) in
            inr (0, omega (arith, here), sym new ∙ ap (get_elem? (take e.index log <+ e)) here ∙ at)
      ];
    }

stored-Stored :
    (log : List LogEntry) (e : LogEntry)
    → Contiguous 0 log
    → e.index ≤ length log
    → Stored log (stored log e (get_elem? log e.index)) e.index (e ∷ [])
unfolding stored
stored-Stored log e c h = elim (Option-cases (get_elem? log e.index)) [
  | inl q ↦ rw q (
      subst (λ xs. Stored log (xs <+ e) e.index (e ∷ []))
        (take_of_length-le e.index log (get_elem?-ge log e.index q)) (push-Stored log e c h))
  | inr (x, q) ↦ elim (Bool-cases (x.term == e.term)) [
    | inl same ↦
        rw (q, same)
          (record {
            contiguous = c;
            kept = λ i lt. refl;
            agrees = ((x, q, (==_iff _ _).0 same), tt);
            long = omega (arith, get_elem?-lt log e.index q);
            origin = λ j x at. inl at;
          })
    | inr differs ↦ rw (q, differs) (push-Stored log e c h)
  ]
]

-- What is stored below later entries stays stored.
Agrees-keep :
    (log log' : List LogEntry) (k j : ℕ) (es : List LogEntry)
    → k + length es ≤ j
    → ((i : ℕ) → i < j → get_elem? log' i ≡ get_elem? log i)
    → Agrees log k es
    → Agrees log' k es
Agrees-keep log log' k j [] h kept a = tt
Agrees-keep log log' k j (e ∷ es) h kept a =
    let (x, there, same) = a.0 in
    (
      (x, kept k (omega arith) ∙ there, same),
      Agrees-keep log log' (suc k) j es (omega arith) kept a.1,
    )

single-get_elem? :
    (e : LogEntry) (i : ℕ) {x : LogEntry}
    → get_elem? (e ∷ []) i ≡ some x
    → (i ≡ 0) × (some e ≡ some x)
single-get_elem? e zero h = (refl, h)
single-get_elem? e (suc i) h = cc

-- Storing entries that follow one another, the first of them at most one past the end.
pub stored_all-Stored :
    (log : List LogEntry) (k : ℕ) (es : List LogEntry)
    → Contiguous 0 log
    → k ≤ length log
    → Contiguous k es
    → Stored log (stored_all log es) k es
unfolding stored_all
stored_all-Stored log k [] c h d = record {
  contiguous = c;
  kept = λ i lt. refl;
  agrees = tt;
  long = omega arith;
  origin = λ j x at. inl at;
}
stored_all-Stored log k (e ∷ es) c h d =
    let at_k : e.index ≡ k = d.0 in
    let one : Stored log (stored log e (get_elem? log e.index)) k (e ∷ []) =
      subst (λ j. Stored log (stored log e (get_elem? log e.index)) j (e ∷ [])) at_k
        (stored-Stored log e c (omega arith)) in
    let rest =
      stored_all-Stored (stored log e (get_elem? log e.index)) (suc k) es one.contiguous
        (omega (arith, one.long)) d.1 in
    record {
      contiguous = rest.contiguous;
      kept = λ i lt. rest.kept i (omega arith) ∙ one.kept i lt;
      agrees =
          ((Agrees-keep _ _ k (suc k) (e ∷ []) (omega arith) rest.kept one.agrees).0, rest.agrees);
      long = omega (arith, rest.long);
      origin = λ j x at. elim (rest.origin j x at) [
        | inr (i, past, there) ↦ inr (suc i, omega arith, there)
        | inl earlier ↦ elim (one.origin j x earlier) [
          | inl old ↦ inl old
          | inr (i, here, there) ↦
              let (first, same) = single-get_elem? e i there in inr (0, omega arith, same)
        ]
      ];
    }

-- Entries that the log already holds, term for term, leave it as it is.
pub stored_all_of_Agrees :
    (log : List LogEntry) (k : ℕ) (es : List LogEntry)
    → Contiguous k es
    → Agrees log k es
    → stored_all log es ≡ log
unfolding stored_all stored
stored_all_of_Agrees log k [] c a = refl
stored_all_of_Agrees log k (e ∷ es) c a =
    let (x, there, same) = a.0 in
    let here : get_elem? log e.index ≡ some x = ap (get_elem? log) c.0 ∙ there in
    rw (here, (==_iff x.term e.term).1 same) (stored_all_of_Agrees log (suc k) es c.1 a.1)

pub last_new-Contiguous :
    (p : ℕ) (es : List LogEntry) → Contiguous (suc p) es → last_new p es ≡ p + length es
unfolding last_new
last_new-Contiguous p [] c = omega arith
last_new-Contiguous p (e ∷ es) c =
    let d : Contiguous (suc e.index) es = subst (λ j. Contiguous (suc j) es) (sym c.0) c.1 in
    omega (arith, last_new-Contiguous e.index es d)

stored_all-skip :
    (j : ℕ) (log : List LogEntry) (k : ℕ) (es : List LogEntry)
    → Contiguous k es
    → Agrees log k (take j es)
    → stored_all log es ≡ stored_all log (drop j es)
unfolding stored_all stored
stored_all-skip zero log k es c a = refl
stored_all-skip (suc j) log k [] c a = refl
stored_all-skip (suc j) log k (e ∷ es) c a =
    let (x, there, same) = a.0 in
    let here : get_elem? log e.index ≡ some x = ap (get_elem? log) c.0 ∙ there in
    rw (here, (==_iff x.term e.term).1 same) (stored_all-skip j log (suc k) es c.1 a.1)

-- Entries after position p that agree with the log up to position c leave the log as it is up to
-- there, and no shorter.
pub stored_all-keep :
    (log : List LogEntry) (p c : ℕ) (es : List LogEntry)
    → Contiguous 0 log
    → p < length log
    → c < length log
    → Contiguous (suc p) es
    → Agrees log (suc p) (take (c - p) es)
    → ((i : ℕ) → i ≤ c → get_elem? (stored_all log es) i ≡ get_elem? log i)
      × (c < length (stored_all log es))
stored_all-keep log p c es w hp hc d a =
    let j = c - p in
    let skip = stored_all-skip j log (suc p) es d a in
    let rest =
      stored_all-Stored log (j + suc p) (drop j es) w (omega arith)
        (drop-Contiguous j (suc p) es d) in
    rw skip ((λ i le. rest.kept i (omega arith)), omega (arith, rest.long))
