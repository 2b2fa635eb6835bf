-- ===== src/Cluster/History/Restriction.antt =====
-- What the comparison of logs in `is_log_up_to_date` (mini-raft/raft-rust/src/node.rs) gives: a log at least as up to date
-- as one with an entry has the entry, unless a reign between the two terms lacks it.
use mathlib.Core.Path.{subst}
use mathlib.Core.List.{Memᴰ}
use mathlib.Core.Option.{some-injective}
use distributed_sys_lab.Prelude.{
  get_elem?-take, ◌-◌, ◌==◌, ==_iff, Option-cases, get_elem?-some, get_last?, ℕ, zero, suc, ◌<◌,
  ◌≤◌, ◌≡◌, ◌∙◌, ◌⊎◌, inl, inr, refl, sym, ap, some, String, List, arith, length, get_elem?,
  get_elem?-lt, ltb, ltb→lt, Bool-cases,
}
use distributed_sys_lab.Protocol.{LogEntry}
use distributed_sys_lab.Node.{sentinel}
use distributed_sys_lab.Engine.{Platform}
use distributed_sys_lab.Cluster.System.{Cluster}
use distributed_sys_lab.Cluster.Logs.{Holds, Kept}
use distributed_sys_lab.Cluster.History.{Bid, Reign, Past, Stems, Remembers}
use distributed_sys_lab.Cluster.History.Order.{terms_ordered}
use distributed_sys_lab.Node.Log.{get_last?-IsLog}
use mathlib.Core.Bool.{false≢true}

-- Zero, or a successor.
ℕ-cases : (n : ℕ) → (n ≡ 0) ⊎ ((j : ℕ) × (n ≡ suc j))
ℕ-cases zero = inl refl
ℕ-cases (suc j) = inr (j, refl)

Holds-cases : (l : List LogEntry) (k term : ℕ) → Holds l k term ⊎ (Holds l k term → ⊥)
Holds-cases l k term = elim (Option-cases (get_elem? l (suc k))) [
  | inl none_there ↦ inr (λ h. cc (none_there, h.at))
  | inr (x, at) ↦ elim (Bool-cases (x.term == term)) [
    | inl same ↦ inl (record { entry = x; at = at; of_term = (==_iff x.term term).0 same })
    | inr differs ↦ inr (λ h.
        let one : x ≡ h.entry = some-injective x h.entry (sym at ∙ h.at) in
        false≢true
          (sym differs ∙ (==_iff x.term term).1 (ap (λ (e : LogEntry). e.term) one ∙ h.of_term)))
  ]
]

-- A reign of a term between two that lacks an entry.
pub record Overrides (reigns : List Reign) (k term below : ℕ) : Type 0 where
  pub reign : Reign
  pub among : Memᴰ reign reigns
  pub above : term < reign.bid.term
  pub below_it : reign.bid.term < below
  pub lacks : Holds reign.bid.log k term → ⊥

module _ (p : Platform) (ids : List String) (c : Cluster p) (logs : List (List LogEntry))
    (past : Past) (kept : Kept p ids c logs) (mem : Remembers p ids c logs past) where
  -- The bid of a term has no entry of the term.
  base_short :
      (l : List LogEntry) (k term : ℕ) (st : Stems past.reigns l k term)
      → Holds l k term
      → length st.reign.bid.log ≤ suc k
  base_short l k term st h =
      let b = st.reign.bid in
      elim (Bool-cases (ltb (suc k) (length b.log))) [
        | inr short ↦ ground (arith, short)
        | inl inside ↦
            let there : get_elem? b.log (suc k) ≡ some h.entry =
              sym (ap (λ xs. get_elem? xs (suc k)) st.continues.base)
              ∙ get_elem?-take l (length b.log) (suc k) (ltb→lt _ _ inside)
              ∙ h.at in
            let made = mem.made b (mem.reigned st.reign st.among).among in
            absurd (
              omega (
                arith,
                st.of_term,
                made.older k term (record { entry = h.entry; at = there; of_term = h.of_term }),
              ))
      ]

  -- A log with a later entry of the term has the entries of the term that another log has.
  same_term-Holds :
      (xs ys : List LogEntry) (k j term : ℕ)
      → Memᴰ xs logs
      → Memᴰ ys logs
      → Holds xs k term
      → Holds ys j term
      → k ≤ j
      → Holds ys k term
  same_term-Holds xs ys k j term in_xs in_ys h h' le =
      let st = mem.stems xs k term in_xs h in
      let st' = mem.stems ys j term in_ys h' in
      let one : st.reign ≡ st'.reign =
        mem.one_reign st.reign st'.reign st.among st'.among (st.of_term ∙ sym st'.of_term) in
      let short : length st'.reign.bid.log ≤ suc k =
        subst (λ (r : Reign). length r.bid.log ≤ suc k) one (base_short xs k term st h) in
      let (y, at) = get_elem?-some ys (suc k) (omega (arith, get_elem?-lt ys (suc j) h'.at)) in
      record {
        entry = y;
        at = at;
        of_term = st'.continues.own (suc k) y short (omega arith) at ∙ st'.of_term;
      }

  -- A log with an entry of a later term has the entry of an older term that the later reign's bid has.
  base-Holds :
      (l : List LogEntry) (k j term later : ℕ)
      → Memᴰ l logs
      → Holds l j later
      → (st : Stems past.reigns l j later) → Holds st.reign.bid.log k term
      → Holds l k term
  base-Holds l k j term later among h st x = record {
    entry = x.entry;
    at =
        sym (
          get_elem?-take l (length st.reign.bid.log) (suc k)
            (get_elem?-lt st.reign.bid.log (suc k) x.at))
        ∙ ap (λ xs. get_elem? xs (suc k)) st.continues.base
        ∙ x.at;
    of_term = x.of_term;
  }

  -- The last entry of a log, after the sentinel.
  last-Holds :
      (l : List LogEntry) (last : LogEntry) (j : ℕ)
      → Memᴰ l logs
      → get_last? l ≡ some last
      → last.index ≡ suc j
      → Holds l j last.term
  last-Holds l last j among is_last index =
      let (e, got, at_end, at) = get_last?-IsLog l (kept.shaped l among).is_log in
      let one : last ≡ e = some-injective last e (sym is_last ∙ got) in
      let here : length l - 1 ≡ suc j = omega (arith, at_end, ap (λ (x : LogEntry). x.index) one) in
      record {
        entry = e;
        at = ap (get_elem? l) (sym here) ∙ at;
        of_term = ap (λ (x : LogEntry). x.term) (sym one);
      }

  -- The last entry of a log is no older than any other.
  last_bounds :
      (l : List LogEntry) (last : LogEntry) (k term : ℕ)
      → Memᴰ l logs
      → get_last? l ≡ some last
      → Holds l k term
      → (suc k ≤ last.index) × (term ≤ last.term)
  last_bounds l last k term among is_last h =
      let (e, got, at_end, at) = get_last?-IsLog l (kept.shaped l among).is_log in
      let one : e ≡ last = some-injective e last (sym got ∙ is_last) in
      let inside = get_elem?-lt l (suc k) h.at in
      let same_index = ap (λ (x : LogEntry). x.index) one in
      let same_term = ap (λ (x : LogEntry). x.term) one in
      (
        omega arith,
        omega (
          arith,
          h.of_term,
          terms_ordered p ids c logs past kept mem l (suc k) (length l - 1) h.entry e among
              (omega arith) h.at at,
        ),
      )

  -- A last entry at the first position is the sentinel.
  last_first :
      (l : List LogEntry) (last : LogEntry)
      → Memᴰ l logs
      → get_last? l ≡ some last
      → last.index ≡ 0
      → last.term ≡ 0
  last_first l last among is_last index =
      let (e, got, at_end, at) = get_last?-IsLog l (kept.shaped l among).is_log in
      let one : last ≡ e = some-injective last e (sym is_last ∙ got) in
      let here : length l - 1 ≡ 0 = omega (arith, at_end, ap (λ (x : LogEntry). x.index) one) in
      let first : sentinel ≡ e =
        some-injective sentinel e
          (sym (kept.shaped l among).first ∙ ap (get_elem? l) (sym here) ∙ at) in
      omega (arith, ap (λ (x : LogEntry). x.term) one, ap (λ (x : LogEntry). x.term) first)

  -- A bid of a later term.
  later_bid :
      (b : Bid) (k j term later : ℕ)
      → Memᴰ b past.bids
      → Holds b.log j later
      → term < later
      → Holds b.log k term ⊎ Overrides past.reigns k term b.term
  later_bid b k j term later among h above =
      let made = mem.made b among in
      let st = mem.stems b.log j later made.among h in
      elim (Holds-cases st.reign.bid.log k term) [
        | inl has ↦ inl (base-Holds b.log k j term later made.among h st has)
        | inr lacks ↦ inr (record {
          reign = st.reign;
          among = st.among;
          above = omega (arith, st.of_term);
          below_it = omega (arith, st.of_term, made.older j later h);
          lacks = lacks;
        })
      ]

  -- A bid whose log is at least as up to date as a log that has an entry has the entry, or a reign in between
  -- lacks it.
  pub bid-Holds :
      (b : Bid) (l : List LogEntry) (mine yours : LogEntry) (k term : ℕ)
      → Memᴰ b past.bids
      → Memᴰ l logs
      → get_last? b.log ≡ some mine
      → get_last? l ≡ some yours
      → (yours.term < mine.term) ⊎ ((mine.term ≡ yours.term) × (yours.index ≤ mine.index))
      → Holds l k term
      → Holds b.log k term ⊎ Overrides past.reigns k term b.term
  bid-Holds b l mine yours k term among in_l is_mine is_yours up h =
      let made = mem.made b among in
      let (index, older) = last_bounds l yours k term in_l is_yours h in
      elim (ℕ-cases mine.index) [
        | inl at_zero ↦
            let none_newer = last_first b.log mine made.among is_mine at_zero in
            absurd (elim up [ inl newer ↦ omega arith | inr (_, le) ↦ omega arith ])
        | inr (j, at_j) ↦
            let last = last-Holds b.log mine j made.among is_mine at_j in
            elim (Bool-cases (ltb term mine.term)) [
              | inl above ↦ later_bid b k j term mine.term among last (ltb→lt _ _ above)
              | inr same ↦ elim up [
                | inl newer ↦ absurd (ground (arith, same))
                | inr (equal, le) ↦
                    let now : mine.term ≡ term = ground (arith, same) in
                    inl (
                      same_term-Holds l b.log k j term in_l made.among h
                        (subst (Holds b.log j) now last) (omega arith))
              ]
            ]
      ]
