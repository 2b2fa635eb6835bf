-- ===== src/Node/Matching.antt =====
-- Logs of mini-raft/raft-rust/src/node.rs that agree up to every entry whose index and term they share, and
-- what the loop of `handle_append_entries` makes of two of them.
use mathlib.Core.Path.{subst}
use mathlib.Core.Option.{some-injective}
use distributed_sys_lab.Prelude.{
  ℕ, zero, suc, ◌≤◌, ◌<◌, ◌≡◌, ◌≢◌, ◌∙◌, ◌⊎◌, inl, inr, refl, false, sym, ap, none, some, List, [],
  ◌∷◌, ◌++◌, arith, length, get_elem?, get_elem?-take, get_elem?-lt, get_elem?-ge, take, drop, ◌<+◌,
  length-take, take_of_length-le, length-append, get_elem?-append_left, get_elem?-push,
  Option-cases, Bool-cases, ltb, ltb→lt, ◌==◌, ==_iff,
}
use distributed_sys_lab.Protocol.{LogEntry}
use distributed_sys_lab.Node.Log.{Contiguous, index-get_elem?}
use distributed_sys_lab.Node.AppendEntries.Store.{stored, stored_all}

-- Where both logs have an entry of the same term, they are the same up to there.
pub record Matches (xs ys : List LogEntry) : Type 0 where
  pub upto :
      (i : ℕ) (x y : LogEntry)
      → get_elem? xs i ≡ some x
      → get_elem? ys i ≡ some y
      → x.term ≡ y.term
      → take (suc i) xs ≡ take (suc i) ys

pub Matches-refl : (xs : List LogEntry) → Matches xs xs
Matches-refl xs = record { upto = λ i x y _ _ _. refl }

pub Matches-sym : (xs ys : List LogEntry) → Matches xs ys → Matches ys xs
Matches-sym xs ys m = record {
  upto = λ i x y at_x at_y same. sym (m.upto i y x at_y at_x (sym same));
}

-- Logs that are the same up to a position have the same entries below it.
pub take-get_elem? :
    (xs ys : List LogEntry) (n i : ℕ)
    → take n xs ≡ take n ys
    → i < n
    → get_elem? xs i ≡ get_elem? ys i
take-get_elem? xs ys n i same h =
    sym (get_elem?-take xs n i h) ∙ ap (λ l. get_elem? l i) same ∙ get_elem?-take ys n i h

pub take-append_left :
    (n : ℕ) (xs ys : List LogEntry) → n ≤ length xs → take n (xs ++ ys) ≡ take n xs
take-append_left zero xs ys h = refl
take-append_left (suc n) [] ys h = absurd (omega arith)
take-append_left (suc n) (x ∷ xs) ys h = ap (λ l. x ∷ l) (take-append_left n xs ys (omega arith))

-- A new entry at the end, of a term that the other log does not have there.
pub push-Matches :
    (xs ys : List LogEntry) (e : LogEntry)
    → Matches xs ys
    → ((y : LogEntry) → get_elem? ys (length xs) ≡ some y → y.term ≢ e.term)
    → Matches (xs <+ e) ys
push-Matches xs ys e m fresh = record { upto = upto }
  where
    upto :
        (i : ℕ) (x y : LogEntry)
        → get_elem? (xs <+ e) i ≡ some x
        → get_elem? ys i ≡ some y
        → x.term ≡ y.term
        → take (suc i) (xs <+ e) ≡ take (suc i) ys
    upto i x y at_x at_y same =
        let size = length-append xs (e ∷ []) in
        let inside = get_elem?-lt (xs <+ e) i at_x in
        elim (Bool-cases (ltb i (length xs))) [
          | inl below ↦
              let lt = ltb→lt i (length xs) below in
              take-append_left (suc i) xs (e ∷ []) (omega arith)
              ∙ m.upto i x y (sym (get_elem?-append_left xs (e ∷ []) i lt) ∙ at_x) at_y same
          | inr above ↦
              let at_end : i ≡ length xs = ground (arith, size, inside) in
              let last : x ≡ e =
                some-injective x e
                  (sym at_x ∙ ap (get_elem? (xs <+ e)) at_end ∙ get_elem?-push xs e) in
              absurd (
                fresh y (sym (ap (get_elem? ys) at_end) ∙ at_y)
                  (sym same ∙ ap (λ (z : LogEntry). z.term) last))
        ]

take-take : (n : ℕ) (xs : List LogEntry) → take n (take n xs) ≡ take n xs
take-take zero xs = refl
take-take (suc n) [] = refl
take-take (suc n) (x ∷ xs) = ap (λ l. x ∷ l) (take-take n xs)

-- The first entry after a position.
drop-cons :
    (k : ℕ) (s : List LogEntry) (e : LogEntry) (es : List LogEntry)
    → drop k s ≡ e ∷ es
    → (get_elem? s k ≡ some e) × (drop (suc k) s ≡ es) × (take (suc k) s ≡ take k s <+ e)
drop-cons zero [] e es h = cc
drop-cons zero (x ∷ s) e es h = (cc h, cc h, cc h)
drop-cons (suc k) [] e es h = cc
drop-cons (suc k) (x ∷ s) e es h =
    let (at, rest, upto) = drop-cons k s e es h in (at, rest, ap (λ l. x ∷ l) upto)

take_of_drop-nil : (k : ℕ) (s : List LogEntry) → drop k s ≡ [] → take k s ≡ s
take_of_drop-nil zero [] h = refl
take_of_drop-nil zero (x ∷ s) h = cc h
take_of_drop-nil (suc k) [] h = refl
take_of_drop-nil (suc k) (x ∷ s) h = ap (λ l. x ∷ l) (take_of_drop-nil k s h)

get_elem?-past : (xs : List LogEntry) (i : ℕ) → length xs ≤ i → get_elem? xs i ≡ none
get_elem?-past xs i h = elim (Option-cases (get_elem? xs i)) [
  | inl e ↦ e
  | inr (x, e) ↦ absurd (omega (arith, get_elem?-lt xs i e))
]

-- The log has no entry at the position, or one of another term.
abbrev pub Lacks : List LogEntry → ℕ → LogEntry → Type 0
Lacks log k e =
    (get_elem? log k ≡ none)
    ⊎ ((x : LogEntry) × (get_elem? log k ≡ some x) × ((x.term == e.term) ≡ false))

-- The other log has an entry that the log lacks.
pub record Differs (log other : List LogEntry) : Type 0 where
  pub position : ℕ
  pub entry : LogEntry
  pub there : get_elem? other position ≡ some entry
  pub lacks : Lacks log position entry

stored-cut :
    (log : List LogEntry) (e : LogEntry)
    → Lacks log e.index e
    → stored log e (get_elem? log e.index) ≡ take e.index log <+ e
unfolding stored
stored-cut log e (inl at) =
    rw at (ap (λ l. l <+ e) (sym (take_of_length-le e.index log (get_elem?-ge log e.index at))))
stored-cut log e (inr (x, at, differs)) = rw (at, differs) refl

module _ (s : List LogEntry) (c : Contiguous 0 s) where
  -- One round on the entry of the log at a position, where another log that begins like it lacks the entry.
  stored-next :
      (log : List LogEntry) (k : ℕ) (e : LogEntry) (es : List LogEntry)
      → take k log ≡ take k s
      → drop k s ≡ e ∷ es
      → Lacks log k e
      → stored log e (get_elem? log e.index) ≡ take (suc k) s
  stored-next log k e es same h lacks =
      let (at, _, upto) = drop-cons k s e es h in
      let here : k ≡ e.index = omega (arith, index-get_elem? 0 s k c at) in
      stored-cut log e (subst (λ j. Lacks log j e) here lacks)
      ∙ ap (λ j. take j log <+ e) (sym here)
      ∙ ap (λ l. l <+ e) same
      ∙ sym upto

  -- Storing the rest of a log after its beginning gives the log.
  fill : (es : List LogEntry) (k : ℕ) → drop k s ≡ es → stored_all (take k s) es ≡ s
  unfolding stored_all
  fill [] k h = take_of_drop-nil k s h
  fill (e ∷ es) k h =
      let (at, rest, _) = drop-cons k s e es h in
      let past = get_elem?-past (take k s) k (omega (arith, length-take k s)) in
      ap (λ l. stored_all l es) (stored-next (take k s) k e es (take-take k s) h (inl past))
      ∙ fill es (suc k) rest

  -- Storing the entries of one log after a position in a log that matches it, and begins like it, gives one of
  -- the two, the other only where the log lacks an entry of it.
  pub stored_all-Matches :
      (es : List LogEntry) (k : ℕ) (log : List LogEntry)
      → Matches log s
      → take k log ≡ take k s
      → drop k s ≡ es
      → (stored_all log es ≡ log) ⊎ ((stored_all log es ≡ s) × Differs log s)
  unfolding stored_all stored
  stored_all-Matches [] k log m same h = inl refl
  stored_all-Matches (e ∷ es) k log m same h =
      let (at, rest, _) = drop-cons k s e es h in
      let index : k ≡ e.index = omega (arith, index-get_elem? 0 s k c at) in
      let cut : Lacks log k e → (stored_all log (e ∷ es) ≡ s) × Differs log s = λ lacks. (
        ap (λ l. stored_all l es) (stored-next log k e es same h lacks) ∙ fill es (suc k) rest,
        record { position = k; entry = e; there = at; lacks = lacks },
      ) in
      elim (Option-cases (get_elem? log k)) [
        | inl past ↦ inr (cut (inl past))
        | inr (x, there) ↦ elim (Bool-cases (x.term == e.term)) [
          | inr differs ↦ inr (cut (inr (x, there, differs)))
          | inl equal ↦
              let term : x.term ≡ e.term = (==_iff x.term e.term).0 equal in
              let here : get_elem? log e.index ≡ some x = ap (get_elem? log) (sym index) ∙ there in
              rw (here, equal)
                (stored_all-Matches es (suc k) log m (m.upto k x e there at term) rest)
        ]
      ]
