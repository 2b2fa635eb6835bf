-- ===== src/Node/Log.antt =====
-- Logs in which every entry stands at its own index, and lists of entries that follow one another:
-- the shape that mini-raft/raft-rust/src/node.rs relies on when it reads `self.log[index]`.
use mathlib.Core.List.{get_last, cons-ne-nil}
use distributed_sys_lab.Prelude.{
  ℕ, zero, suc, ◌+◌, ◌-◌, ◌<◌, ◌≡◌, refl, some, List, [], ◌∷◌, arith, length, get_elem?, get_last?,
  take, drop, ◌<+◌, get_last?-get_elem?, length-append,
}
use distributed_sys_lab.Protocol.{LogEntry}
use distributed_sys_lab.Node.{last_index_or_zero}

-- The entries have the indices k, k + 1, and so on.
abbrev pub Contiguous : ℕ → List LogEntry → Type 0
Contiguous k [] = Unit
Contiguous k (e ∷ es) = (e.index ≡ k) × Contiguous (suc k) es

-- From position k on, the log has entries of the same terms as the list.
abbrev pub Agrees : List LogEntry → ℕ → List LogEntry → Type 0
Agrees log k [] = Unit
Agrees log k (e ∷ es) =
    ((x : LogEntry) × (get_elem? log k ≡ some x) × (x.term ≡ e.term)) × Agrees log (suc k) es

-- The shape of a node's log: it starts with a sentinel and every entry stands at its index.
pub record IsLog (log : List LogEntry) : Type 0 where
  pub nonempty : 0 < length log
  pub contiguous : Contiguous 0 log

pub index-get_elem? :
    (k : ℕ) (xs : List LogEntry) (i : ℕ) {x : LogEntry}
    → Contiguous k xs
    → get_elem? xs i ≡ some x
    → x.index ≡ k + i
index-get_elem? k [] i c h = cc
index-get_elem? k (e ∷ es) zero c h = ground arith
index-get_elem? k (e ∷ es) (suc i) c h = omega (arith, index-get_elem? (suc k) es i c.1 h)

pub take-Contiguous : (n k : ℕ) (xs : List LogEntry) → Contiguous k xs → Contiguous k (take n xs)
take-Contiguous zero k xs c = tt
take-Contiguous (suc n) k [] c = tt
take-Contiguous (suc n) k (e ∷ es) c = (c.0, take-Contiguous n (suc k) es c.1)

pub drop-Contiguous :
    (n k : ℕ) (xs : List LogEntry) → Contiguous k xs → Contiguous (n + k) (drop n xs)
drop-Contiguous zero k xs c = let e : 0 + k ≡ k = omega arith in rw e c
drop-Contiguous (suc n) k [] c = tt
drop-Contiguous (suc n) k (e ∷ es) c =
    let e : suc n + k ≡ n + suc k = omega arith in rw e (drop-Contiguous n (suc k) es c.1)

pub push-Contiguous :
    (k : ℕ) (xs : List LogEntry) (e : LogEntry)
    → Contiguous k xs
    → e.index ≡ k + length xs
    → Contiguous k (xs <+ e)
push-Contiguous k [] e c h = (omega arith, tt)
push-Contiguous k (x ∷ xs) e c h = (c.0, push-Contiguous (suc k) xs e c.1 (omega arith))

-- The last entry of a log stands at the last position.
pub get_last?-IsLog :
    (log : List LogEntry)
    → IsLog log
    → (e : LogEntry) × (get_last? log ≡ some e)
      × (e.index + 1 ≡ length log)
      × (get_elem? log (length log - 1) ≡ some e)
get_last?-IsLog [] v = absurd (omega arith)
get_last?-IsLog (x ∷ xs) v =
    let at_end = get_last?-get_elem? xs x in
    let pred_length : suc (length xs) - 1 ≡ length xs = omega arith in
    (
      get_last (x ∷ xs) (cons-ne-nil x xs),
      refl,
      omega (arith, index-get_elem? 0 (x ∷ xs) (length xs) v.contiguous at_end),
      rw pred_length at_end,
    )

pub last_index_or_zero-IsLog :
    (log : List LogEntry) → IsLog log → last_index_or_zero log + 1 ≡ length log
unfolding last_index_or_zero
last_index_or_zero-IsLog log v =
    let (e, last, index, _) = get_last?-IsLog log v in rw (last, last_index_or_zero) index

pub push-IsLog :
    (log : List LogEntry) (e : LogEntry) → IsLog log → e.index ≡ length log → IsLog (log <+ e)
push-IsLog log e v h = record {
  nonempty = omega (arith, length-append log (e ∷ []));
  contiguous = push-Contiguous 0 log e v.contiguous (omega arith);
}
