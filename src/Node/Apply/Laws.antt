-- ===== src/Node/Apply/Laws.antt =====
-- What the apply loop of mini-raft/raft-rust/src/node.rs does to the node and which entries it hands
-- to the state machine.
use mathlib.Core.List.{append_assoc, append-nil}
use distributed_sys_lab.Prelude.{
  ap, ◌∙◌, ℕ, zero, suc, ◌+◌, ◌-◌, ◌≤◌, ◌<◌, max, lt→ltb, String, ◌≡◌, refl, Option, none, some,
  List, [], ◌∷◌, ◌++◌, arith, inl, inr, Option-cases, length, get_elem?, take, drop, get_elem?-ge,
}
use distributed_sys_lab.Protocol.{LogEntry, SideEffect, apply_entry}
use distributed_sys_lab.Node.{RaftNode, build_log_event}
use distributed_sys_lab.Node.Apply.{apply_effects, apply_loop, apply_committed}

-- The entries that a list of effects hands to the state machine, in order.
unfoldable pub applied : List SideEffect → List (ℕ × String)
applied [] = []
applied (apply_entry index command ∷ fx) = (index, command) ∷ applied fx
applied (_ ∷ fx) = applied fx

pub applied-append : (xs ys : List SideEffect) → applied (xs ++ ys) ≡ applied xs ++ applied ys
unfolding applied
applied-append [] ys = refl
applied-append (apply_entry index command ∷ fx) ys = rw (applied-append fx ys)
applied-append (_ ∷ fx) ys = applied-append fx ys

-- The commands of some entries, numbered from an index.
unfoldable pub numbered : ℕ → List LogEntry → List (ℕ × String)
numbered i [] = []
numbered i (e ∷ es) = (i, e.command) ∷ numbered (i + 1) es

apply_loop-node :
    (fuel : ℕ) (n : RaftNode) (fx : List SideEffect)
    → n.committed_index - n.last_applied ≤ fuel
    → (apply_loop fuel n fx).0 ≡ record n { last_applied = max n.last_applied n.committed_index }
unfolding apply_loop
apply_loop-node zero n fx h = ground arith
apply_loop-node (suc fuel) n fx h = ground (
  arith,
  apply_loop-node fuel (record n { last_applied = n.last_applied + 1 })
      (apply_effects (record n { last_applied = n.last_applied + 1 })
        (get_elem? n.log (n.last_applied + 1)) fx),
)

-- The loop ends with its test false, after at most `committed_index - last_applied` rounds, and
-- leaves everything but `last_applied` alone.
pub apply_committed-node :
    (n : RaftNode) (fx : List SideEffect)
    → (apply_committed n fx).0 ≡ record n { last_applied = max n.last_applied n.committed_index }
unfolding apply_committed
apply_committed-node n fx = apply_loop-node _ n fx (omega arith)

-- What one round hands over: the entry, or nothing past the end of the log.
abbrev one_applied : ℕ → Option LogEntry → List (ℕ × String)
one_applied i none = []
one_applied i (some e) = (i, e.command) ∷ []

applied-apply_effects :
    (n : RaftNode) (o : Option LogEntry) (fx : List SideEffect)
    → applied (apply_effects n o fx) ≡ applied fx ++ one_applied n.last_applied o
unfolding applied apply_effects build_log_event
applied-apply_effects n none fx = rw append-nil
applied-apply_effects n (some e) fx = simp (applied-append, append_assoc, append-nil)

drop-get_elem? :
    {A : Type 0} (k : ℕ) (xs : List A) {x : A}
    → get_elem? xs k ≡ some x
    → drop k xs ≡ x ∷ drop (suc k) xs
drop-get_elem? k [] h = cc
drop-get_elem? zero (y ∷ xs) h = ground arith
drop-get_elem? (suc k) (y ∷ xs) h = drop-get_elem? k xs h

drop-ge : {A : Type 0} (k : ℕ) (xs : List A) → length xs ≤ k → drop k xs ≡ []
drop-ge zero [] h = refl
drop-ge (suc k) [] h = refl
drop-ge zero (y ∷ xs) h = absurd (omega arith)
drop-ge (suc k) (y ∷ xs) h = drop-ge k xs (omega arith)

numbered-drop :
    (log : List LogEntry) (k fuel : ℕ)
    → one_applied k (get_elem? log k) ++ numbered (k + 1) (take fuel (drop (suc k) log))
      ≡ numbered k (take (suc fuel) (drop k log))
unfolding numbered
numbered-drop log k fuel = elim (Option-cases (get_elem? log k)) [
  | inl e ↦
      let short = get_elem?-ge log k e in
      rw (e, drop-ge k log short, drop-ge (suc k) log (omega arith)) (take-nil fuel)
  | inr (x, e) ↦ rw (e, drop-get_elem? k log e)
]
  where
    take-nil : (m : ℕ) → numbered (k + 1) (take m []) ≡ []
    take-nil zero = refl
    take-nil (suc m) = refl

one_applied-numbered :
    (log : List LogEntry) (k fuel : ℕ)
    → one_applied k (get_elem? log k) ++ numbered (k + 1) (take fuel (drop (k + 1) log))
      ≡ numbered k (take (suc fuel) (drop k log))
one_applied-numbered log k fuel =
    let e : k + 1 ≡ suc k = omega arith in
    ap (λ m. one_applied k (get_elem? log k) ++ numbered (k + 1) (take fuel (drop m log))) e
    ∙ numbered-drop log k fuel

apply_loop-step :
    (fuel : ℕ) (n : RaftNode) (fx : List SideEffect)
    → n.last_applied < n.committed_index
    → let n' = record n { last_applied = n.last_applied + 1 } in
      apply_loop (suc fuel) n fx
      ≡ apply_loop fuel n' (apply_effects n' (get_elem? n.log (n.last_applied + 1)) fx)
unfolding apply_loop
apply_loop-step fuel n fx h = rw (lt→ltb n.last_applied n.committed_index h)

apply_loop-applied :
    (fuel : ℕ) (n : RaftNode) (fx : List SideEffect)
    → n.committed_index - n.last_applied ≡ fuel
    → applied (apply_loop fuel n fx).1
      ≡ applied fx ++ numbered (n.last_applied + 1) (take fuel (drop (n.last_applied + 1) n.log))
apply_loop-applied zero n fx h = unfold apply_loop numbered in rw append-nil
apply_loop-applied (suc fuel) n fx h =
    let n' = record n { last_applied = n.last_applied + 1 } in
    let fx' = apply_effects n' (get_elem? n.log (n.last_applied + 1)) fx in
    rw
      (
        apply_loop-step fuel n fx (omega arith),
        apply_loop-applied fuel n' fx' (omega arith),
        applied-apply_effects n' (get_elem? n.log (n.last_applied + 1)) fx,
        append_assoc,
      )
      (ap (◌++◌ (applied fx)) (one_applied-numbered n.log (n.last_applied + 1) fuel))

-- Applying hands to the state machine exactly the log's entries above `last_applied` and up to
-- `committed_index`, each once, in log order and under its position.
pub apply_committed-applied :
    (n : RaftNode) (fx : List SideEffect)
    → applied (apply_committed n fx).1
      ≡ applied fx
        ++ numbered
            (n.last_applied + 1)
            (take (n.committed_index - n.last_applied) (drop (n.last_applied + 1) n.log))
unfolding apply_committed
apply_committed-applied n fx = apply_loop-applied _ n fx refl
