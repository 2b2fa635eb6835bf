-- ===== src/Prelude/Quorums.antt =====
-- Sets of names as lists without repetitions: two of them that are large in a third have a common member.
use Prim.Native.Nat.{◌+◌, ◌≤◌, ◌<◌}
use Prim.Native.String.{String}
use mathlib.Core.Path.{◌≡◌, ap}
use mathlib.Core.Logic.{◌≢◌, inl, inr}
use mathlib.Core.Bool.{true, false}
use mathlib.Core.List.{List, [], ◌∷◌}
use native.Mathlib.Omega.{arith}
use text.Mathlib.Text.{◌==◌ as str_eq}
use text.Mathlib.TextEquality.{eq_iff}
use distributed_sys_lab.Prelude.Tests.{if◌then◌else◌, Bool-cases}
use distributed_sys_lab.Prelude.Lists.{length}
use distributed_sys_lab.Prelude.Maps.{contains, add}

-- No name stands twice in the list.
abbrev pub Distinct : List String → Type 0
Distinct [] = Unit
Distinct (x ∷ xs) = (contains xs x ≡ false) × Distinct xs

abbrev pub Within : List String → List String → Type 0
Within xs ys = (a : String) → contains xs a ≡ true → contains ys a ≡ true

pub contains-add :
    (a b : String) (xs : List String)
    → contains (add a xs) b ≡ (if str_eq a b then true else contains xs b)
unfolding contains add
contains-add a b xs = ground (arith, eq_iff a b)

pub add-Distinct : (a : String) (xs : List String) → Distinct xs → Distinct (add a xs)
unfolding add
add-Distinct a xs d = elim (Bool-cases (contains xs a)) [
  | inl old ↦ rw old d
  | inr new ↦ rw new (new, d)
]

remove : String → List String → List String
remove a [] = []
remove a (x ∷ xs) = let rest = remove a xs in if str_eq x a then xs else x ∷ rest

length-remove :
    (a : String) (xs : List String) → contains xs a ≡ true → length (remove a xs) + 1 ≡ length xs
unfolding remove contains
length-remove a [] h = cc
length-remove a (x ∷ xs) h = ground (arith, length-remove a xs)

contains-remove :
    (a b : String) (xs : List String)
    → a ≢ b
    → contains xs b ≡ true
    → contains (remove a xs) b ≡ true
unfolding remove contains
contains-remove a b [] ne h = cc
contains-remove a b (x ∷ xs) ne h = ground (arith, eq_iff x a, eq_iff x b, contains-remove a b xs)

-- A name of the list that the other list, without it, still has.
Within-remove :
    (a : String) (xs ms : List String)
    → contains xs a ≡ false
    → Within xs ms
    → Within xs (remove a ms)
Within-remove a xs ms fresh w b h = contains-remove a b ms (λ e. cc (ap (contains xs) e)) (w b h)

Within-tail : (x : String) (xs ms : List String) → Within (x ∷ xs) ms → Within xs ms
unfolding contains
Within-tail x xs ms w b h = w b (ground (arith, h))

Within-head : (x : String) (xs ms : List String) → Within (x ∷ xs) ms → contains ms x ≡ true
unfolding contains
Within-head x xs ms w = w x (ground (arith, eq_iff x x))

pub length-le_of_Within : (xs ms : List String) → Distinct xs → Within xs ms → length xs ≤ length ms
length-le_of_Within [] ms d w = omega arith
length-le_of_Within (x ∷ xs) ms (fresh, d) w =
    let rest = Within-remove x xs ms fresh (Within-tail x xs ms w) in
    omega (
      arith,
      length-remove x ms (Within-head x xs ms w),
      length-le_of_Within xs (remove x ms) d rest,
    )

-- Two sets that are together larger than the set that holds both share a member.
pub common_member :
    (xs ys ms : List String)
    → Distinct xs
    → Distinct ys
    → Within xs ms
    → Within ys ms
    → length ms < length xs + length ys
    → (a : String) × (contains xs a ≡ true) × (contains ys a ≡ true)
unfolding contains
common_member [] ys ms d e v w h = absurd (omega (arith, length-le_of_Within ys ms e w))
common_member (x ∷ xs) ys ms (fresh, d) e v w h = elim (Bool-cases (contains ys x)) [
  | inl shared ↦ (x, ground (arith, eq_iff x x), shared)
  | inr new ↦
      let size = length-remove x ms (Within-head x xs ms v) in
      let (a, in_xs, in_ys) =
        common_member xs ys (remove x ms) d e (Within-remove x xs ms fresh (Within-tail x xs ms v))
          (Within-remove x ys ms new w) (omega (arith, size)) in
      (a, ground (arith, in_xs), in_ys)
]
