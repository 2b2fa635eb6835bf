-- ===== src/Prelude/Sort/Median.antt =====
-- How many elements of a list reach a value, and what stands at a position of the sorted list.
use Prim.Native.Nat.{ℕ, zero, suc, ◌+◌, ◌-◌, ◌≤◌, ◌<◌}
use mathlib.Core.Path.{◌≡◌, refl}
use mathlib.Core.List.{List, [], ◌∷◌}
use mathlib.Core.Option.{some}
use native.Mathlib.Omega.{arith}
use distributed_sys_lab.Prelude.Tests.{leb, if◌then◌else◌}
use distributed_sys_lab.Prelude.Lists.{length, get_elem?}
use distributed_sys_lab.Prelude.Sort.{insert_sorted, sort}

-- The number of elements that are at least `t`.
unfoldable pub count_ge : ℕ → List ℕ → ℕ
count_ge t [] = 0
count_ge t (x ∷ xs) = (if leb t x then 1 else 0) + count_ge t xs

abbrev AllGe : ℕ → List ℕ → Type 0
AllGe a [] = Unit
AllGe a (x ∷ xs) = (a ≤ x) × AllGe a xs

abbrev IsSorted : List ℕ → Type 0
IsSorted [] = Unit
IsSorted (x ∷ xs) = AllGe x xs × IsSorted xs

AllGe-mono : (a b : ℕ) (xs : List ℕ) → a ≤ b → AllGe b xs → AllGe a xs
AllGe-mono a b [] h g = tt
AllGe-mono a b (x ∷ xs) h g = (omega arith, AllGe-mono a b xs h g.1)

insert_sorted-AllGe : (a b : ℕ) (xs : List ℕ) → a ≤ b → AllGe a xs → AllGe a (insert_sorted b xs)
unfolding insert_sorted
insert_sorted-AllGe a b [] h g = (h, tt)
insert_sorted-AllGe a b (x ∷ xs) h g = ground (arith, insert_sorted-AllGe a b xs h)

insert_sorted-IsSorted : (a : ℕ) (xs : List ℕ) → IsSorted xs → IsSorted (insert_sorted a xs)
unfolding insert_sorted
insert_sorted-IsSorted a [] s = (tt, tt)
insert_sorted-IsSorted a (x ∷ xs) s =
    ground (arith, AllGe-mono a x xs, insert_sorted-AllGe x a xs, insert_sorted-IsSorted a xs s.1)

sort-IsSorted : (xs : List ℕ) → IsSorted (sort xs)
unfolding sort
sort-IsSorted [] = tt
sort-IsSorted (x ∷ xs) = insert_sorted-IsSorted x (sort xs) (sort-IsSorted xs)

count_ge-insert_sorted :
    (t a : ℕ) (xs : List ℕ) → count_ge t (insert_sorted a xs) ≡ count_ge t (a ∷ xs)
unfolding insert_sorted count_ge
count_ge-insert_sorted t a [] = refl
count_ge-insert_sorted t a (x ∷ xs) = ground (arith, count_ge-insert_sorted t a xs)

pub count_ge-sort : (t : ℕ) (xs : List ℕ) → count_ge t (sort xs) ≡ count_ge t xs
unfolding sort count_ge
count_ge-sort t [] = refl
count_ge-sort t (x ∷ xs) = omega (arith, count_ge-insert_sorted t x (sort xs), count_ge-sort t xs)

length-insert_sorted : (a : ℕ) (xs : List ℕ) → length (insert_sorted a xs) ≡ suc (length xs)
unfolding insert_sorted
length-insert_sorted a [] = refl
length-insert_sorted a (x ∷ xs) = ground (arith, length-insert_sorted a xs)

pub length-sort : (xs : List ℕ) → length (sort xs) ≡ length xs
unfolding sort
length-sort [] = refl
length-sort (x ∷ xs) = omega (arith, length-insert_sorted x (sort xs), length-sort xs)

count_ge-AllGe : (a : ℕ) (xs : List ℕ) → AllGe a xs → count_ge a xs ≡ length xs
unfolding count_ge
count_ge-AllGe a [] g = refl
count_ge-AllGe a (x ∷ xs) g = ground (arith, count_ge-AllGe a xs)

count_ge-le : (t : ℕ) (xs : List ℕ) → count_ge t xs ≤ length xs
unfolding count_ge
count_ge-le t [] = omega arith
count_ge-le t (x ∷ xs) = ground (arith, count_ge-le t xs)

AllGe-get_elem? :
    (a : ℕ) (xs : List ℕ) (i : ℕ) {v : ℕ} → AllGe a xs → get_elem? xs i ≡ some v → a ≤ v
AllGe-get_elem? a [] i g h = cc
AllGe-get_elem? a (x ∷ xs) zero g h = ground arith
AllGe-get_elem? a (x ∷ xs) (suc i) g h = AllGe-get_elem? a xs i g.1 h

at_least :
    (ys : List ℕ) (i v : ℕ) → IsSorted ys → get_elem? ys i ≡ some v → length ys ≤ count_ge v ys + i
unfolding count_ge
at_least [] i v s h = cc
at_least (x ∷ xs) zero v s h =
    ground (arith, count_ge-AllGe v xs (AllGe-mono v x xs (ground arith) s.0))
at_least (x ∷ xs) (suc i) v s h = ground (arith, at_least xs i v s.1 h)

at_most :
    (ys : List ℕ) (i v t : ℕ)
    → IsSorted ys
    → get_elem? ys i ≡ some v
    → v < t
    → count_ge t ys + i < length ys
unfolding count_ge
at_most [] i v t s h lt = cc
at_most (x ∷ xs) zero v t s h lt = ground (arith, count_ge-le t xs)
at_most (x ∷ xs) (suc i) v t s h lt =
    ground (arith, at_most xs i v t s.1 h lt, AllGe-get_elem? x xs i s.0 h)

-- The element `m` places before the end of the sorted list is the greatest value that at least `m`
-- elements reach.
pub get_elem?-sort :
    (xs : List ℕ) (m v : ℕ)
    → 0 < m
    → m ≤ length xs
    → get_elem? (sort xs) (length (sort xs) - m) ≡ some v
    → (m ≤ count_ge v xs) × ((t : ℕ) → v < t → count_ge t xs < m)
get_elem?-sort xs m v pos fits h =
    let i = length (sort xs) - m in
    let long = length-sort xs in
    (
      omega (arith, at_least (sort xs) i v (sort-IsSorted xs) h, count_ge-sort v xs),
      λ t lt. omega (arith, at_most (sort xs) i v t (sort-IsSorted xs) h lt, count_ge-sort t xs),
    )
