-- ===== src/Prelude/Maps.antt =====
-- Maps from strings (`HashMap`, and `map` of Go) as association lists, and `HashSet<String>` as a list without
-- repetitions.
use Prim.Native.Nat.{ℕ}
use Prim.Native.String.{String}
use mathlib.Core.Path.{◌≡◌, refl}
use mathlib.Core.Bool.{Bool, false, ◌||◌}
use mathlib.Core.Option.{Option, none, some}
use mathlib.Core.List.{List, [], ◌∷◌}
use native.Mathlib.Omega.{arith}
use text.Mathlib.Text.{◌==◌ as str_eq}
use text.Mathlib.TextEquality.{eq_iff}
use distributed_sys_lab.Prelude.Tests.{if◌then◌else◌}

abbrev pub Table {ℓ} : Type ℓ → Type ℓ
Table A = List (String × A)

abbrev pub Dict : Type 0
Dict = Table ℕ

-- `HashMap::get`
unfoldable pub lookup {ℓ} : {A : Type ℓ} → String → Table A → Option A
lookup key [] = none
lookup key ((other, value) ∷ rest) =
    let later = lookup key rest in if str_eq other key then some value else later

-- `HashMap::insert`, which replaces the value of a key that is there
unfoldable pub insert {ℓ} : {A : Type ℓ} → String → A → Table A → Table A
insert key value [] = (key, value) ∷ []
insert key value ((other, old) ∷ rest) =
    let later = insert key value rest in
    if str_eq other key then (key, value) ∷ rest else (other, old) ∷ later

abbrev pub values : Dict → List ℕ
values [] = []
values ((k, v) ∷ m) = v ∷ values m

pub lookup-insert {ℓ} :
    {A : Type ℓ} (key asked : String) (value : A) (m : Table A)
    → lookup asked (insert key value m) ≡ (if str_eq key asked then some value else lookup asked m)
unfolding lookup insert
lookup-insert key asked value [] = refl
lookup-insert key asked value ((other, old) ∷ rest) = ground (
  arith,
  eq_iff key asked,
  eq_iff other key,
  eq_iff other asked,
  lookup-insert key asked value rest,
)

-- `HashSet::contains`
unfoldable pub contains : List String → String → Bool
contains [] a = false
contains (x ∷ xs) a = str_eq x a || contains xs a

-- `HashSet::insert`
unfoldable pub add : String → List String → List String
unfolding contains
add a xs = if contains xs a then xs else a ∷ xs
