-- ===== src/Prelude/Panics.antt =====
-- Code that may panic: `unwrap` on `None`, an index out of bounds, and `+` on `u64`, which a debug
-- build checks (the build that `mini-raft/orchestrator.go` makes by `cargo build`).
use Prim.Native.Nat.{ℕ, ◌+◌, ◌^◌, ◌<◌}
use mathlib.Core.Path.{◌≡◌, refl, ap, ◌∙◌}
use mathlib.Core.Logic.{◌≢◌}
use mathlib.Core.Option.{Option, none, some}
use native.Mathlib.Omega.{arith}
use distributed_sys_lab.Prelude.Tests.{ltb, if◌then◌else◌}

pub data Outcome {ℓ} (A : Type ℓ) : Type ℓ where
  ok : A → Outcome A
  panic : Outcome A

infixl 5 ◌>>=◌
abbrev pub ◌>>=◌ {ℓ κ} : {A : Type ℓ} {B : Type κ} → Outcome A → (A → Outcome B) → Outcome B
panic >>= next = panic
ok value >>= next = next value

abbrev pub unwrap {ℓ} : {A : Type ℓ} → Option A → Outcome A
unwrap (some a) = ok a
unwrap none = panic

abbrev pub u64_limit : ℕ
u64_limit = 2 ^ 64

-- `a + b` on `u64`
abbrev pub add_u64 : ℕ → ℕ → Outcome ℕ
add_u64 a b = if ltb (a + b) u64_limit then ok (a + b) else panic

-- Inversion of a bind that did not panic.
pub >>=-eq-ok {ℓ κ} :
    {A : Type ℓ} {B : Type κ} (first : Outcome A) (next : A → Outcome B) {result : B}
    → (first >>= next) ≡ ok result
    → (value : A) × (first ≡ ok value) × (next value ≡ ok result)
>>=-eq-ok panic next done = cc
>>=-eq-ok (ok value) next done = (value, refl, done)

-- A bind of a value.
pub bind_ok {ℓ κ} :
    {A : Type ℓ} {B : Type κ} (first : Outcome A) (next : A → Outcome B) {value : A}
    {result : Outcome B}
    → first ≡ ok value
    → next value ≡ result
    → (first >>= next) ≡ result
bind_ok first next done rest = ap (λ o. o >>= next) done ∙ rest

pub ok-injective {ℓ} : {A : Type ℓ} {a b : A} → Outcome.ok a ≡ ok b → a ≡ b
ok-injective h = cc

pub unwrap-eq-ok {ℓ} : {A : Type ℓ} (o : Option A) {a : A} → unwrap o ≡ ok a → o ≡ some a
unwrap-eq-ok none h = cc
unwrap-eq-ok (some x) h = cc

pub add_u64-eq-ok : (a b : ℕ) {c : ℕ} → add_u64 a b ≡ ok c → (c ≡ a + b) × (a + b < u64_limit)
add_u64-eq-ok a b h = ground arith

pub add_u64_of_lt : (a b : ℕ) → a + b < u64_limit → add_u64 a b ≡ ok (a + b)
add_u64_of_lt a b h = ground arith

pub panic≢ok {ℓ} : {A : Type ℓ} {a : A} → Outcome.panic ≢ ok a
panic≢ok h = cc
