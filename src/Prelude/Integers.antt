-- ===== src/Prelude/Integers.antt =====
-- Signed integers over the native numbers: `int` and `int64` of Go, as far as the relay compares them.
use Prim.Native.Nat.{ℕ}
use mathlib.Core.Path.{◌≡◌, ap}
use mathlib.Core.Bool.{Bool, true, false}
use native.Mathlib.Omega.{arith}
use distributed_sys_lab.Prelude.Tests.{◌==◌}

pub data ℤ : Type 0 where
  pos : ℕ → ℤ
  negsuc : ℕ → ℤ

-- `==`
unfoldable pub int_eq : ℤ → ℤ → Bool
int_eq (pos a) (pos b) = a == b
int_eq (negsuc a) (negsuc b) = a == b
int_eq (pos _) (negsuc _) = false
int_eq (negsuc _) (pos _) = false

pub int_eq_sound : (a b : ℤ) → int_eq a b ≡ true → a ≡ b
unfolding int_eq
int_eq_sound (pos a) (pos b) h = ap pos (ground arith)
int_eq_sound (negsuc a) (negsuc b) h = ap negsuc (ground arith)
int_eq_sound (pos _) (negsuc _) h = cc
int_eq_sound (negsuc _) (pos _) h = cc
