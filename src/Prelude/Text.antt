-- ===== src/Prelude/Text.antt =====
-- `Display` of the unsigned integers, for the texts that `format!` builds.
use Prim.Native.Nat.{ℕ, zero, suc, ◌/◌, ◌%◌}
use Prim.Native.String.{String, ◌++◌}
use mathlib.Core.Path.{◌≡◌, refl}
use distributed_sys_lab.Prelude.Tests.{ltb, ◌==◌, if◌then◌else◌}

digit : ℕ → String
digit d =
    if d == 0
    then "0"
    else if d == 1
    then "1"
    else if d == 2
    then "2"
    else if d == 3
    then "3"
    else if d == 4
    then "4"
    else if d == 5
    then "5"
    else if d == 6
    then "6"
    else if d == 7
    then "7"
    else if d == 8
    then "8"
    else "9"

-- The digits of `n` in front of `out`; `n` has at most `fuel` digits.
show_digits : ℕ → ℕ → String → String
unfolding digit
show_digits zero n out = out
show_digits (suc fuel) n out =
    let rest = show_digits fuel (n / 10) (digit (n % 10) ++ out) in
    if ltb n 10 then digit n ++ out else rest

-- A `u64` has at most 20 digits.
unfoldable pub show_u64 : ℕ → String
unfolding show_digits
show_u64 n = show_digits 20 n ""

show_u64-max : show_u64 18446744073709551615 ≡ "18446744073709551615"
unfolding show_u64
show_u64-max = refl

show_u64-zero : show_u64 0 ≡ "0"
unfolding show_u64
show_u64-zero = refl
