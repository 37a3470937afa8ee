-- ===== src/Base/Word.antt =====
-- Go's `int` and `int64` on a 64-bit target: a bit pattern below 2 ^ 64, read in two's complement.
-- A pattern below 2 ^ 63 stands for itself; 2 ^ 64 - n stands for -n.
use Prim.Native.Nat.{ℕ, ◌+◌, ◌-◌, ◌*◌, ◌%◌, ◌^◌, ◌≤◌, ◌<◌}
use mathlib.Core.Path.{◌≡◌}
use mathlib.Core.Bool.{Bool, not}
use native.Mathlib.Omega.{arith}
use snake_42tokyo_tuning.Base.Test.{ltb, leb}

abbrev pub int_min : ℕ
int_min = 2 ^ 63

abbrev pub int_mod : ℕ
int_mod = 2 ^ 64

unfoldable pub add_int : ℕ → ℕ → ℕ
add_int a b = (a + b) % int_mod

unfoldable pub sub_int : ℕ → ℕ → ℕ
sub_int a b = (a + int_mod - b) % int_mod

unfoldable pub mul_int : ℕ → ℕ → ℕ
mul_int a b = a * b % int_mod

-- `a < b` on signed values: the order of the patterns with the sign bit flipped.
unfoldable pub lt_int : ℕ → ℕ → Bool
lt_int a b = ltb ((a + int_min) % int_mod) ((b + int_min) % int_mod)

unfoldable pub le_int : ℕ → ℕ → Bool
unfolding lt_int
le_int a b = not (lt_int b a)

pub add_int_small : (a b : ℕ) → a + b < int_min → add_int a b ≡ a + b
unfolding add_int
add_int_small a b h = omega arith

pub sub_int_small : (a b : ℕ) → b ≤ a → a < int_min → sub_int a b ≡ a - b
unfolding sub_int
sub_int_small a b h k = omega arith

pub mul_int_small : (a b : ℕ) → a * b < int_mod → mul_int a b ≡ a * b
unfolding mul_int
mul_int_small a b h = omega arith

pub lt_int_small : (a b : ℕ) → a < int_min → b < int_min → lt_int a b ≡ ltb a b
unfolding lt_int
lt_int_small a b h k = ground arith

pub le_int_small : (a b : ℕ) → a < int_min → b < int_min → le_int a b ≡ leb a b
unfolding le_int lt_int
le_int_small a b h k = ground arith
