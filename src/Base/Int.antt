-- ===== src/Base/Int.antt =====
-- The type `int` of 32 bits: each value as its word in two's complement, `n` below 2 ^ 31 for itself
-- and `2 ^ 32 - n` for `- n`. Where the source overflows an `int`, the word wraps around.
use Prim.Native.Nat.{ℕ, ◌+◌, ◌-◌, ◌/◌, ◌%◌, ◌^◌, ◌≤◌, ◌<◌}
use mathlib.Core.Path.{◌≡◌}
use mathlib.Core.Bool.{Bool, true, false}
use native.Mathlib.Omega.{arith}
use allocator_builder.Base.Tests.{leb, if◌then◌else◌}

abbrev pub int_mod : ℕ
int_mod = 2 ^ 32

abbrev pub int_max : ℕ
int_max = 2 ^ 31 - 1

-- `static_cast<int>`
abbrev pub int_of : ℕ → ℕ
int_of n = n % int_mod

abbrev pub sub_int : ℕ → ℕ → ℕ
sub_int a b = (a + int_mod - b) % int_mod

abbrev pub leb_int : ℕ → ℕ → Bool
leb_int a b = leb ((a + int_max + 1) % int_mod) ((b + int_max + 1) % int_mod)

-- An `int` as a `size_t`
abbrev pub word_of : ℕ → ℕ
word_of a = if leb a int_max then a else a + 2 ^ 64 - int_mod

-- `/` and `%` by a positive number, which round to zero
abbrev pub div_int : ℕ → ℕ → ℕ
div_int a b = if leb a int_max then a / b else sub_int 0 ((int_mod - a) / b)

abbrev pub rem_int : ℕ → ℕ → ℕ
rem_int a b = if leb a int_max then a % b else sub_int 0 ((int_mod - a) % b)

pub int_of_small : (n : ℕ) → n ≤ int_max → int_of n ≡ n
int_of_small n small = omega arith

pub sub_int_small : (a b : ℕ) → b ≤ a → a ≤ int_max → sub_int a b ≡ a - b
sub_int_small a b less small = omega arith

pub word_of_small : (a : ℕ) → a ≤ int_max → word_of a ≡ a
word_of_small a small = ground arith

pub div_int_small : (a b : ℕ) → a ≤ int_max → div_int a b ≡ a / b
div_int_small a b small = ground arith

pub rem_int_small : (a b : ℕ) → a ≤ int_max → rem_int a b ≡ a % b
rem_int_small a b small = ground arith

pub leb_int_le : (a b : ℕ) → a ≤ b → b ≤ int_max → leb_int a b ≡ true
leb_int_le a b less small = ground arith

pub leb_int_gt : (a b : ℕ) → b < a → a ≤ int_max → leb_int a b ≡ false
leb_int_gt a b more small = ground arith
