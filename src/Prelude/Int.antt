-- ===== src/Prelude/Int.antt =====
-- Signed integers, under the library's names.
use Prim.Native.Nat.{ℕ, ◌+◌, ◌/◌, ◌-◌, ◌%◌, ◌^◌}
use mathlib.Core.Logic.{◌↔◌}
use auto_fastlio.Prelude.Tests.{◌==◌, if◌then◌else◌, ltb}
use mathlib.Core.Path.{◌≡◌}
use native.Mathlib.Omega.{arith}
use mathlib.Core.Bool.{Bool, true, false}

-- `negsuc n` is -(n + 1).
pub data ℤ : Type 0 where
  pos : ℕ → ℤ
  negsuc : ℕ → ℤ

-- -1, the mark of a setting that the configuration leaves out.
abbrev pub minus_one : ℤ
minus_one = negsuc 0

abbrev pub is_minus_one : ℤ → Bool
is_minus_one (pos n) = false
is_minus_one (negsuc n) = n == 0

abbrev pub is_zero : ℤ → Bool
is_zero (pos n) = n == 0
is_zero (negsuc n) = false

-- `i / n` of C++, which drops the fraction towards 0.
unfoldable pub quot : ℤ → ℕ → ℤ
quot (pos a) n = pos (a / n)
quot (negsuc a) n = if (a + 1) / n == 0 then pos 0 else negsuc ((a + 1) / n - 1)

abbrev pub int_eq : ℤ → ℤ → Bool
int_eq (pos a) (pos b) = a == b
int_eq (pos a) (negsuc b) = false
int_eq (negsuc a) (pos b) = false
int_eq (negsuc a) (negsuc b) = a == b

pub int_eq_refl : (a : ℤ) → int_eq a a ≡ true
int_eq_refl (pos a) = ground arith
int_eq_refl (negsuc a) = ground arith

abbrev pub at_least_zero : ℤ → Bool
at_least_zero (pos n) = true
at_least_zero (negsuc n) = false

abbrev pub int_lt : ℤ → ℤ → Bool
int_lt (pos a) (pos b) = ltb a b
int_lt (pos a) (negsuc b) = false
int_lt (negsuc a) (pos b) = true
int_lt (negsuc a) (negsuc b) = ltb b a

-- The casts between int32_t and uint32_t.
abbrev pub u32_of_int : ℤ → ℕ
u32_of_int (pos n) = n % 2 ^ 32
u32_of_int (negsuc n) = (2 ^ 32 - (n + 1) % 2 ^ 32) % 2 ^ 32

abbrev pub int_of_u32 : ℕ → ℤ
int_of_u32 n = if ltb n (2 ^ 31) then pos n else negsuc (2 ^ 32 - 1 - n)

pub int_eq_iff : (a b : ℤ) → (int_eq a b ≡ true) ↔ (a ≡ b)
int_eq_iff (pos a) (pos b) = ground arith
int_eq_iff (pos a) (negsuc b) = ground arith
int_eq_iff (negsuc a) (pos b) = ground arith
int_eq_iff (negsuc a) (negsuc b) = ground arith

abbrev pub u64_of_int : ℤ → ℕ
u64_of_int (pos n) = n % 2 ^ 64
u64_of_int (negsuc n) = (2 ^ 64 - (n + 1) % 2 ^ 64) % 2 ^ 64

-- The cast to int8_t, and that to uint8_t.
abbrev pub int8_of : ℤ → ℤ
int8_of i =
    if ltb (u32_of_int i % 256) 128
    then pos (u32_of_int i % 256)
    else negsuc (255 - u32_of_int i % 256)

abbrev pub uint8_of : ℤ → ℕ
uint8_of i = u32_of_int i % 256
