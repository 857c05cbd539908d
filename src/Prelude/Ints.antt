-- ===== src/Prelude/Ints.antt =====
-- Signed integers over the native numbers.
use Prim.Native.Nat.{ℕ, ◌-◌, ◌%◌, ◌^◌}
use mathlib.Core.Bool.{Bool, true, false}
use sweater.Prelude.Tests.{ltb, leb, ◌==◌, if◌then◌else◌}

pub data ℤ : Type 0 where
  pos : ℕ → ℤ
  negsuc : ℕ → ℤ

abbrev pub minus_one : ℤ
minus_one = negsuc 0

abbrev pub is_positive : ℤ → Bool
is_positive (pos n) = ltb 0 n
is_positive (negsuc n) = false

abbrev pub is_minus_one : ℤ → Bool
is_minus_one (pos n) = false
is_minus_one (negsuc n) = n == 0

abbrev pub le_int : ℤ → ℤ → Bool
le_int (pos m) (pos n) = leb m n
le_int (pos m) (negsuc n) = false
le_int (negsuc m) (pos n) = true
le_int (negsuc m) (negsuc n) = leb n m

abbrev pub min_int : ℤ → ℤ → ℤ
min_int a b = if le_int a b then a else b

abbrev pub max_int : ℤ → ℤ → ℤ
max_int a b = if le_int a b then b else a

-- A cast to the 32-bit `int` keeps the low 32 bits, read in two's complement.
abbrev pub of_bits : ℕ → ℤ
of_bits w = if ltb w (2 ^ 31) then pos w else negsuc (2 ^ 32 - 1 - w)

abbrev pub cast_int : ℤ → ℤ
cast_int (pos n) = of_bits (n % 2 ^ 32)
cast_int (negsuc n) = of_bits (2 ^ 32 - 1 - n % 2 ^ 32)
