-- ===== src/Prelude/Int.antt =====
-- Signed integers over the native numbers, for the source's sentinels and comparison results.
use Prim.Native.Nat.{ℕ, suc, ◌+◌, ◌-◌}
use mathlib.Core.Bool.{Bool, true, false}
use transmission_ui.Prelude.Tests.{leb, if◌then◌else◌}

-- `negsuc n` is -(n + 1).
pub data ℤ : Type 0 where
  pos : ℕ → ℤ
  negsuc : ℕ → ℤ

abbrev pub is_negative : ℤ → Bool
is_negative (pos n) = false
is_negative (negsuc n) = true

abbrev pub is_zero : ℤ → Bool
is_zero (pos n) = leb n 0
is_zero (negsuc n) = false

abbrev pub neg : ℤ → ℤ
neg (pos n) = if leb n 0 then pos 0 else negsuc (n - 1)
neg (negsuc n) = pos (suc n)

-- `a - b` of two numbers.
abbrev pub sub_ℕ : ℕ → ℕ → ℤ
sub_ℕ a b = if leb b a then pos (a - b) else negsuc (b - a - 1)

-- `a + b` and `a - b` of an integer and a number.
abbrev pub plus_ℕ : ℤ → ℕ → ℤ
plus_ℕ (pos n) m = pos (n + m)
plus_ℕ (negsuc n) m = sub_ℕ m (suc n)

abbrev pub minus_ℕ : ℤ → ℕ → ℤ
minus_ℕ (pos n) m = sub_ℕ n m
minus_ℕ (negsuc n) m = negsuc (n + m)

-- `a <= b`
abbrev pub le_int : ℤ → ℤ → Bool
le_int (pos n) (pos m) = leb n m
le_int (pos n) (negsuc m) = false
le_int (negsuc n) (pos m) = true
le_int (negsuc n) (negsuc m) = leb m n
