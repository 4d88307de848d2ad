-- ===== src/Base/Float.antt =====
-- `float64` by its IEEE 754 bit pattern: one sign bit, eleven of exponent, 52 of fraction. Sums are
-- rounded by the processor and enter as a parameter where the program adds.
use aws_cost_exporter.Base.Tests.{◌==◌, ltb, if◌then◌else◌}
use aws_cost_exporter.Base.Int.{ℤ, pos, ltb_ℤ, eqb_ℤ, sub_ℕ}
use Prim.Native.Nat.{ℕ, ◌%◌, ◌^◌}
use mathlib.Core.Bool.{Bool, ◌&&◌, ◌||◌, not}

abbrev pub Float64 : Type 0
Float64 = ℕ

abbrev pub magnitude : Float64 → ℕ
magnitude f = f % 2 ^ 63

abbrev pub infinity : ℕ
infinity = 0x7ff0_0000_0000_0000

-- `math.IsNaN`
unfoldable pub is_nan : Float64 → Bool
is_nan f = ltb infinity (magnitude f)

-- `math.IsInf(f, 0)`
unfoldable pub is_inf : Float64 → Bool
is_inf f = magnitude f == infinity

-- The order of the values is that of the magnitudes, turned round below zero; both zeros are 0.
abbrev pub rank : Float64 → ℤ
rank f = if ltb f (2 ^ 63) then pos (magnitude f) else sub_ℕ 0 (magnitude f)

-- `a == b` and `a < b` on floats: false where either is a NaN.
unfoldable pub float_eq : Float64 → Float64 → Bool
unfolding is_nan
float_eq a b = not (is_nan a || is_nan b) && eqb_ℤ (rank a) (rank b)

unfoldable pub float_lt : Float64 → Float64 → Bool
unfolding is_nan
float_lt a b = not (is_nan a || is_nan b) && ltb_ℤ (rank a) (rank b)
