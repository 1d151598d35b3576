-- ===== src/Game/Float.antt =====
-- Comparisons of `float` values, which are IEEE single precision bit patterns.
pub mod Arith
use crimson_desert_online_mo.Common.{
  ℕ, ◌+◌, ◌-◌, ◌/◌, ◌%◌, ◌^◌, Bool, not, ◌&&◌, ◌==◌, ltb, leb, if◌then◌else◌,
}

-- The exponent is not all ones: `std::isfinite`.
abbrev pub is_finite : ℕ → Bool
is_finite v = not (v / 2 ^ 23 % 256 == 255)

abbrev pub is_nan : ℕ → Bool
is_nan v = (v / 2 ^ 23 % 256 == 255) && not (v % 2 ^ 23 == 0)

-- `std::fabs` clears the sign.
abbrev pub fabs : ℕ → ℕ
fabs v = v % 2 ^ 31

-- The order of the values that are not NaN, with -0 and 0 at one place.
abbrev pub rank : ℕ → ℕ
rank v = if ltb v (2 ^ 31) then 2 ^ 31 + v else 2 ^ 31 - (v - 2 ^ 31)

unfoldable pub float_le : ℕ → ℕ → Bool
float_le a b = not (is_nan a) && not (is_nan b) && leb (rank a) (rank b)

unfoldable pub float_lt : ℕ → ℕ → Bool
float_lt a b = not (is_nan a) && not (is_nan b) && ltb (rank a) (rank b)

unfoldable pub float_ne : ℕ → ℕ → Bool
float_ne a b = not (not (is_nan a) && not (is_nan b) && (rank a == rank b))

-- 0.f, 1.f, 100000.f and 1000000.f.
abbrev pub zero_f : ℕ
zero_f = 0

abbrev pub one_f : ℕ
one_f = 0x3F800000

abbrev pub hundred_thousand_f : ℕ
hundred_thousand_f = 0x47C35000

abbrev pub million_f : ℕ
million_f = 0x49742400
