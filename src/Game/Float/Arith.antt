-- ===== src/Game/Float/Arith.antt =====
-- `+`, `-` and `*` of `float`, and the ratio of two whole numbers as a `double` that is converted to
-- `float`, on bit patterns, rounded to the nearest value and to even at a tie. A finite `float` is a
-- whole number of units of 2^-149. NaN is one pattern.
use crimson_desert_online_mo.Common.{
  ℕ, zero, suc, ◌+◌, ◌-◌, ◌*◌, ◌/◌, ◌%◌, ◌^◌, Bool, not, ◌&&◌, ◌||◌, ◌==◌, ltb, leb, if◌then◌else◌,
}
use crimson_desert_online_mo.Game.Float.{is_nan, is_finite, fabs, float_lt}

abbrev pub nan_f : ℕ
nan_f = 0x7FC00000

abbrev pub inf_f : ℕ
inf_f = 0x7F800000

abbrev pub is_negative : ℕ → Bool
is_negative v = leb (2 ^ 31) v

abbrev pub with_sign : Bool → ℕ → ℕ
with_sign negative v = if negative then 2 ^ 31 + v else v

-- How often a divisor is doubled until the quotient has `p` bits at most.
unfoldable pub scale : ℕ → ℕ → ℕ → ℕ → ℕ
scale p n d zero = 0
scale p n d (suc fuel) =
    let more = suc (scale p n (2 * d) fuel) in if ltb n (d * 2 ^ p) then 0 else more

abbrev pub half_even : ℕ → ℕ → ℕ
half_even n d =
    if ltb (2 * (n % d)) d
    then n / d
    else if ltb d (2 * (n % d))
    then n / d + 1
    else n / d + n / d % 2

-- The pattern, without a sign and with `p` significant bits, nearest to `n / d` units.
unfoldable pub round_units : ℕ → ℕ → ℕ → ℕ
unfolding scale
round_units p n d = let e = scale p n d 2200 in e * 2 ^ (p - 1) + half_even n (d * 2 ^ e)

-- The units of a pattern with `p` significant bits.
unfoldable pub units : ℕ → ℕ → ℕ
units p v =
    let e = v / 2 ^ (p - 1) in if e == 0 then v else (2 ^ (p - 1) + v % 2 ^ (p - 1)) * 2 ^ (e - 1)

abbrev to_float : ℕ → ℕ → ℕ
to_float n d = let v = round_units 24 n d in if leb inf_f v then inf_f else v

abbrev units_f : ℕ → ℕ
units_f v = units 24 (fabs v)

unfoldable pub add_finite : ℕ → ℕ → ℕ
unfolding round_units units
add_finite a b =
    let m = units_f a in
    let n = units_f b in
    if (is_negative a && is_negative b) || (not (is_negative a) && not (is_negative b))
    then with_sign (is_negative a) (to_float (m + n) 1)
    else if m == n
    then 0
    else if ltb n m
    then with_sign (is_negative a) (to_float (m - n) 1)
    else with_sign (is_negative b) (to_float (n - m) 1)

abbrev pub float_neg : ℕ → ℕ
float_neg v = (v + 2 ^ 31) % 2 ^ 32

unfoldable pub float_add : ℕ → ℕ → ℕ
unfolding add_finite
float_add a b =
    if is_nan a || is_nan b
    then nan_f
    else if not (is_finite a)
    then if not (is_finite b) && not (a == b) then nan_f else a
    else if not (is_finite b)
    then b
    else add_finite a b

unfoldable pub float_sub : ℕ → ℕ → ℕ
unfolding float_add
float_sub a b = if is_nan b then nan_f else float_add a (float_neg b)

unfoldable pub float_mul : ℕ → ℕ → ℕ
unfolding round_units units
float_mul a b =
    let negative =
      (is_negative a && not (is_negative b)) || (not (is_negative a) && is_negative b) in
    if is_nan a || is_nan b
    then nan_f
    else if not (is_finite a) || not (is_finite b)
    then if (fabs a == 0) || (fabs b == 0) then nan_f else with_sign negative inf_f
    else with_sign negative (to_float (units_f a * units_f b) (2 ^ 149))

-- `static_cast<float>(n / d)` where `n` and `d` are whole numbers held in a `double`.
unfoldable pub float_ratio : ℕ → ℕ → ℕ
unfolding round_units units
float_ratio n d = to_float (units 53 (round_units 53 (n * 2 ^ 1074) d)) (2 ^ 925)

-- `std::min` and `std::max`.
abbrev pub float_min : ℕ → ℕ → ℕ
float_min a b = if float_lt b a then b else a

abbrev pub float_max : ℕ → ℕ → ℕ
float_max a b = if float_lt a b then b else a
