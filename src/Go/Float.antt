-- ===== src/Go/Float.antt =====
-- A float64 by its 64 bits (IEEE 754): sign, exponent of 11 bits, fraction of 52.
use formation_web_analytics.Base.{
  zero, suc, ◌*◌, ◌/◌, ℤ, pos, negsuc, Option, none, some, ◌||◌, ℕ, ◌+◌, ◌-◌, ◌%◌, ◌^◌, Bool, ◌&&◌,
  not, ltb, ◌==◌, if◌then◌else◌,
}

abbrev pub Float64 : Type 0
Float64 = ℕ

abbrev exponent_mask : ℕ
exponent_mask = 0x7ff0000000000000

-- the bits without the sign
abbrev pub magnitude : Float64 → ℕ
magnitude x = x % 2 ^ 63

-- math.IsNaN and math.IsInf(x, 0)
unfoldable pub is_nan : Float64 → Bool
is_nan x = ltb exponent_mask (magnitude x)

unfoldable pub is_inf : Float64 → Bool
is_inf x = magnitude x == exponent_mask

-- the place of a number on the line; both zeros stand at 2^63
unfoldable pub place : Float64 → ℕ
place x = if ltb x (2 ^ 63) then 2 ^ 63 + x else 2 ^ 63 - magnitude x

-- `a < b`, which is false for a NaN
unfoldable pub float_lt : Float64 → Float64 → Bool
unfolding is_nan place
float_lt a b = not (is_nan a) && not (is_nan b) && ltb (place a) (place b)

abbrev pub float_90 : Float64
float_90 = 0x4056800000000000

abbrev pub float_180 : Float64
float_180 = 0x4066800000000000

-- the number with the other sign
abbrev pub negative : Float64 → Float64
negative x = x + 2 ^ 63

-- the exponent, in its biased form, and the significand with its leading bit
abbrev pub exponent : Float64 → ℕ
exponent x = magnitude x / 2 ^ 52

abbrev pub significand : Float64 → ℕ
significand x = 2 ^ 52 + x % 2 ^ 52

abbrev pub signed : Float64 → ℕ → ℤ
signed x zero = pos zero
signed x (suc n) = if ltb x (2 ^ 63) then pos (suc n) else negsuc n

-- The integer `n` with `x == float64(n)` for `n = int64(x)`, if there is one. The value of `x` is its
-- significand by 2 ^ (exponent - 1075); the range of int64 ends at the exponent 1086, but for -2 ^ 63.
unfoldable pub int64_of : (Float64 → Option ℤ) → Float64 → Option ℤ
unfolding is_nan is_inf
int64_of overflow x =
    if is_nan x || is_inf x
    then none
    else if magnitude x == 0
    then some (pos 0)
    else if ltb (exponent x) 1023
    then none
    else if ltb (exponent x) 1075
    then if significand x % 2 ^ (1075 - exponent x) == 0
      then some (signed x (significand x / 2 ^ (1075 - exponent x)))
      else none
    else if ltb (exponent x) 1086
    then some (signed x (significand x * 2 ^ (exponent x - 1075)))
    else if x == 0xc3e0000000000000
    then some (negsuc (2 ^ 63 - 1))
    else overflow x
