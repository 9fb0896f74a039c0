-- ===== src/Go/Numbers.antt =====
-- Functions of Go's package strconv on decimal texts, with an int of 64 bits.
use formation_web_analytics.Base.{
  ℕ, zero, suc, ◌+◌, ◌-◌, ◌*◌, ◌^◌, ℤ, pos, negsuc, Bool, true, false, ◌&&◌, ◌||◌, Option, none,
  some, List, [], ◌∷◌, ltb, leb, ◌==◌, if◌then◌else◌, Bytes, codes, bytes_eq,
}

-- the number that `n` and then these digits spell
unfoldable pub digits : ℕ → Bytes → Option ℕ
digits n [] = some n
digits n (c ∷ s) =
    let rest = digits (n * 10 + (c - b'0')) s in if leb b'0' c && leb c b'9' then rest else none

unfoldable pub natural : Bytes → Option ℕ
unfolding digits
natural [] = none
natural (c ∷ s) = digits 0 (c ∷ s)

abbrev minus : ℕ → ℤ
minus zero = pos zero
minus (suc n) = negsuc n

-- a sign and a magnitude, if the number is in the range of int64
unfoldable pub in_range : Bool → Option ℕ → Option ℤ
in_range below none = none
in_range true (some n) = if leb n (2 ^ 63) then some (minus n) else none
in_range false (some n) = if ltb n (2 ^ 63) then some (pos n) else none

-- `strconv.ParseInt(s, 10, 64)` and `strconv.Atoi`
unfoldable pub parse_int : Bytes → Option ℤ
unfolding natural in_range
parse_int [] = none
parse_int (c ∷ s) =
    if c == b'-'
    then in_range true (natural s)
    else if c == b'+'
    then in_range false (natural s)
    else in_range false (natural (c ∷ s))

unfoldable one_of : List Bytes → Bytes → Bool
unfolding bytes_eq
one_of [] s = false
one_of (t ∷ ts) s = bytes_eq s t || one_of ts s

-- `strconv.ParseBool`
unfoldable pub parse_bool : Bytes → Option Bool
unfolding one_of
parse_bool s =
    if one_of (codes "1" ∷ codes "t" ∷ codes "T" ∷ codes "true" ∷ codes "TRUE" ∷ codes "True" ∷ [])
      s
    then some true
    else if one_of
        (codes "0" ∷ codes "f" ∷ codes "F" ∷ codes "false" ∷ codes "FALSE" ∷ codes "False" ∷ []) s
    then some false
    else none
