-- ===== src/Go/Strings.antt =====
-- Functions of Go's package strings, on byte strings.
use mathlib.Core.List.{reverse}
use formation_web_analytics.Base.{
  ℕ, zero, suc, ◌+◌, ◌-◌, Bool, true, false, ◌&&◌, ◌||◌, List, [], ◌∷◌, ◌++◌, leb, ltb, ◌==◌,
  if◌then◌else◌, Bytes, is_empty,
}

-- The length of the white space (of Unicode, in UTF-8) at the head of a text; 0 if there is none.
unfoldable pub space_width : Bytes → ℕ
space_width [] = 0
space_width (a ∷ []) = if leb 9 a && leb a 13 || a == 32 then 1 else 0
space_width (a ∷ b ∷ []) =
    if leb 9 a && leb a 13 || a == 32
    then 1
    else if a == 0xc2 && (b == 0x85 || b == 0xa0)
    then 2
    else 0
space_width (a ∷ b ∷ c ∷ _) =
    if leb 9 a && leb a 13 || a == 32
    then 1
    else if a == 0xc2 && (b == 0x85 || b == 0xa0)
    then 2
    else if a == 0xe1 && b == 0x9a && c == 0x80
        || a == 0xe2
          && b == 0x80
          && (leb 0x80 c && leb c 0x8a || c == 0xa8 || c == 0xa9 || c == 0xaf)
        || a == 0xe2 && b == 0x81 && c == 0x9f
        || a == 0xe3 && b == 0x80 && c == 0x80
    then 3
    else 0

-- The same at the end of a text, which is given from its last byte on.
unfoldable pub space_width_back : Bytes → ℕ
unfolding space_width
space_width_back [] = 0
space_width_back (a ∷ []) = space_width (a ∷ [])
space_width_back (b ∷ a ∷ []) =
    if space_width (b ∷ []) == 1 then 1 else if space_width (a ∷ b ∷ []) == 2 then 2 else 0
space_width_back (c ∷ b ∷ a ∷ _) =
    if space_width (c ∷ []) == 1
    then 1
    else if space_width (b ∷ c ∷ []) == 2
    then 2
    else if space_width (a ∷ b ∷ c ∷ []) == 3
    then 3
    else 0

-- drops the first `skip` bytes, and then what `width` counts as space
unfoldable pub trim_while : (Bytes → ℕ) → ℕ → Bytes → Bytes
trim_while width skip [] = []
trim_while width (suc skip) (c ∷ s) = trim_while width skip s
trim_while width zero (c ∷ s) = elim (width (c ∷ s)) [
  | zero ↦ c ∷ s
  | suc more ↦ trim_while width more s
]

-- strings.TrimSpace
unfoldable pub trim_space : Bytes → Bytes
unfolding trim_while space_width space_width_back
trim_space s = reverse (trim_while space_width_back 0 (reverse (trim_while space_width 0 s)))

unfoldable pub is_ascii : Bytes → Bool
is_ascii [] = true
is_ascii (c ∷ s) = ltb c 0x80 && is_ascii s

abbrev pub lower_byte : ℕ → ℕ
lower_byte c = if leb b'A' c && leb c b'Z' then c + 32 else c

abbrev pub upper_byte : ℕ → ℕ
upper_byte c = if leb b'a' c && leb c b'z' then c - 32 else c

-- strings.HasPrefix
unfoldable pub has_prefix : Bytes → Bytes → Bool
has_prefix [] s = true
has_prefix (p ∷ ps) [] = false
has_prefix (p ∷ ps) (c ∷ s) = p == c && has_prefix ps s

-- strings.TrimPrefix: `dropped p s` is the rest behind `p`
unfoldable pub after_prefix : Bytes → Bytes → Bytes
after_prefix [] s = s
after_prefix (p ∷ ps) [] = []
after_prefix (p ∷ ps) (c ∷ s) = after_prefix ps s

unfoldable pub trim_prefix : Bytes → Bytes → Bytes
unfolding has_prefix after_prefix
trim_prefix p s = if has_prefix p s then after_prefix p s else s

-- strings.Contains
unfoldable pub contains : Bytes → Bytes → Bool
unfolding has_prefix
contains needle [] = is_empty needle
contains needle (c ∷ s) = has_prefix needle (c ∷ s) || contains needle s

-- `if idx := strings.Index(s, c); idx >= 0 { s = s[:idx] }` for one byte, or for any of several
unfoldable pub before : (ℕ → Bool) → Bytes → Bytes
before stop [] = []
before stop (c ∷ s) = if stop c then [] else c ∷ before stop s

-- strings.Split at one byte: the first part, and the parts behind a separator
unfoldable pub split_at : ℕ → Bytes → Bytes × List Bytes
split_at sep [] = ([], [])
split_at sep (c ∷ s) =
    let (part, rest) = split_at sep s in if c == sep then ([], part ∷ rest) else (c ∷ part, rest)

unfoldable pub split : ℕ → Bytes → List Bytes
unfolding split_at
split sep s = let (part, rest) = split_at sep s in part ∷ rest

-- strings.Join with one byte
unfoldable pub join : ℕ → List Bytes → Bytes
join sep [] = []
join sep (p ∷ []) = p
join sep (p ∷ q ∷ ps) = p ++ sep ∷ join sep (q ∷ ps)
