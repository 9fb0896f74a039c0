-- ===== src/Go/Trim.antt =====
-- What strings.TrimSpace takes off: no byte of white space is a mark of a URL.
use mathlib.Core.List.{reverse, reverse-cons, reverse-reverse}
use formation_web_analytics.Base.{
  ℕ, zero, suc, ◌≡◌, ◌≢◌, sym, Bool, Bool-cases, inl, inr, ◌&&◌, ◌||◌, leb, ◌==◌, [], ◌∷◌, All,
  All-append, take, arith, Bytes, is_empty, true, subst,
}
use formation_web_analytics.Go.Strings.{space_width, space_width_back, trim_while, trim_space}

-- neither `#` nor `?`
abbrev pub IsPlainByte : ℕ → Type 0
IsPlainByte c = (c ≢ b'#') × (c ≢ b'?')

abbrev pub IsPlain : Bytes → Type 0
IsPlain s = All IsPlainByte s

IsPlain-reverse : (s : Bytes) → IsPlain s → IsPlain (reverse s)
IsPlain-reverse [] h = tt
IsPlain-reverse (c ∷ s) (p, h) =
    subst IsPlain (sym (reverse-cons c s))
      (All-append IsPlainByte (reverse s) (c ∷ []) (IsPlain-reverse s h) (p, tt))

trim_while-IsPlain :
    (width : Bytes → ℕ)
    → ((s : Bytes) → IsPlain (take (width s) s))
    → (skip : ℕ) (s : Bytes) → IsPlain (take skip s)
    → IsPlain (trim_while width skip s)
    → IsPlain s
unfolding trim_while
trim_while-IsPlain width plain skip [] before after = tt
trim_while-IsPlain width plain (suc skip) (c ∷ s) (p, before) after =
    (p, trim_while-IsPlain width plain skip s before after)
trim_while-IsPlain width plain zero (c ∷ s) before after =
    found (width (c ∷ s)) (plain (c ∷ s)) after (λ more. trim_while-IsPlain width plain more s)
  where
    found :
        (n : ℕ)
        → IsPlain (take n (c ∷ s))
        → IsPlain (elim n [ zero ↦ c ∷ s | suc more ↦ trim_while width more s ])
        → ((more : ℕ) → IsPlain (take more s) → IsPlain (trim_while width more s) → IsPlain s)
        → IsPlain (c ∷ s)
    found zero here after later = after
    found (suc more) (p, here) after later = (p, later more here after)

-- the bytes of the four kinds of white space
ascii_space : (a : ℕ) → (leb 9 a && leb a 13 || a == 32) ≡ true → IsPlainByte a
ascii_space a h = ground arith

latin_space :
    (a b : ℕ) → (a == 0xc2 && (b == 0x85 || b == 0xa0)) ≡ true → IsPlainByte a × IsPlainByte b
latin_space a b h = ground arith

abbrev wide : ℕ → ℕ → ℕ → Bool
wide a b c =
    a == 0xe1 && b == 0x9a && c == 0x80
    || a == 0xe2 && b == 0x80 && (leb 0x80 c && leb c 0x8a || c == 0xa8 || c == 0xa9 || c == 0xaf)
    || a == 0xe2 && b == 0x81 && c == 0x9f
    || a == 0xe3 && b == 0x80 && c == 0x80

wide_space : (a b c : ℕ) → wide a b c ≡ true → IsPlainByte a × IsPlainByte b × IsPlainByte c
wide_space a b c h = ground arith

space_width-IsPlain : (s : Bytes) → IsPlain (take (space_width s) s)
unfolding space_width
space_width-IsPlain [] = tt
space_width-IsPlain (a ∷ []) = elim (Bool-cases (leb 9 a && leb a 13 || a == 32)) [
  | inl one ↦ rw one (ascii_space a one, tt)
  | inr none ↦ rw none tt
]
space_width-IsPlain (a ∷ b ∷ []) = elim (Bool-cases (leb 9 a && leb a 13 || a == 32)) [
  | inl one ↦ rw one (ascii_space a one, tt)
  | inr not_one ↦ elim (Bool-cases (a == 0xc2 && (b == 0x85 || b == 0xa0))) [
    | inl two ↦ let (p, q) = latin_space a b two in rw (not_one, two) (p, (q, tt))
    | inr none ↦ rw (not_one, none) tt
  ]
]
space_width-IsPlain (a ∷ b ∷ c ∷ s) = elim (Bool-cases (leb 9 a && leb a 13 || a == 32)) [
  | inl one ↦ rw one (ascii_space a one, tt)
  | inr not_one ↦ elim (Bool-cases (a == 0xc2 && (b == 0x85 || b == 0xa0))) [
    | inl two ↦ let (p, q) = latin_space a b two in rw (not_one, two) (p, (q, tt))
    | inr not_two ↦ elim (Bool-cases (wide a b c)) [
      | inl three ↦
          let (p, q, r) = wide_space a b c three in rw (not_one, not_two, three) (p, (q, (r, tt)))
      | inr none ↦ rw (not_one, not_two, none) tt
    ]
  ]
]

taken : (s : Bytes) (n : ℕ) → (space_width s == n) ≡ true → IsPlain (take n s)
taken s n h =
    let e : space_width s ≡ n = ground arith in
    subst (λ n. IsPlain (take n s)) e (space_width-IsPlain s)

space_width_back-IsPlain : (s : Bytes) → IsPlain (take (space_width_back s) s)
unfolding space_width_back
space_width_back-IsPlain [] = tt
space_width_back-IsPlain (a ∷ []) = space_width-IsPlain (a ∷ [])
space_width_back-IsPlain (b ∷ a ∷ []) = elim (Bool-cases (space_width (b ∷ []) == 1)) [
  | inl one ↦ rw one (taken (b ∷ []) 1 one)
  | inr not_one ↦ elim (Bool-cases (space_width (a ∷ b ∷ []) == 2)) [
    | inl two ↦ let (p, (q, _)) = taken (a ∷ b ∷ []) 2 two in rw (not_one, two) (q, (p, tt))
    | inr none ↦ rw (not_one, none) tt
  ]
]
space_width_back-IsPlain (c ∷ b ∷ a ∷ s) = elim (Bool-cases (space_width (c ∷ []) == 1)) [
  | inl one ↦ rw one (taken (c ∷ []) 1 one)
  | inr not_one ↦ elim (Bool-cases (space_width (b ∷ c ∷ []) == 2)) [
    | inl two ↦ let (p, (q, _)) = taken (b ∷ c ∷ []) 2 two in rw (not_one, two) (q, (p, tt))
    | inr not_two ↦ elim (Bool-cases (space_width (a ∷ b ∷ c ∷ []) == 3)) [
      | inl three ↦
          let (p, (q, (r, _))) = taken (a ∷ b ∷ c ∷ []) 3 three in
          rw (not_one, not_two, three) (r, (q, (p, tt)))
      | inr none ↦ rw (not_one, not_two, none) tt
    ]
  ]
]

-- a text is plain if what is left of it is
pub trim_space-IsPlain : (s : Bytes) → IsPlain (trim_space s) → IsPlain s
unfolding trim_space
trim_space-IsPlain s h =
    let front = trim_while space_width 0 s in
    let back = trim_while space_width_back 0 (reverse front) in
    let trimmed : IsPlain back =
      subst IsPlain (reverse-reverse back) (IsPlain-reverse (reverse back) h) in
    let reversed =
      trim_while-IsPlain space_width_back space_width_back-IsPlain 0 (reverse front) tt trimmed in
    let left : IsPlain front =
      subst IsPlain (reverse-reverse front) (IsPlain-reverse (reverse front) reversed) in
    trim_while-IsPlain space_width space_width-IsPlain 0 s tt left

-- a text of white space only is plain
pub blank-IsPlain : (s : Bytes) → is_empty (trim_space s) ≡ true → IsPlain s
blank-IsPlain s h = trim_space-IsPlain s (none_left (trim_space s) h)
  where
    none_left : (t : Bytes) → is_empty t ≡ true → IsPlain t
    none_left [] e = tt
    none_left (c ∷ t) e = absurd (cc)
