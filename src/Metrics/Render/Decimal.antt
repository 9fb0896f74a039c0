-- ===== src/Metrics/Render/Decimal.antt =====
-- Printed numbers, read back.
use formation_web_analytics.Base.{
  ℕ, zero, suc, ◌+◌, ◌-◌, ◌*◌, ◌/◌, ◌%◌, ◌^◌, ◌<◌, ◌≡◌, refl, ◌∙◌, ap, inl, inr, true, ◌&&◌, some,
  [], ◌∷◌, Bool-cases, arith, leb, ltb, Bytes,
}
use formation_web_analytics.Go.Numbers.{digits, natural}
use formation_web_analytics.Metrics.Render.{decimal, decimal_onto}

digits-digit :
    (m d : ℕ) (rest : Bytes) → d < 10 → digits m ((d + b'0') ∷ rest) ≡ digits (m * 10 + d) rest
unfolding digits
digits-digit m d rest h =
    let same : m * 10 + (d + b'0' - b'0') ≡ m * 10 + d = omega arith in
    let is_digit : (leb b'0' (d + b'0') && leb (d + b'0') b'9') ≡ true = ground arith in
    rw (is_digit, digits) (ap (λ n. digits n rest) same)

-- a printed number is read back
digits-decimal_onto :
    (fuel n : ℕ) (rest : Bytes)
    → n < 10 ^ fuel
    → digits 0 (decimal_onto fuel n rest) ≡ digits n rest
unfolding decimal_onto
digits-decimal_onto zero n rest h = ap (λ n. digits n rest) (omega (arith, h))
digits-decimal_onto (suc fuel) n rest h = elim (Bool-cases (ltb n 10)) [
  | inl one ↦ rw one (digits-digit 0 n rest (ground arith) ∙ ap (λ n. digits n rest) (omega arith))
  | inr more ↦
      let whole : n / 10 * 10 + n % 10 ≡ n = omega arith in
      rw more (
        digits-decimal_onto fuel (n / 10) ((n % 10 + b'0') ∷ rest) (omega (arith, h))
        ∙ digits-digit (n / 10) (n % 10) rest (omega arith)
        ∙ ap (λ n. digits n rest) whole)
]

natural-decimal_onto :
    (fuel n : ℕ) (rest : Bytes)
    → n < 10 ^ suc fuel
    → natural (decimal_onto (suc fuel) n rest) ≡ digits 0 (decimal_onto (suc fuel) n rest)
unfolding natural decimal_onto
natural-decimal_onto zero n rest h = let one : ltb n 10 ≡ true = ground (arith, h) in rw one refl
natural-decimal_onto (suc fuel) n rest h = elim (Bool-cases (ltb n 10)) [
  | inl one ↦ rw one refl
  | inr more ↦
      rw more (natural-decimal_onto fuel (n / 10) ((n % 10 + b'0') ∷ rest) (omega (arith, h)))
]

pub natural-decimal : (n : ℕ) → n < 2 ^ 64 → natural (decimal n) ≡ some n
unfolding decimal digits
natural-decimal n h =
    natural-decimal_onto 19 n [] (omega (arith, h)) ∙ digits-decimal_onto 20 n [] (omega (arith, h))
