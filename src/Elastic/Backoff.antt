-- ===== src/Elastic/Backoff.antt =====
-- `Backoff` of internal/elastic/client.go, lines 312 to 336. A duration is in nanoseconds; one that
-- is not positive counts as 0, which the code replaces. The sum with the jitter is an int64 and wraps;
-- a timer fires at once for a duration that is not positive. `jitter` is `rand.Int63n`, a parameter.
use native.Mathlib.Nat.{pow-suc}
use formation_web_analytics.Base.{
  ℕ, zero, suc, ◌+◌, ◌-◌, ◌%◌, ◌*◌, ◌/◌, ◌^◌, ◌≤◌, ◌<◌, min, max, ◌≡◌, ◌∙◌, ap, ap₂, ◌||◌, ltb, leb,
  if◌then◌else◌, arith, inl, inr, Bool-cases, ℤ, pos, negsuc, ◌≤ℤ◌, lt→ltb, refl,
}

-- the loop, with `n` rounds left; `break` with the maximum ends it
unfoldable pub double_up : ℕ → ℕ → ℕ → ℕ
double_up maximum zero backoff = backoff
double_up maximum (suc n) backoff =
    let rest = double_up maximum n (backoff * 2) in
    if leb maximum backoff || ltb (maximum / 2) backoff then maximum else rest

-- a sum of durations that are not negative, as int64 keeps it
unfoldable pub wrap_int64 : ℕ → ℤ
wrap_int64 n = let m = n % 2 ^ 64 in if ltb m (2 ^ 63) then pos m else negsuc (2 ^ 64 - 1 - m)

unfoldable pub backoff : (ℕ → ℕ) → ℕ → ℕ → ℕ → ℤ
unfolding double_up wrap_int64
backoff jitter minimum maximum attempt =
    let least = if leb minimum 0 then 1 else minimum in
    let most = if ltb maximum least then least else maximum in
    let base = double_up most attempt least in
    let jitter_limit = base / 4 in
    if leb jitter_limit 0 then pos base else wrap_int64 (base + jitter jitter_limit)

double_pow : (b n : ℕ) → b * 2 ^ suc n ≡ b * 2 * 2 ^ n
double_pow b n = omega (arith, ap (λ t. b * t) (pow-suc 2 n))

le-mul-pow : (n b : ℕ) → b ≤ b * 2 ^ n
le-mul-pow zero b = omega arith
le-mul-pow (suc n) b = omega (arith, double_pow b n, le-mul-pow n (b * 2))

-- The loop doubles up to the maximum.
pub double_up-min :
    (maximum n b : ℕ) → b ≤ maximum → double_up maximum n b ≡ min (b * 2 ^ n) maximum
unfolding double_up
double_up-min maximum zero b le = omega arith
double_up-min maximum (suc n) b le = elim (Bool-cases (leb maximum b || ltb (maximum / 2) b)) [
  | inl stop ↦
      let far : maximum ≤ b * 2 = ground arith in
      rw stop (omega (arith, double_pow b n, le-mul-pow n (b * 2)))
  | inr on ↦
      let room : b * 2 ≤ maximum = ground arith in
      rw on (omega (arith, double_pow b n, double_up-min maximum n (b * 2) room))
]

abbrev least : ℕ → ℕ
least minimum = if leb minimum 0 then 1 else minimum

abbrev most : ℕ → ℕ → ℕ
most minimum maximum = if ltb maximum (least minimum) then least minimum else maximum

base_lem :
    (minimum maximum attempt : ℕ)
    → double_up (most minimum maximum) attempt (least minimum)
      ≡ min (max 1 minimum * 2 ^ attempt) (max (max 1 minimum) maximum)
base_lem minimum maximum attempt =
    double_up-min (most minimum maximum) attempt (least minimum) (ground arith)
    ∙ ap₂ (λ a b. min (a * 2 ^ attempt) b) (ground arith) (ground arith)

wrap_int64-small : (n : ℕ) → n < 2 ^ 63 → wrap_int64 n ≡ pos n
unfolding wrap_int64
wrap_int64-small n small =
    let same : n % 2 ^ 64 ≡ n = omega arith in rw (same, lt→ltb n (2 ^ 63) small) refl

-- With a random source that answers below its bound, and a maximum that with a quarter of it stays
-- within int64, the pause is the minimum doubled `attempt` times, cut at the maximum, or up to a
-- quarter longer, and so is not negative; the minimum counts as 1 if it is 0, and the maximum as the
-- minimum if it is smaller.
pub backoff_bounds :
    (jitter : ℕ → ℕ) (minimum maximum attempt : ℕ)
    → ((limit : ℕ) → 0 < limit → jitter limit < limit)
    → max (max 1 minimum) maximum + max (max 1 minimum) maximum / 4 < 2 ^ 63
    → let base = min (max 1 minimum * 2 ^ attempt) (max (max 1 minimum) maximum) in
      (pos base ≤ℤ backoff jitter minimum maximum attempt)
      × (backoff jitter minimum maximum attempt ≤ℤ pos (base + base / 4))
unfolding backoff
backoff_bounds jitter minimum maximum attempt bound fits =
    let base = double_up (most minimum maximum) attempt (least minimum) in
    let most_base : base ≤ max (max 1 minimum) maximum =
      omega (arith, base_lem minimum maximum attempt) in
    let jitter_limit = base / 4 in
    rw (← base_lem minimum maximum attempt) (elim (Bool-cases (leb jitter_limit 0)) [
      | inl none ↦ rw none (omega arith, omega arith)
      | inr some ↦
          let below = bound jitter_limit (ground arith) in
          rw (some, wrap_int64-small (base + jitter jitter_limit) (omega arith))
            (omega arith, omega arith)
    ])
