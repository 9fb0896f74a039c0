-- ===== src/Metrics/Buckets.antt =====
-- `histogram.observe` of internal/metrics/metrics.go: what the buckets count.
use formation_web_analytics.Base.{
  ℕ, ◌+◌, ◌%◌, ◌^◌, ◌≡◌, refl, ap, ap₂, inl, inr, Bool-cases, List, [], ◌∷◌, length, leb, arith,
  if◌then◌else◌,
}
use formation_web_analytics.Metrics.{
  BucketCounter, Histogram, new_buckets, observe_buckets, observe,
}

-- how many of the values are at most a bound
unfoldable pub at_most : ℕ → List ℕ → ℕ
at_most bound [] = 0
at_most bound (value ∷ values) =
    if leb value bound then at_most bound values + 1 else at_most bound values

-- what the `uint64(value * 1000)` of the observations add up to
unfoldable pub sum_of : List (ℕ × ℕ) → ℕ
sum_of [] = 0
sum_of ((value, thousandths) ∷ seen) = thousandths + sum_of seen

-- the observed values
unfoldable pub values_of : List (ℕ × ℕ) → List ℕ
values_of [] = []
values_of ((value, thousandths) ∷ seen) = value ∷ values_of seen

-- a counter for each bound
unfoldable pub counted : List ℕ → List ℕ → List BucketCounter
unfolding at_most
counted [] values = []
counted (bound ∷ bounds) values =
    record { upper = bound; count = at_most bound values % 2 ^ 64 } ∷ counted bounds values

-- a new histogram that observes the values, each with its thousandths, the latest first in the list
unfoldable pub observe_all : List ℕ → List (ℕ × ℕ) → Histogram
unfolding observe
observe_all bounds [] = record { sum = 0; count = 0; items = new_buckets bounds }
observe_all bounds ((value, thousandths) ∷ seen) =
    observe (observe_all bounds seen) value thousandths

new_buckets-counted : (bounds : List ℕ) → new_buckets bounds ≡ counted bounds []
unfolding counted
new_buckets-counted [] = refl
new_buckets-counted (bound ∷ bounds) =
    ap (λ bs. record { upper = bound; count = 0 } ∷ bs) (new_buckets-counted bounds)

observe_buckets-counted :
    (value : ℕ) (bounds values : List ℕ)
    → observe_buckets value (counted bounds values) ≡ counted bounds (value ∷ values)
unfolding observe_buckets counted
observe_buckets-counted value [] values = refl
observe_buckets-counted value (bound ∷ bounds) values = elim (Bool-cases (leb value bound)) [
  | inl fits ↦
      let more : (at_most bound values % 2 ^ 64 + 1) % 2 ^ 64
          ≡ (at_most bound values + 1) % 2 ^ 64 =
        omega arith in
      rw fits (
        ap₂ (λ n bs. record { upper = bound; count = n } ∷ bs) more
          (observe_buckets-counted value bounds values))
  | inr over ↦ rw over (
      ap (λ bs. record { upper = bound; count = at_most bound values % 2 ^ 64 } ∷ bs)
        (observe_buckets-counted value bounds values))
]

-- After any number of observations by a new histogram, each bucket counts the values that are at most
-- its bound, those of the smaller buckets included; `count` is the number of observations, and `sum`
-- adds up what the platform answers for `uint64(value * 1000)` of each of them; all modulo 2^64.
pub observe_all-counted :
    (bounds : List ℕ) (seen : List (ℕ × ℕ))
    → let h = observe_all bounds seen in
      (h.items ≡ counted bounds (values_of seen))
      × (h.count ≡ length seen % 2 ^ 64)
      × (h.sum ≡ sum_of seen % 2 ^ 64)
unfolding observe_all sum_of values_of
observe_all-counted bounds [] = (new_buckets-counted bounds, refl, refl)
observe_all-counted bounds ((value, thousandths) ∷ seen) =
    let (items, count, sum) = observe_all-counted bounds seen in
    (
      rw items (observe_buckets-counted value bounds (values_of seen)),
      omega (arith, count),
      omega (arith, sum),
    )
