-- ===== src/Metrics/Render/Examples.antt =====
-- The theorem on the printed metrics, after a batch was taken.
use formation_web_analytics.Base.{List, ℕ, ◌^◌, ◌<◌, ◌≡◌, some, All, Bytes, arith, ◌%◌, [], ◌∷◌}
use formation_web_analytics.Metrics.{
  Registry, new_registry, inc_accepted, inc_flush, observe_batch_size, set_queue_depth,
}
use formation_web_analytics.Metrics.Buckets.{
  values_of, counted, sum_of, observe_all, observe_all-counted,
}
use formation_web_analytics.Metrics.Render.{decimal, render}
use formation_web_analytics.Metrics.Render.Scrape.{metrics_of, sample, sample-render}

abbrev registry : Registry
registry = set_queue_depth 2 (observe_batch_size 3 3000 (inc_flush (inc_accepted 500 new_registry)))

abbrev thousandths : ℕ → Bytes
thousandths n = decimal n

small : All (λ m. m.1 < 2 ^ 64) (metrics_of registry)
small = (
  omega arith,
  (
    omega arith,
    (
      omega arith,
      (
        omega arith,
        (
          omega arith,
          (omega arith, (omega arith, (omega arith, (omega arith, (omega arith, tt))))),
        ),
      ),
    ),
  ),
)

sample-render_example :
    All (λ m. sample m.0 (render thousandths registry 17) ≡ some m.1) (metrics_of registry)
sample-render_example = sample-render thousandths registry 17 small

abbrev three : List (ℕ × ℕ)
three = (10, 10000) ∷ (1, 1000) ∷ (700, 700000) ∷ []

-- a histogram with two bounds that observed three values
observe_all-counted_example :
    let h = observe_all (1 ∷ 10 ∷ []) three in
    (h.items ≡ counted (1 ∷ 10 ∷ []) (values_of three))
    × (h.count ≡ 3 % 2 ^ 64)
    × (h.sum ≡ sum_of three % 2 ^ 64)
observe_all-counted_example = observe_all-counted (1 ∷ 10 ∷ []) three
