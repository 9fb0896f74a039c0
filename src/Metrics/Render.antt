-- ===== src/Metrics/Render.antt =====
-- The printed form of the metrics, internal/metrics/metrics.go, lines 79 to 120. The uptime is given
-- in thousandths of a second, and `thousandths` prints `float64(n)/1000` with `%.3f`.
pub mod Decimal
pub mod Scrape
mod Examples
use formation_web_analytics.Base.{
  ℕ, zero, suc, ◌+◌, ◌*◌, ◌/◌, ◌%◌, ◌^◌, List, [], ◌∷◌, ◌++◌, ltb, if◌then◌else◌, Bytes, codes,
}
use formation_web_analytics.Metrics.{BucketCounter, Histogram, Registry}

-- the digits of a number of at most `fuel` digits, before `rest`
unfoldable pub decimal_onto : ℕ → ℕ → Bytes → Bytes
decimal_onto zero n rest = rest
decimal_onto (suc fuel) n rest =
    let longer = decimal_onto fuel (n / 10) ((n % 10 + b'0') ∷ rest) in
    if ltb n 10 then (n + b'0') ∷ rest else longer

-- `%d` of a uint64, which has at most 20 digits, or of an int64 that is not negative
unfoldable pub decimal : ℕ → Bytes
unfolding decimal_onto
decimal n = decimal_onto 20 n []

-- lines, each with its end
unfoldable pub unlines : List Bytes → Bytes
unlines [] = []
unlines (line ∷ lines) = line ++ b'\n' ∷ unlines lines

abbrev pub value_line : Bytes → ℕ → Bytes
value_line name value = name ++ b' ' ∷ decimal value

-- `writeCounter` and `writeGauge`
abbrev pub counter_lines : Bytes → ℕ → List Bytes
counter_lines name value =
    (codes "# TYPE " ++ name ++ codes " counter") ∷ value_line name value ∷ []

abbrev pub gauge_lines : Bytes → ℕ → List Bytes
gauge_lines name value = (codes "# TYPE " ++ name ++ codes " gauge") ∷ value_line name value ∷ []

-- the counters and the gauge of `render`, in order
abbrev pub value_lines : Registry → List Bytes
value_lines r =
    counter_lines (codes "analytics_accepted_events_total") r.accepted_events
    ++ counter_lines (codes "analytics_rejected_events_total") r.rejected_events
    ++ counter_lines (codes "analytics_dropped_events_total") r.dropped_events
    ++ gauge_lines (codes "analytics_queued_events_current") r.queued_current
    ++ counter_lines (codes "analytics_flushes_total") r.flushes
    ++ counter_lines (codes "analytics_flush_failures_total") r.flush_failures
    ++ counter_lines (codes "analytics_retry_attempts_total") r.retry_attempts
    ++ counter_lines (codes "analytics_bulk_items_indexed_total") r.bulk_indexed
    ++ counter_lines (codes "analytics_bulk_items_failed_total") r.bulk_failed
    ++ counter_lines (codes "analytics_queue_full_occurrences_total") r.queue_full

module _ (thousandths : ℕ → Bytes) where
  unfoldable bucket_lines : Bytes → (ℕ → ℕ) → List BucketCounter → List Bytes
  unfolding decimal
  bucket_lines name bound [] = []
  bucket_lines name bound (b ∷ items) =
      (name
        ++ codes "_bucket{le=\""
        ++ thousandths (bound b.upper)
        ++ codes "\"} "
        ++ decimal b.count)
      ∷ bucket_lines name bound items

  -- `writeHistogram`; `bound` is a bound in thousandths
  unfoldable pub histogram_lines : Bytes → (ℕ → ℕ) → Histogram → List Bytes
  unfolding decimal bucket_lines
  histogram_lines name bound h =
      (codes "# TYPE " ++ name ++ codes " histogram") ∷ bucket_lines name bound h.items
      ++ (name ++ codes "_bucket{le=\"+Inf\"} " ++ decimal h.count)
        ∷ (name ++ codes "_sum " ++ thousandths h.sum)
        ∷ (name ++ codes "_count " ++ decimal h.count)
        ∷ []

  -- `render`
  unfoldable pub render : Registry → ℕ → Bytes
  unfolding unlines decimal histogram_lines
  render r uptime = unlines (
      value_lines r
      ++ histogram_lines (codes "analytics_batch_size") (λ n. n * 1000) r.batch_size_histogram
      ++ histogram_lines (codes "analytics_flush_latency_seconds") (λ n. n / 10 ^ 6)
          r.flush_latency_seconds
      ++ codes "# TYPE analytics_process_uptime_seconds gauge"
        ∷ (codes "analytics_process_uptime_seconds " ++ thousandths uptime)
        ∷ [])
