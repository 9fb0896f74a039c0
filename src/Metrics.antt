-- ===== src/Metrics.antt =====
-- internal/metrics/metrics.go: the counters, and the histogram of batch sizes. A counter is a
-- uint64 and wraps. A latency is in nanoseconds, and so are the bounds of its histogram: for a whole
-- number of nanoseconds the comparison of the source, on seconds in float64, comes out the same. So does
-- that of a batch size with its bounds, since float64 holds the bounds exactly and keeps the order.
pub mod Render
pub mod Buckets
use formation_web_analytics.Base.{ℕ, ◌+◌, ◌*◌, ◌%◌, ◌^◌, List, [], ◌∷◌, leb, if◌then◌else◌}

abbrev pub add_u64 : ℕ → ℕ → ℕ
add_u64 a n = (a + n) % 2 ^ 64

pub record BucketCounter : Type 0 where
  pub upper : ℕ
  pub count : ℕ

pub record Histogram : Type 0 where
  pub sum : ℕ
  pub count : ℕ
  pub items : List BucketCounter

abbrev pub new_buckets : List ℕ → List BucketCounter
new_buckets [] = []
new_buckets (bound ∷ bounds) = record { upper = bound; count = 0 } ∷ new_buckets bounds

unfoldable pub observe_buckets : ℕ → List BucketCounter → List BucketCounter
observe_buckets value [] = []
observe_buckets value (b ∷ items) =
    (if leb value b.upper then record b { count = add_u64 b.count 1 } else b)
    ∷ observe_buckets value items

-- `observe`, where `value` is in the unit of the bounds and `thousandths` is `uint64(value * 1000)`,
-- as the platform converts the float64
unfoldable pub observe : Histogram → ℕ → ℕ → Histogram
unfolding observe_buckets
observe h value thousandths = record h {
  count = add_u64 h.count 1;
  sum = add_u64 h.sum thousandths;
  items = observe_buckets value h.items;
}

abbrev millisecond : ℕ
millisecond = 10 ^ 6

pub record Registry : Type 0 where
  pub accepted_events : ℕ
  pub rejected_events : ℕ
  pub dropped_events : ℕ
  pub flushes : ℕ
  pub flush_failures : ℕ
  pub retry_attempts : ℕ
  pub bulk_indexed : ℕ
  pub bulk_failed : ℕ
  pub queue_full : ℕ
  pub queued_current : ℕ
  pub batch_size_histogram : Histogram
  pub flush_latency_seconds : Histogram

abbrev pub new_registry : Registry
new_registry = record {
  accepted_events = 0;
  rejected_events = 0;
  dropped_events = 0;
  flushes = 0;
  flush_failures = 0;
  retry_attempts = 0;
  bulk_indexed = 0;
  bulk_failed = 0;
  queue_full = 0;
  queued_current = 0;
  batch_size_histogram = record {
    sum = 0;
    count = 0;
    items = new_buckets (1 ∷ 10 ∷ 50 ∷ 100 ∷ 250 ∷ 500 ∷ 1000 ∷ 5000 ∷ []);
  };
  flush_latency_seconds = record {
    sum = 0;
    count = 0;
    items = new_buckets (
        10 * millisecond
        ∷ 50 * millisecond
        ∷ 100 * millisecond
        ∷ 250 * millisecond
        ∷ 500 * millisecond
        ∷ 1000 * millisecond
        ∷ 2500 * millisecond
        ∷ 5000 * millisecond
        ∷ 10000 * millisecond
        ∷ 30000 * millisecond
        ∷ []);
  };
}

abbrev pub inc_accepted : ℕ → Registry → Registry
inc_accepted n r = record r { accepted_events = add_u64 r.accepted_events n }

abbrev pub inc_rejected : ℕ → Registry → Registry
inc_rejected n r = record r { rejected_events = add_u64 r.rejected_events n }

abbrev pub inc_dropped : ℕ → Registry → Registry
inc_dropped n r = record r { dropped_events = add_u64 r.dropped_events n }

abbrev pub inc_flush : Registry → Registry
inc_flush r = record r { flushes = add_u64 r.flushes 1 }

abbrev pub inc_flush_failure : Registry → Registry
inc_flush_failure r = record r { flush_failures = add_u64 r.flush_failures 1 }

abbrev pub inc_retry_attempt : Registry → Registry
inc_retry_attempt r = record r { retry_attempts = add_u64 r.retry_attempts 1 }

abbrev pub add_bulk_indexed : ℕ → Registry → Registry
add_bulk_indexed n r = record r { bulk_indexed = add_u64 r.bulk_indexed n }

abbrev pub add_bulk_failed : ℕ → Registry → Registry
add_bulk_failed n r = record r { bulk_failed = add_u64 r.bulk_failed n }

abbrev pub inc_queue_full : Registry → Registry
inc_queue_full r = record r { queue_full = add_u64 r.queue_full 1 }

abbrev pub set_queue_depth : ℕ → Registry → Registry
set_queue_depth n r = record r { queued_current = n }

-- `ObserveBatchSize`
abbrev pub observe_batch_size : ℕ → ℕ → Registry → Registry
observe_batch_size n thousandths r = record r {
  batch_size_histogram = observe r.batch_size_histogram n thousandths;
}

-- `ObserveFlushLatency`
abbrev pub observe_flush_latency : ℕ → ℕ → Registry → Registry
observe_flush_latency elapsed thousandths r = record r {
  flush_latency_seconds = observe r.flush_latency_seconds elapsed thousandths;
}
