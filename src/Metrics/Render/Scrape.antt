-- ===== src/Metrics/Render/Scrape.antt =====
-- What a reader of the printed metrics gets back.
use formation_web_analytics.Base.{
  ℕ, zero, suc, ◌+◌, ◌/◌, ◌%◌, ◌^◌, ◌<◌, ◌*◌, ◌≡◌, refl, sym, ◌∙◌, ap, inl, inr, Bool, true, false,
  ◌&&◌, not, Option, none, some, List, [], ◌∷◌, ◌++◌, append_assoc, All, Bool-cases, arith, ltb,
  ◌==◌, if◌then◌else◌, Bytes, codes, subst,
}
use formation_web_analytics.Go.Strings.{split, split_at, has_prefix, after_prefix}
use formation_web_analytics.Go.Numbers.{natural}
use formation_web_analytics.Metrics.Render.Decimal.{natural-decimal}
use formation_web_analytics.Metrics.{Registry}
use formation_web_analytics.Metrics.Render.{
  decimal, decimal_onto, unlines, value_lines, histogram_lines, render,
}

-- a text without `sep`
abbrev lacks : ℕ → Bytes → Bool
lacks sep [] = true
lacks sep (c ∷ s) = not (c == sep) && lacks sep s

lacks-decimal_onto :
    (fuel n : ℕ) (rest : Bytes)
    → lacks b'\n' rest ≡ true
    → lacks b'\n' (decimal_onto fuel n rest) ≡ true
unfolding decimal_onto
lacks-decimal_onto zero n rest h = h
lacks-decimal_onto (suc fuel) n rest h = elim (Bool-cases (ltb n 10)) [
  | inl one ↦ rw one (ground (arith, h))
  | inr more ↦
      rw more (lacks-decimal_onto fuel (n / 10) ((n % 10 + b'0') ∷ rest) (ground (arith, h)))
]

split_at-lacks :
    (sep : ℕ) (line rest : Bytes)
    → lacks sep line ≡ true
    → split_at sep (line ++ sep ∷ rest) ≡ (line, split sep rest)
unfolding split_at split
split_at-lacks sep [] rest h = ground arith
split_at-lacks sep (c ∷ line) rest h =
    let other : (c == sep) ≡ false = ground (arith, h) in
    rw (split_at-lacks sep line rest (ground (arith, h)), other) refl

split-unlines :
    (lines : List Bytes) (rest : Bytes)
    → All (λ line. lacks b'\n' line ≡ true) lines
    → split b'\n' (unlines lines ++ rest) ≡ lines ++ split b'\n' rest
unfolding split unlines
split-unlines [] rest h = refl
split-unlines (line ∷ lines) rest (h, hs) =
    rw
      (
        append_assoc line (b'\n' ∷ unlines lines) rest,
        split_at-lacks b'\n' line (unlines lines ++ rest) h,
      )
      (ap (λ ls. line ∷ ls) (split-unlines lines rest hs))

unlines-append : (xs ys : List Bytes) → unlines (xs ++ ys) ≡ unlines xs ++ unlines ys
unfolding unlines
unlines-append [] ys = refl
unlines-append (x ∷ xs) ys =
    ap (λ s. x ++ b'\n' ∷ s) (unlines-append xs ys)
    ∙ sym (append_assoc x (b'\n' ∷ unlines xs) (unlines ys))

lacks-decimal : (n : ℕ) → lacks b'\n' (decimal n) ≡ true
unfolding decimal
lacks-decimal n = lacks-decimal_onto 20 n [] refl

-- the number on the first line that begins with a name and a space
unfoldable pub sample_in : Bytes → List Bytes → Option ℕ
unfolding has_prefix after_prefix natural
sample_in name [] = none
sample_in name (line ∷ lines) =
    if has_prefix (name ++ codes " ") line
    then natural (after_prefix (name ++ codes " ") line)
    else sample_in name lines

-- what a reader of the printed metrics finds under a name
unfoldable pub sample : Bytes → Bytes → Option ℕ
unfolding sample_in split
sample name text = sample_in name (split b'\n' text)

-- the names of the metrics, each with its value
abbrev pub metrics_of : Registry → List (Bytes × ℕ)
metrics_of r =
    (codes "analytics_accepted_events_total", r.accepted_events)
    ∷ (codes "analytics_rejected_events_total", r.rejected_events)
    ∷ (codes "analytics_dropped_events_total", r.dropped_events)
    ∷ (codes "analytics_queued_events_current", r.queued_current)
    ∷ (codes "analytics_flushes_total", r.flushes)
    ∷ (codes "analytics_flush_failures_total", r.flush_failures)
    ∷ (codes "analytics_retry_attempts_total", r.retry_attempts)
    ∷ (codes "analytics_bulk_items_indexed_total", r.bulk_indexed)
    ∷ (codes "analytics_bulk_items_failed_total", r.bulk_failed)
    ∷ (codes "analytics_queue_full_occurrences_total", r.queue_full)
    ∷ []

value_lines-lack : (r : Registry) → All (λ line. lacks b'\n' line ≡ true) (value_lines r)
value_lines-lack r = (
  refl,
  (
    lacks-decimal r.accepted_events,
    (
      refl,
      (
        lacks-decimal r.rejected_events,
        (
          refl,
          (
            lacks-decimal r.dropped_events,
            (
              refl,
              (
                lacks-decimal r.queued_current,
                (
                  refl,
                  (
                    lacks-decimal r.flushes,
                    (
                      refl,
                      (
                        lacks-decimal r.flush_failures,
                        (
                          refl,
                          (
                            lacks-decimal r.retry_attempts,
                            (
                              refl,
                              (
                                lacks-decimal r.bulk_indexed,
                                (
                                  refl,
                                  (
                                    lacks-decimal r.bulk_failed,
                                    (refl, (lacks-decimal r.queue_full, tt)),
                                  ),
                                ),
                              ),
                            ),
                          ),
                        ),
                      ),
                    ),
                  ),
                ),
              ),
            ),
          ),
        ),
      ),
    ),
  ),
)

-- Reading the values off the lines of the counters.
sample_in-value_lines :
    (r : Registry) (more : List Bytes)
    → All (λ m. m.1 < 2 ^ 64) (metrics_of r)
    → All (λ m. sample_in m.0 (value_lines r ++ more) ≡ some m.1) (metrics_of r)
unfolding sample_in has_prefix after_prefix
sample_in-value_lines r more (a, (b, (c, (d, (e, (f, (g, (h, (i, (j, _)))))))))) = (
  natural-decimal r.accepted_events a,
  (
    natural-decimal r.rejected_events b,
    (
      natural-decimal r.dropped_events c,
      (
        natural-decimal r.queued_current d,
        (
          natural-decimal r.flushes e,
          (
            natural-decimal r.flush_failures f,
            (
              natural-decimal r.retry_attempts g,
              (
                natural-decimal r.bulk_indexed h,
                (natural-decimal r.bulk_failed i, (natural-decimal r.queue_full j, tt)),
              ),
            ),
          ),
        ),
      ),
    ),
  ),
)

module _ (thousandths : ℕ → Bytes) where
  -- Every counter of 64 bits, and a queue depth that fits, is read back from the printed metrics under
  -- its own name exactly as it was, whatever the histograms hold and however they are printed.
  pub sample-render :
      (r : Registry) (uptime : ℕ)
      → All (λ m. m.1 < 2 ^ 64) (metrics_of r)
      → All (λ m. sample m.0 (render thousandths r uptime) ≡ some m.1) (metrics_of r)
  unfolding sample render
  sample-render r uptime small =
      let more =
        histogram_lines thousandths (codes "analytics_batch_size") (λ n. n * 1000)
          r.batch_size_histogram
        ++ histogram_lines thousandths (codes "analytics_flush_latency_seconds") (λ n. n / 10 ^ 6)
            r.flush_latency_seconds
        ++ codes "# TYPE analytics_process_uptime_seconds gauge"
          ∷ (codes "analytics_process_uptime_seconds " ++ thousandths uptime)
          ∷ [] in
      let lines : split b'\n' (render thousandths r uptime)
          ≡ value_lines r ++ split b'\n' (unlines more) =
        ap (λ s. split b'\n' s) (unlines-append (value_lines r) more)
        ∙ split-unlines (value_lines r) (unlines more) (value_lines-lack r) in
      subst (λ ls. All (λ m. sample_in m.0 ls ≡ some m.1) (metrics_of r)) (sym lines)
        (sample_in-value_lines r (split b'\n' (unlines more)) small)
