-- ===== src/Batcher/Intake.antt =====
-- The batcher leaves the counter of accepted events to the request handlers.
use formation_web_analytics.Base.{
  pos_part, ℕ, zero, suc, ◌+◌, ◌≡◌, refl, ◌∙◌, inl, inr, Option, none, some, List, length,
  Bool-cases, arith, ◌==◌,
}
use formation_web_analytics.Event.{Event, zero_event}
use formation_web_analytics.Config.{Config}
use formation_web_analytics.Queue
use formation_web_analytics.Queue.{Queue}
use formation_web_analytics.Elastic.Backoff.{backoff}
use formation_web_analytics.Metrics.{
  Registry, add_bulk_indexed, add_bulk_failed, inc_retry_attempt, inc_flush, observe_batch_size,
}
use formation_web_analytics.Batcher.{
  Environment, FlushError, Tried, nothing_again, exhausted, interrupted, attempts, send_with_retry,
  after_error, observe_latency, settle, flush, flush_while,
}

module _ {W : Type 0} (env : Environment W) (cfg : Config) where
  pub attempts-accepted :
      (left attempt : ℕ) (pending : List Event) (m : Registry) (w : W)
      → (attempts env cfg left attempt pending m w).metrics.accepted_events ≡ m.accepted_events
  unfolding attempts nothing_again exhausted interrupted
  attempts-accepted zero attempt pending m w = ground arith
  attempts-accepted (suc left) attempt pending m w =
      let s = env.sender.send pending w in
      let m' =
        inc_retry_attempt (add_bulk_failed s.result.failed (add_bulk_indexed s.result.indexed m)) in
      let delay =
        pos_part (backoff env.jitter cfg.retry_min_backoff cfg.retry_max_backoff attempt) in
      ground
        (arith, attempts-accepted left (attempt + 1) s.result.retry m' (env.wait delay s.world).1)

  settle-accepted :
      (started : W) (t : Tried W) (q : Queue Event) (e : Option FlushError)
      → (settle env cfg started t q e).2.accepted_events ≡ t.metrics.accepted_events
  unfolding settle after_error observe_latency
  settle-accepted started t q none = refl
  settle-accepted started t q (some e) = refl

  flush-accepted :
      (q : Queue Event) (m : Registry) (w : W)
      → (flush env cfg q m w).2.accepted_events ≡ m.accepted_events
  unfolding flush send_with_retry
  flush-accepted q m w =
      let (batch, rest) = Queue.drain zero_event q cfg.max_batch_size in
      let m₁ =
        observe_batch_size (length batch) (env.size_thousandths (length batch)) (inc_flush m) in
      let t = send_with_retry env cfg batch m₁ w in
      elim (Bool-cases (Queue.len q == 0)) [
        | inl empty ↦ rw empty refl
        | inr full ↦ elim (Bool-cases (length batch == 0)) [
          | inl none_taken ↦ rw (full, none_taken) refl
          | inr taken ↦
              rw (full, taken)
                (settle-accepted w t (env.meanwhile w rest) t.error
                  ∙ attempts-accepted cfg.max_retries 0 batch m₁ w)
        ]
      ]

  pub flush_while-accepted :
      (fuel least : ℕ) (q : Queue Event) (m : Registry) (w : W)
      → (flush_while env cfg fuel least q m w).2.accepted_events ≡ m.accepted_events
  unfolding flush_while
  flush_while-accepted zero least q m w = refl
  flush_while-accepted (suc fuel) least q m w =
      let r = flush env cfg q m (env.cancelled w).1 in
      let now = flush-accepted q m (env.cancelled w).1 in
      let later = flush_while-accepted fuel least r.1 r.2 r.3 in ground (arith, now, later)
